-- ===== src/Daemon/Subscribers.antt =====
-- The subscribers of the dashboard's state.
use sshcustom_magisk.Base.{
  ℕ, ◌≡◌, refl, ap, ◌∙◌, true, false, List, [], ◌∷◌, ◌++◌, ◌==◌, map, Bool-cases, inl, inr, All,
  ==_iff,
}
use sshcustom_magisk.Daemon.{
  Subscriber, State, notify, broadcast, set_state, subscribe, unsubscribe, remove_first,
}

-- The channel is none of those of the list.
abbrev pub IsNew : ℕ → List Subscriber → Type 0
IsNew channel = All (λ c. (c.channel == channel) ≡ false)

All-notify : (cs : List Subscriber) → All (λ c. c.pending ≡ true) (map notify cs)
All-notify [] = tt
All-notify (c ∷ cs) = (refl, All-notify cs)

-- A change of the state leaves a notification pending for every subscriber, and neither adds nor
-- loses one when the change itself does not.
pub set_state-notifies :
    (change : State → State) (s : State)
    → All (λ c. c.pending ≡ true) (set_state change s).subs
      × (map Subscriber.channel (set_state change s).subs ≡ map Subscriber.channel (change s).subs)
unfolding set_state broadcast
set_state-notifies change s = (All-notify (change s).subs, same (change s).subs)
  where
    same :
        (cs : List Subscriber) → map Subscriber.channel (map notify cs) ≡ map Subscriber.channel cs
    same [] = refl
    same (c ∷ cs) = ap (◌∷◌ c.channel) (same cs)

remove_first-append :
    (channel : ℕ) (c : Subscriber) (cs : List Subscriber)
    → c.channel ≡ channel
    → IsNew channel cs
    → remove_first channel (cs ++ (c ∷ [])) ≡ cs
remove_first-append channel c [] same fresh = rw ((==_iff c.channel channel).1 same)
remove_first-append channel c (d ∷ cs) same fresh =
    rw (fresh.0) (ap (◌∷◌ d) (remove_first-append channel c cs same fresh.1))

remove_first_of_map :
    (channel : ℕ) (cs : List Subscriber)
    → remove_first channel (map notify cs) ≡ map notify (remove_first channel cs)
remove_first_of_map channel [] = refl
remove_first_of_map channel (c ∷ cs) = elim (Bool-cases (c.channel == channel)) [
  | inl e ↦ rw e
  | inr e ↦ rw e (ap (λ l. notify c ∷ l) (remove_first_of_map channel cs))
]

-- The cleanup function takes the subscription back: for a channel that is not in use, with a
-- change of the state in between, what is left is that change made without the subscriber.
pub unsubscribe-subscribe :
    (channel : ℕ) (s : State)
    → IsNew channel s.subs
    → (unsubscribe channel (subscribe channel s) ≡ s)
      × (unsubscribe channel (broadcast (subscribe channel s)) ≡ broadcast s)
unfolding subscribe unsubscribe broadcast
unsubscribe-subscribe channel s fresh =
    let c : Subscriber = record { channel = channel; pending = false } in
    let gone : remove_first channel (s.subs ++ (c ∷ [])) ≡ s.subs =
      remove_first-append channel c s.subs refl fresh in
    (
      ap (λ subs. record s { subs = subs }) gone,
      ap (λ subs. record s { subs = subs })
          (remove_first_of_map channel (s.subs ++ (c ∷ [])) ∙ ap (map notify) gone),
    )
