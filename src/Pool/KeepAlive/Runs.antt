-- ===== src/Pool/KeepAlive/Runs.antt =====
-- What `KeepAlive` does to the pool.
use sshcustom_magisk.Base.{
  List, [], ◌∷◌, ◌++◌, append_assoc, ℕ, suc, ◌+◌, ◌≡◌, refl, sym, ap, ◌∙◌, subst, inl, inr, none,
  some, arith, length, length-map, get_elem?, Bool-cases, Option-cases, ltb, ◌==◌,
}
use sshcustom_magisk.Pool.{Client, Slot, modify}
use sshcustom_magisk.Pool.KeepAlive.{
  Reply, alive, dead, cut, World, Tally, moved, after_reply, check_slot, check_slots, keep_alive,
}
use sshcustom_magisk.Pool.Steps.{ensure, drop, Reach, here, next, Reach-trans}
use sshcustom_magisk.Pool.System.{System}
use sshcustom_magisk.Pool.KeepAlive.Views.{
  View, view, views, is_good, outlives, bit, good_from, outlive_from, AreSparing,
  views-ensure_async, views-mark_broken, modify-behind, seen_at, length-append_one,
}

-- From one tally to the next: a run of the pool, with `good` more healthy slots among `more`.
record Follows (t u : Tally) (l : List View) (good more : ℕ) : Type 0 where
  reach : Reach t.system u.system
  now_views : views u.system ≡ l
  healthy : u.healthy ≡ t.healthy + good
  counted : u.healthy + u.failed ≡ t.healthy + t.failed + more

module _ (w : World) (sparing : AreSparing w) where
  after_reply-Follows :
      (r : Reply) (t : Tally) (pre : List View) (c : Client) (vs : List View)
      → views t.system ≡ pre ++ ((some c, 0) ∷ vs)
      → Follows t
          (after_reply (length pre) r t)
          (pre ++ (outlives r (some c, 0) ∷ vs))
          (bit (is_good r (some c, 0)))
          1
  unfolding after_reply
  after_reply-Follows alive t pre c vs e = record {
    reach = here;
    now_views = e;
    healthy = refl;
    counted = omega arith;
  }
  after_reply-Follows (dead err) t pre c vs e = record {
    reach = next here (drop t.system (length pre) err);
    now_views =
        views-mark_broken (length pre) err t.system
        ∙ ap (modify (length pre) (λ _. (none, 0))) e
        ∙ modify-behind (λ _. (none, 0)) pre (some c, 0) vs;
    healthy = omega arith;
    counted = omega arith;
  }
  after_reply-Follows cut t pre c vs e = record {
    reach = here;
    now_views = e;
    healthy = omega arith;
    counted = omega arith;
  }

  check_slot-Follows :
      (it : Slot) (t : Tally) (pre vs : List View)
      → views t.system ≡ pre ++ (view it ∷ vs)
      → Follows t
          (check_slot w (length pre) (some it) t)
          (pre ++ (outlives (w.replies (length pre)) (view it) ∷ vs))
          (bit (is_good (w.replies (length pre)) (view it)))
          1
  unfolding check_slot
  check_slot-Follows it t pre vs e =
      let i = length pre in
      let met = (sparing i).1 t.system in
      elim (Option-cases it.client) [
        | inl gone ↦ elim (Bool-cases it.reconnecting) [
          | inl busy ↦
              rw (gone, busy)
                (record {
                  reach = here;
                  now_views = rw gone at e;
                  healthy = omega arith;
                  counted = omega arith;
                })
          | inr idle ↦
              rw (gone, idle)
                (record {
                  reach = next met.0 (ensure (w.during i t.system) (w.now i));
                  now_views =
                      views-ensure_async (w.now i) (w.during i t.system) ∙ met.1 ∙ (rw gone at e);
                  healthy = omega arith;
                  counted = omega arith;
                })
        ]
        | inr (c, has) ↦ elim (Bool-cases (ltb 0 it.streams)) [
          | inl busy ↦
              rw (has, busy)
                (record {
                  reach = here;
                  now_views = rw has at e;
                  healthy = refl;
                  counted = omega arith;
                })
          | inr idle ↦
              let none_open : it.streams ≡ 0 = ground (arith, idle) in
              let e0 : views t.system ≡ pre ++ ((some c, 0) ∷ vs) = rw (has, none_open) at e in
              let f =
                after_reply-Follows (w.replies i) (moved (w.during i t.system) t) pre c vs
                  (met.1 ∙ e0) in
              rw (has, none_open)
                (record {
                  reach = Reach-trans met.0 f.reach;
                  now_views = f.now_views;
                  healthy = f.healthy;
                  counted = f.counted;
                })
        ]
      ]

  look-Follows :
      (i : ℕ) (t : Tally) (pre : List View) (v : View) (vs : List View)
      → length pre ≡ i
      → views t.system ≡ pre ++ (v ∷ vs)
      → Follows t
          (check_slot w i
            (get_elem? (w.before i t.system).pool.items i)
            (moved (w.before i t.system) t))
          (pre ++ (outlives (w.replies i) v ∷ vs))
          (bit (is_good (w.replies i) v))
          1
  look-Follows i t pre v vs h e =
      let met : System = w.before i t.system in
      let kept = (sparing i).0 t.system in
      let seen : views met ≡ pre ++ (v ∷ vs) = kept.1 ∙ e in
      let found = seen_at met.pool.items pre v vs seen in
      let it : Slot = found.0 in
      let at = found.1.0 in
      let same = found.1.1 in
      let one =
        check_slot-Follows it (moved met t) pre vs (seen ∙ ap (λ x. pre ++ (x ∷ vs)) (sym same)) in
      let there : get_elem? met.pool.items i ≡ some it =
        ap (get_elem? met.pool.items) (sym h) ∙ at in
      let placed : Follows (moved met t) (check_slot w i (some it) (moved met t))
          (pre ++ (outlives (w.replies i) (view it) ∷ vs)) (bit (is_good (w.replies i) (view it)))
          1 =
        subst
          (λ j.
            Follows (moved met t) (check_slot w j (some it) (moved met t))
              (pre ++ (outlives (w.replies j) (view it) ∷ vs))
              (bit (is_good (w.replies j) (view it))) 1)
          h one in
      let told =
        subst
          (λ x.
            Follows (moved met t) (check_slot w i (some it) (moved met t))
              (pre ++ (outlives (w.replies i) x ∷ vs)) (bit (is_good (w.replies i) x)) 1)
          same placed in
      rw there (record {
        reach = Reach-trans kept.0 told.reach;
        now_views = told.now_views;
        healthy = told.healthy;
        counted = told.counted;
      })

  check_slots-Follows :
      (i : ℕ) (t : Tally) (pre vs : List View)
      → length pre ≡ i
      → views t.system ≡ pre ++ vs
      → Follows t
          (check_slots w i (length vs) t)
          (pre ++ outlive_from w.replies i vs)
          (good_from w.replies i vs)
          (length vs)
  unfolding check_slots
  check_slots-Follows i t pre [] h e = record {
    reach = here;
    now_views = e;
    healthy = omega arith;
    counted = omega arith;
  }
  check_slots-Follows i t pre (v ∷ vs) h e =
      let met : System = w.before i t.system in
      let u = check_slot w i (get_elem? met.pool.items i) (moved met t) in
      let one = look-Follows i t pre v vs h e in
      let o = outlives (w.replies i) v in
      let rest =
        check_slots-Follows (suc i) u (pre ++ (o ∷ [])) vs (length-append_one pre o ∙ ap suc h)
          (one.now_views ∙ sym (append_assoc pre (o ∷ []) vs)) in
      record {
        reach = Reach-trans one.reach rest.reach;
        now_views = rest.now_views ∙ append_assoc pre (o ∷ []) (outlive_from w.replies (suc i) vs);
        healthy = omega (arith, one.healthy, rest.healthy);
        counted = omega (arith, one.counted, rest.counted);
      }

  -- What a call of `KeepAlive` comes to, by the slots that it began with.
  pub record IsSorted (s : System) (t : Tally) : Type 0 where
    pub reaches : Reach s t.system
    pub sessions : views t.system ≡ outlive_from w.replies 0 (views s)
    pub good : t.healthy ≡ good_from w.replies 0 (views s)
    pub every : t.healthy + t.failed ≡ length s.pool.items

  -- Where what other goroutines do meanwhile is a run of the pool that leaves the sessions and the
  -- counts of the streams alone, `KeepAlive` is a run of the pool that counts as healthy exactly the
  -- slots with a session that is in use or answers, and the others as failed; afterwards the idle
  -- sessions whose request ended with an error or a timeout are gone, and all others are as before.
  pub keep_alive-IsSorted : (s : System) → IsSorted s (keep_alive w s)
  unfolding keep_alive
  keep_alive-IsSorted s =
      let n = length s.pool.items in
      let t : Tally = record { system = s; healthy = 0; failed = 0 } in
      let u = check_slots w 0 n t in
      let all : Follows t u (outlive_from w.replies 0 (views s)) (good_from w.replies 0 (views s))
          n =
        rw (length-map s.pool.items view) at (check_slots-Follows 0 t [] (views s) refl refl) in
      let met = (sparing n).0 u.system in
      elim (Bool-cases (u.healthy == 0)) [
        | inl none_ok ↦ rw none_ok (record {
          reaches = Reach-trans all.reach (next met.0 (ensure (w.before n u.system) (w.now n)));
          sessions = views-ensure_async (w.now n) (w.before n u.system) ∙ met.1 ∙ all.now_views;
          good = omega (arith, all.healthy);
          every = omega (arith, all.counted);
        })
        | inr some_ok ↦ rw some_ok (record {
          reaches = Reach-trans all.reach met.0;
          sessions = met.1 ∙ all.now_views;
          good = omega (arith, all.healthy);
          every = omega (arith, all.counted);
        })
      ]
