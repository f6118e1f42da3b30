-- ===== src/Daemon.antt =====
-- `State` of cmd/sshcustomd/main.go: what the dashboard shows, with the subscribers that are told
-- of each change. The fields are those that the modelled code writes.
pub mod Subscribers
use sshcustom_magisk.Base.{ℕ, Bool, true, false, List, [], ◌∷◌, ◌++◌, ◌==◌, if◌then◌else◌, map}
use sshcustom_magisk.Base.Int.{ℤ}
use sshcustom_magisk.Text.{Text}

-- A channel that holds at most one notification; `pending` tells whether it does.
pub record Subscriber : Type 0 where
  pub channel : ℕ
  pub pending : Bool

pub record State : Type 0 where
  pub state : Text
  pub connected : Bool
  pub ssh_authenticated : Bool
  pub transport_ready : Bool
  pub last_error : Text
  pub last_event : Text
  pub attempt : ℕ
  pub network_online : Bool
  pub default_route : Text
  pub interface : Text
  pub gateway : Text
  pub source_ip : Text
  pub remote_banner : Text
  pub http_statuses : List ℤ
  pub resolved_dial : Text
  pub resolver_method : Text
  pub resolved_ips : List Text
  pub socks_enabled : Bool
  pub socks_addr : Text
  pub socks_running : Bool
  pub transparent_enabled : Bool
  pub transparent_addr : Text
  pub transparent_running : Bool
  pub transparent_applied : Bool
  pub hotspot_running : Bool
  pub pool_size : ℕ
  pub pool_healthy : ℕ
  pub pool_reconnecting : ℕ
  pub pool_streams : ℕ
  pub pool_max_streams : ℕ
  pub pool_last_error : Text
  pub subs : List Subscriber

-- The send of `broadcast` to one subscriber: a full channel keeps its one notification.
abbrev pub notify : Subscriber → Subscriber
notify c = record c { pending = true }

-- `State.broadcast`.
unfoldable pub broadcast : State → State
broadcast s = record s { subs = map notify s.subs }

-- `State.set`: the change, then the broadcast.
unfoldable pub set_state : (State → State) → State → State
unfolding broadcast
set_state change s = broadcast (change s)

-- `State.Subscribe`: a new channel, empty, at the end of the list.
unfoldable pub subscribe : ℕ → State → State
subscribe channel s = record s {
  subs = s.subs ++ (record { channel = channel; pending = false } ∷ []);
}

abbrev pub remove_first : ℕ → List Subscriber → List Subscriber
remove_first channel [] = []
remove_first channel (c ∷ cs) =
    let rest = remove_first channel cs in if c.channel == channel then cs else c ∷ rest

-- The cleanup function that `State.Subscribe` returns.
unfoldable pub unsubscribe : ℕ → State → State
unsubscribe channel s = record s { subs = remove_first channel s.subs }

-- The consumer's receive: it takes the notification that is pending.
abbrev pub receive_on : ℕ → List Subscriber → List Subscriber
receive_on channel [] = []
receive_on channel (c ∷ cs) =
    (if c.channel == channel then record c { pending = false } else c) ∷ receive_on channel cs
