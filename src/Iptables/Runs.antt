-- ===== src/Iptables/Runs.antt =====
-- The daemon's runs of `Apply` and `Cleanup`.
use sshcustom_magisk.Base.{ℕ, ◌≡◌, refl, List, [], ◌∷◌, ◌++◌, Option, take}
use sshcustom_magisk.Text.{Text}
use sshcustom_magisk.Iptables.{
  Config, Command, exec, exec_all, setup_commands, prefix_of, ifaces_of, cleanup, apply,
}

-- A run of the daemon's: `Apply`, `Apply` that is broken off when it has run so many commands
-- behind its `Cleanup`, or `Cleanup`.
pub data Run : Type 0 where
  applied : Config → List Text → Run
  killed : ℕ → Config → List Text → Run
  cleaned : Config → Run

-- The prefix and the interfaces are those of `cfg`; the ports, the hotspot and the bypass addresses
-- may be others.
abbrev pub IsAlike : Config → Config → Type 0
IsAlike cfg other = (prefix_of other ≡ prefix_of cfg) × (ifaces_of other ≡ ifaces_of cfg)

abbrev pub IsFor : Config → Run → Type 0
IsFor cfg (applied other ips) = IsAlike cfg other
IsFor cfg (killed n other ips) = IsAlike cfg other
IsFor cfg (cleaned other) = IsAlike cfg other

module _ {K : Type 0} (run : K → Text × List Text → K × Option (Text × Text)) where
  unfoldable pub perform : K → Run → K
  unfolding apply cleanup exec_all setup_commands
  perform s (applied cfg ips) = (apply run cfg ips s).0
  perform s (killed n cfg ips) = exec_all run (cleanup run cfg s) (take n (setup_commands cfg ips))
  perform s (cleaned cfg) = cleanup run cfg s

  unfoldable pub perform_all : K → List Run → K
  unfolding perform
  perform_all s [] = s
  perform_all s (r ∷ runs) = perform_all (perform s r) runs

  pub exec_all-append :
      (s : K) (xs ys : List Command)
      → exec_all run s (xs ++ ys) ≡ exec_all run (exec_all run s xs) ys
  unfolding exec_all
  exec_all-append s [] ys = refl
  exec_all-append s (x ∷ xs) ys = exec_all-append (exec run s x) xs ys
