-- ===== src/Streams.antt =====
-- The copying of streams (cmd/sshcustomd/main.go): the size of a buffer, the idle timeout, and the
-- loop that writes a whole buffer. The connection's `Write` is a parameter.
pub mod Bounds
pub mod Writing
use sshcustom_magisk.Base.{
  ℕ, zero, suc, ◌+◌, ◌-◌, ◌*◌, ◌/◌, Bool, true, false, List, [], ◌∷◌, Option, none, some, ltb,
  if◌then◌else◌, drop, length,
}
use sshcustom_magisk.Base.Int.{ℤ, pos, negsuc}
use sshcustom_magisk.Text.{Text}
use sshcustom_magisk.Pool.{seconds_default}

abbrev pub default_copy_buffer_size : ℕ
default_copy_buffer_size = 131072

abbrev pub max_copy_buffer_size : ℕ
max_copy_buffer_size = 262144

-- 32 KiB.
abbrev pub quantum : ℕ
quantum = 32768

abbrev pub clamp : ℕ → ℕ → ℕ → ℕ
clamp low high n =
    let raised = if ltb n low then low else n in if ltb high raised then high else raised

abbrev pub size_or_default : ℤ → ℕ
size_or_default (pos zero) = default_copy_buffer_size
size_or_default (pos (suc n)) = suc n
size_or_default (negsuc _) = default_copy_buffer_size

-- The next multiple of the block size.
abbrev pub round_up : ℕ → ℕ
round_up n = ((n + quantum - 1) / quantum) * quantum

-- `normalizedCopyBufferSize`.
unfoldable pub normalized_copy_buffer_size : ℤ → ℕ
normalized_copy_buffer_size n = round_up (clamp quantum max_copy_buffer_size (size_or_default n))

-- `streamIdleTimeout`, in seconds.
unfoldable pub stream_idle_timeout : ℤ → ℕ
unfolding seconds_default
stream_idle_timeout configured = clamp 30 3600 (seconds_default configured 150)

pub data WriteError : Type 0 where
  write_failed : Text → WriteError
  short_write : WriteError

-- What one call of `Write` reports: how many bytes it took, and its error.
abbrev pub Written : Type 0
Written = ℕ × Option Text

module _ {W : Type 0} (write : W → Text → W × Written) where
  -- The part of a round behind the call of `Write`.
  abbrev pub after_write :
      W → ℕ → Written → (W × Option (ℕ × Option WriteError)) → W × Option (ℕ × Option WriteError)
  after_write w total (n, some e) again = (w, some (total + n, some (write_failed e)))
  after_write w total (zero, none) again = (w, some (total, some short_write))
  after_write w total (suc n, none) again = again

  -- The loop of `writeAll`; the first number is its fuel.
  unfoldable pub write_from : ℕ → W → ℕ → Text → W × Option (ℕ × Option WriteError)
  write_from fuel w total [] = (w, some (total, none))
  write_from zero w total (c ∷ b) = (w, none)
  write_from (suc fuel) w total (c ∷ b) =
      let step = write w (c ∷ b) in
      let again = write_from fuel step.0 (total + step.1.0) (drop step.1.0 (c ∷ b)) in
      after_write step.0 total step.1 again

  -- `writeAll`: a round for each byte is enough, since a round that takes none is the last.
  unfoldable pub write_all : W → Text → W × Option (ℕ × Option WriteError)
  unfolding write_from
  write_all w b = write_from (length b) w 0 b
