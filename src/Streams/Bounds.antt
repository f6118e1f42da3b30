-- ===== src/Streams/Bounds.antt =====
-- The size of a copy buffer and the idle timeout, whatever the settings say.
use sshcustom_magisk.Base.{ℕ, zero, suc, ◌%◌, ◌≤◌, ◌≡◌, refl, ap, ◌∙◌, arith}
use sshcustom_magisk.Base.Int.{ℤ, pos}
use sshcustom_magisk.Pool.{seconds_default}
use sshcustom_magisk.Streams.{
  quantum, clamp, round_up, size_or_default, normalized_copy_buffer_size, stream_idle_timeout,
  max_copy_buffer_size,
}

clamp_bounds : (low high n : ℕ) → low ≤ high → (low ≤ clamp low high n) × (clamp low high n ≤ high)
clamp_bounds low high n h = ground arith

round_up_bounds :
    (n : ℕ)
    → quantum ≤ n
    → n ≤ max_copy_buffer_size
    → (quantum ≤ round_up n) × (round_up n ≤ max_copy_buffer_size) × (round_up n % quantum ≡ 0)
round_up_bounds n low high = (omega arith, omega arith, omega arith)

round_up_fixed : (n : ℕ) → n % quantum ≡ 0 → round_up n ≡ n
round_up_fixed n h = omega arith

clamp_fixed : (low high n : ℕ) → low ≤ n → n ≤ high → clamp low high n ≡ n
clamp_fixed low high n h k = ground arith

size_or_default_fixed : (n : ℕ) → 1 ≤ n → size_or_default (pos n) ≡ n
size_or_default_fixed zero h = absurd (omega arith)
size_or_default_fixed (suc n) h = refl

-- A buffer has 32 to 256 KiB and a whole number of 32 KiB blocks, whatever the settings say, and
-- a size that is normalized is left as it is.
pub normalized_copy_buffer_size_bounds :
    (n : ℤ)
    → let size = normalized_copy_buffer_size n in
      (quantum ≤ size)
      × (size ≤ max_copy_buffer_size)
      × (size % quantum ≡ 0)
      × (normalized_copy_buffer_size (pos size) ≡ size)
unfolding normalized_copy_buffer_size
normalized_copy_buffer_size_bounds n =
    let given = clamp quantum max_copy_buffer_size (size_or_default n) in
    let fits = clamp_bounds quantum max_copy_buffer_size (size_or_default n) (omega arith) in
    let (low, high, whole) = round_up_bounds given fits.0 fits.1 in
    (
      low,
      high,
      whole,
      ap (λ size. round_up (clamp quantum max_copy_buffer_size size))
            (size_or_default_fixed (round_up given) (omega (arith, low)))
          ∙ ap round_up (clamp_fixed quantum max_copy_buffer_size (round_up given) low high)
          ∙ round_up_fixed (round_up given) whole,
    )

-- The idle timeout is between half a minute and an hour, whatever the settings say.
pub stream_idle_timeout_bounds :
    (n : ℤ) → (30 ≤ stream_idle_timeout n) × (stream_idle_timeout n ≤ 3600)
unfolding stream_idle_timeout
stream_idle_timeout_bounds n = clamp_bounds 30 3600 (seconds_default n 150) (omega arith)
