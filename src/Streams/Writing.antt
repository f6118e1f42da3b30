-- ===== src/Streams/Writing.antt =====
-- What `writeAll` reports.
use sshcustom_magisk.Base.{
  ℕ, zero, suc, ◌+◌, ◌-◌, ◌≤◌, ◌≡◌, refl, sym, [], ◌∷◌, Option, none, some, arith, length, drop,
}
use sshcustom_magisk.Text.{Text}
use sshcustom_magisk.Streams.{
  WriteError, write_failed, short_write, Written, after_write, write_from, write_all,
}

length-drop : (n : ℕ) (b : Text) → length (drop n b) ≡ length b - n
length-drop zero b = omega arith
length-drop (suc n) [] = omega arith
length-drop (suc n) (c ∷ b) = omega (arith, length-drop n b)

-- The loop has ended, with `t` bytes written, which are all of them where there is no error.
abbrev pub Ended : ℕ → ℕ → Option (ℕ × Option WriteError) → Type 0
Ended total size r =
    (t : ℕ) × (e : Option WriteError) × (r ≡ some (t, e))
    × (total ≤ t)
    × (t ≤ total + size)
    × (e ≡ none → t ≡ total + size)

module _ {W : Type 0} (write : W → Text → W × Written)
    (honest : (w : W) (b : Text) → (write w b).1.0 ≤ length b) where
  after_write-Ended :
      (w : W) (total size : ℕ) (r : Written) (again : W × Option (ℕ × Option WriteError))
      → r.0 ≤ size
      → (1 ≤ r.0 → Ended (total + r.0) (size - r.0) again.1)
      → Ended total size (after_write write w total r again).1
  after_write-Ended w total size (n, some e) again fits h =
      (total + n, some (write_failed e), refl, omega arith, omega arith, λ k. cc)
  after_write-Ended w total size (zero, none) again fits h =
      (total, some short_write, refl, omega arith, omega arith, λ k. cc)
  after_write-Ended w total size (suc n, none) again fits h =
      let (t, e, same, low, high, whole) = h (omega arith) in
      (t, e, same, omega (arith, low), omega (arith, high, fits), λ k. omega (arith, whole k, fits))

  write_from-Ended :
      (fuel : ℕ) (w : W) (total : ℕ) (b : Text)
      → length b ≤ fuel
      → Ended total (length b) (write_from write fuel w total b).1
  unfolding write_from
  write_from-Ended fuel w total [] h =
      (total, none, refl, omega arith, omega arith, λ k. omega arith)
  write_from-Ended zero w total (c ∷ b) h = absurd (omega arith)
  write_from-Ended (suc fuel) w total (c ∷ b) h =
      let step = write w (c ∷ b) in
      let n = step.1.0 in
      let left = length-drop n (c ∷ b) in
      after_write-Ended step.0 total (length (c ∷ b)) step.1 _ (honest w (c ∷ b)) (λ some_bytes.
        rw (sym left) (
          write_from-Ended fuel step.0 (total + n) (drop n (c ∷ b))
            (omega (arith, left, h, some_bytes))))

  -- `writeAll` ends, over any connection whose `Write` never reports more bytes than it was given:
  -- it reports no more bytes than there are, and all of them where it reports no error.
  pub write_all-Ended : (w : W) (b : Text) → Ended 0 (length b) (write_all write w b).1
  unfolding write_all
  write_all-Ended w b = write_from-Ended (length b) w 0 b (omega arith)
