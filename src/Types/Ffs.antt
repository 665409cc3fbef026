-- ===== src/Types/Ffs.antt =====
-- `__ffs` returns the place of the lowest digit that is 1.
use native.Mathlib.Nat.{
  mul-mod_left, mul_assoc, mul_comm, mul-div_cancel, pow-le-pow_right, mul-le-mul_right,
}
use native.Mathlib.Decide.{dec_lt}
use new_explorer_aios.Prelude.{
  ℕ, ◌+◌, ◌-◌, ◌*◌, ◌/◌, ◌%◌, ◌^◌, ◌<◌, bit_and, ◌≡◌, ◌≢◌, refl, inl, inr, arith, Bool-cases, ◌==◌,
  eq_of_==, one-le-pow, if◌then◌else◌,
}
use new_explorer_aios.Bits.Field.{pow-add, and_mask, cut}
use new_explorer_aios.Bits.Word.{word_mod}
use new_explorer_aios.Types.{drop_low, ffs_word}

-- `w` is `v` with `n` zeros behind it, and the low `k` digits of `v` are not all 0.
pub record Cut (w k : ℕ) (p : ℕ × ℕ) : Type 0 where
  pub shifted : w ≡ p.1 * 2 ^ p.0
  pub nonzero : p.1 % 2 ^ k ≢ 0

-- A number whose low `k` digits are 0 is its high part, shifted.
pub shifted_of_mod : (v k : ℕ) → v % 2 ^ k ≡ 0 → v ≡ v / 2 ^ k * 2 ^ k
shifted_of_mod v k low = omega (arith, cut v k)

regroup : (w v u k n : ℕ) → w ≡ v * 2 ^ n → v ≡ u * 2 ^ k → w ≡ u * 2 ^ (n + k)
regroup w v u k n e e' =
    rw (pow-add n k, e, e', mul_comm (2 ^ n) (2 ^ k)) (mul_assoc u (2 ^ k) (2 ^ n))

low_mask_test : (v k : ℕ) → (bit_and v (2 ^ k - 1) == 0) ≡ (v % 2 ^ k == 0)
low_mask_test v k = rw (and_mask k v) refl

drop_low_lem : (w k : ℕ) (p : ℕ × ℕ) → Cut w (k + k) p → Cut w k (drop_low k p)
unfolding drop_low
drop_low_lem w k (n, v) c = rw (low_mask_test v k) (elim (Bool-cases (v % 2 ^ k == 0)) [
  | inl e ↦
      let low = shifted_of_mod v k (eq_of_== (v % 2 ^ k) 0 e) in
      rw e (record {
        shifted = regroup w v (v / 2 ^ k) k n c.shifted low;
        nonzero = λ z. c.nonzero (
            rw (regroup v (v / 2 ^ k) (v / 2 ^ k / 2 ^ k) k k low (shifted_of_mod (v / 2 ^ k) k z))
              (mul-mod_left (v / 2 ^ k / 2 ^ k) (2 ^ (k + k))));
      })
  | inr e ↦ rw e (record { shifted = c.shifted; nonzero = ground arith })
])

-- `w` is an odd number with `n` zeros behind it.
pub Odd : ℕ → ℕ → ℕ → Type 0
Odd w n v = (w ≡ v * 2 ^ n) × (v % 2 ≡ 1)

pub ffs_word-Odd : (w : ℕ) → w ≢ 0 → w < word_mod → (v : ℕ) × Odd w (ffs_word w) v
unfolding ffs_word Odd
ffs_word-Odd w ne lt = last (
    drop_low_lem w 2 _ (
      drop_low_lem w 4 _ (
        drop_low_lem w 8 _ (
          drop_low_lem w 16 _
            (drop_low_lem w 32 (0, w) (record { shifted = omega arith; nonzero = omega arith }))))))
  where
    last : {p : ℕ × ℕ} → Cut w 2 p → (v : ℕ) × Odd w (if bit_and p.1 1 == 0 then p.0 + 1 else p.0) v
    last {p} c = rw (low_mask_test p.1 1) (elim (Bool-cases (p.1 % 2 == 0)) [
      | inl e ↦
          (p.1 / 2, (rw e (regroup w p.1 (p.1 / 2) 1 p.0 c.shifted (ground arith)), ground arith))
      | inr e ↦ (p.1, (rw e c.shifted, ground arith))
    ])

-- For a word that is not 0, `__ffs` returns a place below 64 that holds a 1, with only zeros below.
pub ffs_word_lem :
    (w : ℕ)
    → w ≢ 0
    → w < word_mod
    → (w / 2 ^ ffs_word w % 2 ≡ 1) × (w % 2 ^ ffs_word w ≡ 0) × (ffs_word w < 64)
unfolding Odd
ffs_word_lem w ne lt = found (ffs_word w) (ffs_word-Odd w ne lt)
  where
    found : (n : ℕ) → ((v : ℕ) × Odd w n v) → (w / 2 ^ n % 2 ≡ 1) × (w % 2 ^ n ≡ 0) × (n < 64)
    found n (v, (e, odd)) = (
      rw (e, mul-div_cancel v (one-le-pow n 2 (omega arith))) odd,
      rw e (mul-mod_left v (2 ^ n)),
      elim (dec_lt n 64) [
        | yes h ↦ h
        | no h ↦ absurd (
            omega (
              arith,
              pow-le-pow_right {n = 2} (omega arith) {i = 64} {j = n} (omega arith),
              mul-le-mul_right {m = 1} {n = v} (2 ^ n) (omega arith),
            ))
      ],
    )
