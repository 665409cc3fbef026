-- ===== src/Bits/High.antt =====
-- Masking away the low digits of a word.
use native.Mathlib.Nat.{div-lt_iff_lt-mul, suc-mul}
use native.Mathlib.Numerals.{sub-one}
use new_explorer_aios.Prelude.{
  ℕ, zero, suc, ◌+◌, ◌-◌, ◌*◌, ◌/◌, ◌%◌, ◌^◌, ◌≤◌, ◌<◌, bit_and, ◌≡◌, ◌∙◌, ap, sym, arith,
  one-le-pow,
}
use new_explorer_aios.Bits.Digit.{and-IsDigitwise}
use new_explorer_aios.Bits.Split.{split_at, and-zero, and-full}
use new_explorer_aios.Bits.Field.{pow-add, cut, mod-pow-lt}
use new_explorer_aios.Bits.Word.{word_mod, complement}

high_mask : (t k q : ℕ) → 2 ^ t * 2 ^ k ≡ q → q - 1 - (2 ^ k - 1) ≡ (2 ^ t - 1) * 2 ^ k + 0
high_mask t k q e = parts (2 ^ t) (2 ^ k) q (one-le-pow k 2 (omega arith)) e
  where
    parts : (a b q : ℕ) → 1 ≤ b → a * b ≡ q → q - 1 - (b - 1) ≡ (a - 1) * b + 0
    parts zero b q h e = omega arith
    parts (suc a) b q h e = rw (← e, suc-mul a b, sub-one (suc a)) (omega arith)

module _ (t k : ℕ) (e : t + k ≡ 64) where
  word_parts : 2 ^ t * 2 ^ k ≡ word_mod
  word_parts = sym (pow-add t k) ∙ ap (λ (n : ℕ). 2 ^ n) e

  pub and_high : (w : ℕ) → w < word_mod → bit_and w (complement (2 ^ k - 1)) ≡ w / 2 ^ k * 2 ^ k
  and_high w h =
      split_at and-IsDigitwise k (w / 2 ^ k) (2 ^ t - 1) (w % 2 ^ k) 0 (cut w k)
        (high_mask t k word_mod word_parts) (mod-pow-lt w k) (one-le-pow k 2 (omega arith))
      ∙ rw (and-full t (w / 2 ^ k) small, and-zero (w % 2 ^ k)) (omega arith)
    where
      small : w / 2 ^ k < 2 ^ t
      small = (div-lt_iff_lt-mul (one-le-pow k 2 (omega arith))).1 (rw word_parts h)
