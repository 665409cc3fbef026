-- ===== src/Types/Digits.antt =====
-- The digits of a word from a place on.
use native.Mathlib.Nat.{div-div-eq-div-mul, mul-div_cancel, zero-div, div-mul-le_self}
use native.Mathlib.Decide.{dec_lt}
use new_explorer_aios.Prelude.{
  ℕ, suc, ◌+◌, ◌-◌, ◌*◌, ◌/◌, ◌%◌, ◌^◌, ◌≤◌, ◌<◌, ◌≡◌, ◌≢◌, ◌∙◌, refl, ap, arith, one-le-pow,
  pow-suc,
}
use new_explorer_aios.Bits.Word.{word_mod}
use new_explorer_aios.Bits.Field.{pow-add}
use new_explorer_aios.Types.{ffs_word}
use new_explorer_aios.Types.Ffs.{ffs_word_lem, shifted_of_mod}

pow_split : (b j : ℕ) → b ≤ j → 2 ^ j ≡ 2 ^ b * 2 ^ (j - b)
pow_split b j h =
    let whole : j ≡ b + (j - b) = omega arith in ap (λ (n : ℕ). 2 ^ n) whole ∙ pow-add b (j - b)

-- The digits below a shift are 0, and those above it are as before.
digit_below : (x n j : ℕ) → j < n → x * 2 ^ n / 2 ^ j % 2 ≡ 0
digit_below x n j h =
    let split : x * 2 ^ n ≡ 2 * (x * 2 ^ (n - suc j)) * 2 ^ j =
      rw (pow_split (suc j) n h, pow-suc 2 j) (regroup x (2 ^ j) (2 ^ (n - suc j))) in
    rw (split, mul-div_cancel (2 * (x * 2 ^ (n - suc j))) (one-le-pow j 2 (omega arith)))
      (omega arith)
  where
    regroup : (x t u : ℕ) → x * (t * 2 * u) ≡ 2 * (x * u) * t
    regroup x t u = omega arith

digit_above : (w b j : ℕ) → b ≤ j → w / 2 ^ b * 2 ^ b / 2 ^ j ≡ w / 2 ^ j
digit_above w b j h =
    rw
      (
        pow_split b j h,
        ← div-div-eq-div-mul (w / 2 ^ b * 2 ^ b) (2 ^ b) (2 ^ (j - b)),
        ← div-div-eq-div-mul w (2 ^ b) (2 ^ (j - b)),
        mul-div_cancel (w / 2 ^ b) (one-le-pow b 2 (omega arith)),
      )
      refl

-- The first 1 of a word from its digit `b` on is at the place `n`.
pub record FirstDigit (w b n : ℕ) : Type 0 where
  pub above : b ≤ n
  pub below : n < 64
  pub hit : w / 2 ^ n % 2 ≡ 1
  pub skipped : (j : ℕ) → b ≤ j → j < n → w / 2 ^ j % 2 ≡ 0

pub no_digit : (w b : ℕ) → w / 2 ^ b * 2 ^ b ≡ 0 → (j : ℕ) → b ≤ j → w / 2 ^ j % 2 ≡ 0
no_digit w b empty j h = rw (← digit_above w b j h, empty, zero-div (2 ^ j)) refl

pub some_digit :
    (w b : ℕ) → w < word_mod → w / 2 ^ b * 2 ^ b ≢ 0 → FirstDigit w b (ffs_word (w / 2 ^ b * 2 ^ b))
some_digit w b small some_left =
    found (ffs_word (w / 2 ^ b * 2 ^ b))
      (ffs_word_lem (w / 2 ^ b * 2 ^ b) some_left (omega (arith, div-mul-le_self w (2 ^ b))))
  where
    masked : ℕ
    masked = w / 2 ^ b * 2 ^ b

    found : (n : ℕ) → (masked / 2 ^ n % 2 ≡ 1) × (masked % 2 ^ n ≡ 0) × (n < 64) → FirstDigit w b n
    found n (hit, low, small) =
        let over : b ≤ n = elim (dec_lt n b) [
          | no h ↦ omega arith
          | yes h ↦ absurd (omega (arith, digit_below (w / 2 ^ b) b n h))
        ] in
        record {
          above = over;
          below = small;
          hit = rw (← digit_above w b n over) hit;
          skipped = λ j from_b below.
              let shifted = shifted_of_mod masked n low in
              rw (← digit_above w b j from_b, shifted) (digit_below (masked / 2 ^ n) n j below);
        }
