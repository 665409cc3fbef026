-- ===== src/Macros/Single.antt =====
-- The macros on one digit, in closed form.
use native.Mathlib.Nat.{mul-div_cancel}
use new_explorer_aios.Prelude.{
  ℕ, zero, suc, ◌+◌, ◌-◌, ◌*◌, ◌/◌, ◌%◌, ◌^◌, ◌<◌, bit_and, bit_or, ◌≡◌, refl, ◌∙◌, arith,
  one-le-pow,
}
use new_explorer_aios.Bits.Digit.{or-IsDigitwise}
use new_explorer_aios.Bits.Split.{split_at, or-zero}
use new_explorer_aios.Bits.Field.{cut, mod-pow-lt, and_field}
use new_explorer_aios.Bits.Word.{word_mod, shl_lem}
use new_explorer_aios.Macros.{bit, sb, gb, cb}
use new_explorer_aios.Macros.Laws.{Fits, cleared, field_small}

or-one : (f : ℕ) → f < 2 → bit_or f 1 ≡ 1
or-one zero h = refl
or-one (suc zero) h = refl
or-one (suc (suc f)) h = absurd (omega arith)

and-zero-mask : (f : ℕ) → f < 2 → bit_and f (2 ^ 1 - 1 - 1) ≡ 0
and-zero-mask zero h = refl
and-zero-mask (suc zero) h = refl
and-zero-mask (suc (suc f)) h = absurd (omega arith)

module _ {t b : ℕ} (fits : Fits t b 1) where
  pub bit_lem : bit b ≡ 2 ^ b
  unfolding bit
  bit_lem = shl_lem 1 b (field_small fits 1 (omega arith)) ∙ omega arith

  as_field : bit b ≡ (2 ^ 1 - 1) * 2 ^ b
  as_field = bit_lem ∙ omega arith

  pub gb_lem : (me : ℕ) → gb me b ≡ me / 2 ^ b % 2
  unfolding gb
  gb_lem me =
      rw as_field
        (rw (and_field b 1 me) (mul-div_cancel (me / 2 ^ b % 2) (one-le-pow b 2 (omega arith))))

  pub sb_lem : (me : ℕ) → sb me b ≡ (me / 2 ^ b / 2 * 2 + 1) * 2 ^ b + me % 2 ^ b
  unfolding sb
  sb_lem me = rw bit_lem (
      split_at or-IsDigitwise b (me / 2 ^ b) 1 (me % 2 ^ b) 0 (cut me b) (omega arith)
        (mod-pow-lt me b) (one-le-pow b 2 (omega arith))
      ∙ rw (high, or-zero (me % 2 ^ b)) refl)
    where
      high : bit_or (me / 2 ^ b) 1 ≡ me / 2 ^ b / 2 * 2 + 1
      high =
          split_at or-IsDigitwise 1 (me / 2 ^ b / 2) 0 (me / 2 ^ b % 2) 1 (omega arith)
            (omega arith) (omega arith) (omega arith)
          ∙ rw (or-zero (me / 2 ^ b / 2), or-one (me / 2 ^ b % 2) (omega arith)) refl

  pub cb_lem : (me : ℕ) → me < word_mod → cb me b ≡ me / 2 ^ b / 2 * 2 * 2 ^ b + me % 2 ^ b
  unfolding cb
  cb_lem me h = rw as_field (
      cleared fits me h 1 (omega arith)
      ∙ rw (and-zero-mask (me / 2 ^ b % 2) (omega arith)) (omega arith))

pub place-Fits : (b : ℕ) → b < 64 → Fits (63 - b) b 1
place-Fits b h = omega arith

-- `BIT(b)` for a place in the word.
pub bit-pow : (b : ℕ) → b < 64 → bit b ≡ 2 ^ b
bit-pow b h = bit_lem (place-Fits b h)
