-- ===== src/Macros/Laws.antt =====
-- The field macros in closed form, for a field that lies within the word.
use native.Mathlib.Nat.{
  mul-div_cancel, mul-add-mod_self_right, mod-mod, mul-lt-mul_of_pos_right, mul-le-mul_right,
  lt_of_lt_of_le, div-lt_iff_lt-mul, sub_self, pow-le-pow_right, pow-suc, add-mul-div_right,
  mul-add-div_right, div-eq_of_lt,
}
use new_explorer_aios.Prelude.{
  ℕ, ◌+◌, ◌-◌, ◌*◌, ◌/◌, ◌%◌, ◌^◌, ◌≤◌, ◌<◌, bit_and, ◌≡◌, refl, ap, ap₂, sym, ◌∙◌, arith,
  one-le-pow,
}
use new_explorer_aios.Bits.Field.{
  pow-add, full-lt, mod-pow-lt, cut, and_mask, and_field, or_field, clear_field,
}
use new_explorer_aios.Bits.Split.{and-zero, and-complement}
use new_explorer_aios.Bits.Word.{word_mod, ◌<<<◌, complement, sub64, shl_lem}
use new_explorer_aios.Macros.{bm, am, gr, cr, zr, mr}

-- A field of `c` digits at `b`, with `t` digits above it.
pub record Fits (t b c : ℕ) : Type 0 where
  pub width : t + c + b ≡ 64
  pub small : c < 64

module _ {t b c : ℕ} (fits : Fits t b c) where
  whole : 2 ^ t * 2 ^ c * 2 ^ b ≡ word_mod
  whole = rw (← pow-add t c, ← pow-add (t + c) b, fits.width) refl

  count_small : 2 ^ c * 2 ≤ word_mod
  count_small = rw (← pow-suc 2 c) (pow-le-pow_right {n = 2} (omega arith) fits.small)

  low_ones : sub64 (1 <<< c) 1 ≡ 2 ^ c - 1
  low_ones =
      rw (shl_lem 1 c (omega (arith, count_small))) (omega (arith, count_small, one-le-pow c 2))

  pub field_small : (v : ℕ) → v < 2 ^ c → v * 2 ^ b < word_mod
  field_small v h = omega (
    arith,
    whole,
    mul-lt-mul_of_pos_right {m = v} {n = 2 ^ t * 2 ^ c} {k = 2 ^ b}
        (lt_of_lt_of_le h (omega (arith, mul-le-mul_right (2 ^ c) (one-le-pow t 2 (omega arith)))))
        (one-le-pow b 2 (omega arith)),
  )

  am_lem : am b c ≡ (2 ^ c - 1) * 2 ^ b
  unfolding am
  am_lem = rw low_ones (shl_lem (2 ^ c - 1) b (field_small _ (full-lt c)))

  bm_lem : (v : ℕ) → bm b c v ≡ v % 2 ^ c * 2 ^ b
  unfolding bm
  bm_lem v = rw (low_ones, and_mask c v) (shl_lem (v % 2 ^ c) b (field_small _ (mod-pow-lt v c)))

  -- The macro `GR` reads the field.
  pub gr_lem : (me : ℕ) → gr me b c ≡ me / 2 ^ b % 2 ^ c
  unfolding gr
  gr_lem me =
      rw (am_lem, and_field b c me)
        (mul-div_cancel (me / 2 ^ b % 2 ^ c) (one-le-pow b 2 (omega arith)))

  module _ (me : ℕ) (word : me < word_mod) where
    high_small : me / 2 ^ b / 2 ^ c < 2 ^ t
    high_small =
        (div-lt_iff_lt-mul (one-le-pow c 2 (omega arith))).1
          ((div-lt_iff_lt-mul (one-le-pow b 2 (omega arith))).1 (rw whole word))

    parts : me ≡ (me / 2 ^ b / 2 ^ c * 2 ^ c + me / 2 ^ b % 2 ^ c) * 2 ^ b + me % 2 ^ b
    parts = cut me b ∙ ap (λ (x : ℕ). x * 2 ^ b + me % 2 ^ b) (cut (me / 2 ^ b) c)

    pub cleared :
        (m : ℕ)
        → m < 2 ^ c
        → bit_and me (complement (m * 2 ^ b))
          ≡ (me / 2 ^ b / 2 ^ c * 2 ^ c + bit_and (me / 2 ^ b % 2 ^ c) (2 ^ c - 1 - m)) * 2 ^ b
            + me % 2 ^ b
    cleared m h =
        ap₂ bit_and parts (ap (λ (k : ℕ). 2 ^ k - 1 - m * 2 ^ b) (sym fits.width))
        ∙ clear_field t b c _ _ m _ high_small (mod-pow-lt (me / 2 ^ b) c) h (mod-pow-lt me b)

    -- The macro `MR` replaces the field and keeps the rest of the word.
    pub mr_lem :
        (v : ℕ) → mr me b c v ≡ (me / 2 ^ b / 2 ^ c * 2 ^ c + v % 2 ^ c) * 2 ^ b + me % 2 ^ b
    unfolding mr
    mr_lem v =
        rw
          (
            am_lem,
            bm_lem v,
            and_field b c me,
            cleared (me / 2 ^ b % 2 ^ c) (mod-pow-lt (me / 2 ^ b) c),
            and-complement c (me / 2 ^ b % 2 ^ c) (mod-pow-lt (me / 2 ^ b) c),
            native.Mathlib.Nat.add-zero (me / 2 ^ b / 2 ^ c * 2 ^ c),
          )
          (or_field b c _ _ (v % 2 ^ c) (mod-pow-lt me b) (mod-pow-lt v c))

    -- The macro `ZR` empties the field and keeps the rest of the word.
    pub zr_lem : zr me b c ≡ me / 2 ^ b / 2 ^ c * 2 ^ c * 2 ^ b + me % 2 ^ b
    unfolding zr
    zr_lem =
        rw
          (
            am_lem,
            cleared (2 ^ c - 1) (full-lt c),
            sub_self (2 ^ c - 1),
            and-zero (me / 2 ^ b % 2 ^ c),
          )
          (omega arith)

    -- A field reads back as what was written, cut to its width.
    pub gr-mr : (v : ℕ) → gr (mr me b c v) b c ≡ v % 2 ^ c
    gr-mr v =
        gr_lem (mr me b c v)
        ∙ rw
            (
              mr_lem v,
              mul-add-div_right (one-le-pow b 2 (omega arith))
                  (me / 2 ^ b / 2 ^ c * 2 ^ c + v % 2 ^ c) (me % 2 ^ b),
              div-eq_of_lt (mod-pow-lt me b),
              native.Mathlib.Nat.add-zero (me / 2 ^ b / 2 ^ c * 2 ^ c + v % 2 ^ c),
              mul-add-mod_self_right (me / 2 ^ b / 2 ^ c) (2 ^ c) (v % 2 ^ c),
            )
            (mod-mod v (2 ^ c))

    -- The macro `CR` clears the digits of `v` in the field.
    pub cr_lem :
        (v : ℕ)
        → cr me b c v
          ≡ (me / 2 ^ b / 2 ^ c * 2 ^ c + bit_and (me / 2 ^ b % 2 ^ c) (2 ^ c - 1 - v % 2 ^ c))
              * 2 ^ b
            + me % 2 ^ b
    unfolding cr
    cr_lem v = rw (bm_lem v) (cleared (v % 2 ^ c) (mod-pow-lt v c))
