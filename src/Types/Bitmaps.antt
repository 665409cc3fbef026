-- ===== src/Types/Bitmaps.antt =====
-- The searches of a bitmap find the next digit that is 1.
use native.Mathlib.Nat.{pow-le-pow_right}
use native.Mathlib.Decide.{dec_lt}
use new_explorer_aios.Prelude.{
  ℕ, zero, suc, ◌+◌, ◌-◌, ◌*◌, ◌/◌, ◌%◌, ◌^◌, ◌≤◌, ◌<◌, ◌≡◌, ◌∙◌, refl, inl, inr, arith, Bool-cases,
  ◌==◌, ltb, leb, bit_and, bit_xor, one-le-pow, ◌||◌, true, false,
}
use new_explorer_aios.Bits.Word.{word_mod, ◌<<<◌, complement}
use new_explorer_aios.Bits.Field.{and_mask}
use new_explorer_aios.Bits.High.{and_high}
use new_explorer_aios.Types.{
  bitmap_first_word_mask, round_down, Bitmap, ffs_word, min_of, next_bit_loop, next_bit,
}
use new_explorer_aios.Types.Digits.{FirstDigit, no_digit, some_digit}

-- Digit `i` of a bitmap.
abbrev pub digit_of : Bitmap → ℕ → ℕ
digit_of v i = v (i / 64) / 2 ^ (i % 64) % 2

-- `r` is the place of the first 1 from `from` on, or `size` where there is none below it.
pub record IsNext (v : Bitmap) (from size r : ℕ) : Type 0 where
  pub above : from ≤ r
  pub within : r ≤ size
  pub hit : r < size → digit_of v r ≡ 1
  pub skipped : (i : ℕ) → from ≤ i → i < r → digit_of v i ≡ 0

module _ (v : Bitmap) where
  place : (q i : ℕ) → q * 64 ≤ i → i < q * 64 + 64 → digit_of v i ≡ v q / 2 ^ (i - q * 64) % 2
  place q i low high =
      let word : i / 64 ≡ q = omega arith in
      let rest : i % 64 ≡ i - q * 64 = omega arith in rw (word, rest) refl

  skipped_in :
      (q b n i : ℕ) → FirstDigit (v q) b n → q * 64 + b ≤ i → i < q * 64 + n → digit_of v i ≡ 0
  skipped_in q b n i first low high =
      let below = first.below in
      place q i (omega arith) (omega arith) ∙ first.skipped (i - q * 64) (omega arith) (omega arith)

  hit_in : (q b n : ℕ) → FirstDigit (v q) b n → digit_of v (q * 64 + n) ≡ 1
  hit_in q b n first =
      let below = first.below in
      let back : q * 64 + n - q * 64 ≡ n = omega arith in
      place q (q * 64 + n) (omega arith) (omega arith) ∙ rw back first.hit

  pub min_of-IsNext :
      (q b n size : ℕ)
      → q * 64 + b < size
      → FirstDigit (v q) b n
      → IsNext v (q * 64 + b) size (min_of (q * 64 + n) size)
  unfolding min_of
  min_of-IsNext q b n size more first = elim (Bool-cases (ltb (q * 64 + n) size)) [
    | inl e ↦ rw e (record {
      above = omega (arith, first.above);
      within = ground arith;
      hit = λ h. hit_in q b n first;
      skipped = λ i low high. skipped_in q b n i first low high;
    })
    | inr e ↦ rw e (record {
      above = omega arith;
      within = omega arith;
      hit = λ h. absurd (omega arith);
      skipped = λ i low high. skipped_in q b n i first low (ground arith);
    })
  ]

  -- A word without a 1 is skipped.
  pub IsNext-after :
      (q b size r : ℕ)
      → b ≤ 64
      → ((j : ℕ) → b ≤ j → v q / 2 ^ j % 2 ≡ 0)
      → IsNext v ((q + 1) * 64) size r
      → IsNext v (q * 64 + b) size r
  IsNext-after q b size r small empty next = record {
    above = omega (arith, next.above);
    within = next.within;
    hit = next.hit;
    skipped = λ i low high. elim (dec_lt i ((q + 1) * 64)) [
      | yes h ↦ place q i (omega arith) (omega arith) ∙ empty (i - q * 64) (omega arith)
      | no h ↦ next.skipped i (omega arith) high
    ];
  }

  -- No 1 below the size.
  pub IsNext-end :
      (q b size : ℕ)
      → q * 64 + b < size
      → size ≤ q * 64 + 64
      → ((j : ℕ) → b ≤ j → v q / 2 ^ j % 2 ≡ 0)
      → IsNext v (q * 64 + b) size size
  IsNext-end q b size more last empty = record {
    above = omega arith;
    within = omega arith;
    hit = λ h. absurd (omega arith);
    skipped =
        λ i low high. place q i (omega arith) (omega arith) ∙ empty (i - q * 64) (omega arith);
  }

module _ (addr : Bitmap) (invert : ℕ) where
  -- The bitmap with the digits inverted where `invert` says so.
  abbrev pub inverted : Bitmap
  inverted q = bit_xor (addr q) invert

  module _ (words : (q : ℕ) → inverted q < word_mod) where
    next_bit_loop-IsNext :
        (size rounds q b tmp : ℕ)
        → b < 64
        → q * 64 + b < size
        → size < (q + rounds) * 64
        → size ≤ word_mod - 64
        → tmp ≡ inverted q / 2 ^ b * 2 ^ b
        → IsNext inverted (q * 64 + b) size (next_bit_loop rounds addr size invert (q * 64) tmp)
    unfolding next_bit_loop
    next_bit_loop-IsNext size zero q b tmp small more enough fits e = absurd (omega arith)
    next_bit_loop-IsNext size (suc rounds) q b tmp small more enough fits e =
        let step : (q * 64 + 64) % word_mod ≡ (q + 1) * 64 = omega arith in
        elim (Bool-cases (tmp == 0)) [
          | inr some_left ↦
              let first = some_digit (inverted q) b (words q) (ground arith) in
              let n = ffs_word (inverted q / 2 ^ b * 2 ^ b) in
              let place_word : (q * 64 + n) % word_mod ≡ q * 64 + n = omega (arith, first.below) in
              rw (some_left, e, place_word) (min_of-IsNext inverted q b n size more first)
          | inl none_left ↦
              let empty = no_digit (inverted q) b (ground arith) in
              elim (Bool-cases (leb size (q * 64 + 64))) [
                | inl last ↦
                    let past : leb size ((q + 1) * 64) ≡ true = ground arith in
                    rw (none_left, step, past)
                      (IsNext-end inverted q b size more (ground arith) empty)
                | inr further ↦
                    let beyond : q * 64 + 64 < size = ground arith in
                    let before_end : leb size ((q + 1) * 64) ≡ false = ground arith in
                    let back : (q + 1) * 64 + 0 ≡ (q + 1) * 64 = omega arith in
                    let word : (q + 1) * 64 / 64 ≡ q + 1 = omega arith in
                    rw (none_left, step, before_end, word)
                      (IsNext-after inverted q b size _ (omega arith) empty (
                        rw back at (
                          next_bit_loop-IsNext size rounds (q + 1) 0 (inverted (q + 1))
                            (omega arith) (omega arith) (omega arith) fits (omega arith))))
              ]
        ]

-- `~0UL << b`.
high_digits : (b : ℕ) → b < 64 → complement 0 <<< b ≡ complement (2 ^ b - 1)
high_digits b h =
    omega
      (arith, one-le-pow b 2, pow-le-pow_right {n = 2} (omega arith) {i = b} {j = 64} (omega arith))

masked_lem :
    (w start : ℕ)
    → w < word_mod
    → bit_and w (bitmap_first_word_mask start) ≡ w / 2 ^ (start % 64) * 2 ^ (start % 64)
unfolding bitmap_first_word_mask
masked_lem w start h =
    rw (and_mask 6 start, high_digits (start % 64) (omega arith))
      (and_high (64 - start % 64) (start % 64) (omega arith) w h)

module _ (addr : Bitmap) (invert : ℕ) (words : (q : ℕ) → inverted addr invert q < word_mod) where
  pub next_bit-IsNext :
      (size start : ℕ)
      → size ≤ word_mod - 64
      → start ≤ size
      → IsNext (inverted addr invert) start size (next_bit addr size start invert)
  unfolding next_bit round_down
  next_bit-IsNext size start fits within = elim (Bool-cases (leb size start)) [
    | inl done ↦
        let none_left : (size == 0 || leb size start) ≡ true = ground arith in
        rw none_left (record {
          above = within;
          within = omega arith;
          hit = λ h. absurd (omega arith);
          skipped = λ i low high. absurd (ground arith);
        })
    | inr more ↦
        let some_bits : (size == 0) ≡ false = ground arith in
        let whole : start / 64 * 64 + start % 64 ≡ start = omega arith in
        rw
          (
            some_bits,
            more,
            and_high 58 6 (omega arith) start (omega arith),
            masked_lem (inverted addr invert (start / 64)) start (words (start / 64)),
          )
          (rw whole at (
            next_bit_loop-IsNext addr invert words size (size / 64 + 2) (start / 64) (start % 64)
              (inverted addr invert (start / 64) / 2 ^ (start % 64) * 2 ^ (start % 64))
              (omega arith) (ground arith) (omega arith) fits refl))
  ]
