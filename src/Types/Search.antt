-- ===== src/Types/Search.antt =====
-- The four searches of include/types.h, for the digits that are 1 and for those that are 0.
use mathlib.Core.Path.{fun_ext, subst}
use new_explorer_aios.Prelude.{
  ℕ, zero, suc, ◌+◌, ◌-◌, ◌*◌, ◌/◌, ◌%◌, ◌^◌, ◌≤◌, ◌<◌, ◌≡◌, ◌≢◌, refl, false, true, inl, inr,
  arith, Bool-cases, ◌==◌, ltb, leb,
}
use new_explorer_aios.Bits.Word.{word_mod, complement}
use new_explorer_aios.Bits.Split.{xor-zero, xor-full}
use new_explorer_aios.Types.{
  Bitmap, ffs_word, ffz, next_bit, find_next_bit, find_next_zero_bit, first_bit_loop,
  find_first_bit, first_zero_bit_loop, find_first_zero_bit, first_rounds,
}
use new_explorer_aios.Types.Digits.{no_digit, some_digit}
use new_explorer_aios.Types.Bitmaps.{
  IsNext, min_of-IsNext, IsNext-after, IsNext-end, inverted, next_bit-IsNext,
}

-- The bitmap of the digits that are 0.
abbrev pub zeros : Bitmap → Bitmap
zeros addr q = complement (addr q)

module _ (addr : Bitmap) (words : (q : ℕ) → addr q < word_mod) where
  pub find_next_bit-IsNext :
      (size start : ℕ)
      → size ≤ word_mod - 64
      → start ≤ size
      → IsNext addr start size (find_next_bit addr size start)
  unfolding find_next_bit
  find_next_bit-IsNext size start fits within =
      let same : inverted addr 0 ≡ addr = fun_ext λ q. xor-zero (addr q) in
      subst (λ (v : Bitmap). IsNext v start size (next_bit addr size start 0)) same
        (next_bit-IsNext addr 0 (λ q. rw (xor-zero (addr q)) (words q)) size start fits within)

  pub find_next_zero_bit-IsNext :
      (size start : ℕ)
      → size ≤ word_mod - 64
      → start ≤ size
      → IsNext (zeros addr) start size (find_next_zero_bit addr size start)
  unfolding find_next_zero_bit
  find_next_zero_bit-IsNext size start fits within =
      let same : inverted addr (complement 0) ≡ zeros addr =
        fun_ext λ q. xor-full 64 (addr q) (words q) in
      subst (λ (v : Bitmap). IsNext v start size (next_bit addr size start (complement 0))) same
        (next_bit-IsNext addr (complement 0)
          (λ q. rw (xor-full 64 (addr q) (words q)) (omega arith)) size start fits within)

  first_bit_loop_end :
      (rounds size q : ℕ)
      → q * 64 < word_mod
      → size ≤ q * 64
      → first_bit_loop rounds addr size q ≡ size
  unfolding first_bit_loop
  first_bit_loop_end zero size q fits h = refl
  first_bit_loop_end (suc rounds) size q fits h =
      let here : q * 64 % word_mod ≡ q * 64 = omega arith in
      let last : ltb (q * 64) size ≡ false = ground arith in rw (here, last) refl

  whole_word : (q : ℕ) → addr q / 2 ^ 0 * 2 ^ 0 ≡ addr q
  whole_word q = omega arith

  first_bit_loop-IsNext :
      (size rounds q : ℕ)
      → q * 64 ≤ size
      → size < (q + rounds) * 64
      → size ≤ word_mod - 64
      → IsNext addr (q * 64 + 0) size (first_bit_loop rounds addr size q)
  unfolding first_bit_loop
  first_bit_loop-IsNext size zero q within enough fits = absurd (omega arith)
  first_bit_loop-IsNext size (suc rounds) q within enough fits =
      let here : q * 64 % word_mod ≡ q * 64 = omega arith in
      elim (Bool-cases (ltb (q * 64) size)) [
        | inr last ↦
            rw (here, last)
              (record {
                above = omega arith;
                within = omega arith;
                hit = λ h. absurd (omega arith);
                skipped = λ i low high. absurd (ground arith);
              })
        | inl more ↦
            let below : q * 64 + 0 < size = ground arith in
            elim (Bool-cases (addr q == 0)) [
              | inr some_left ↦
                  let some_digits : addr q / 2 ^ 0 * 2 ^ 0 ≢ 0 =
                    λ z. ground (arith, whole_word q) in
                  let first = rw (whole_word q) at (some_digit (addr q) 0 (words q) some_digits) in
                  let place_word : (q * 64 + ffs_word (addr q)) % word_mod
                      ≡ q * 64 + ffs_word (addr q) =
                    omega (arith, first.below) in
                  rw (here, more, some_left, place_word)
                    (min_of-IsNext addr q 0 (ffs_word (addr q)) size below first)
              | inl none_left ↦
                  let empty = no_digit (addr q) 0 (ground (arith, whole_word q)) in
                  let step : (q + 1) % word_mod ≡ q + 1 = omega arith in
                  rw (here, more, none_left, step)
                    (elim (Bool-cases (leb size (q * 64 + 64))) [
                      | inl last ↦
                          rw (first_bit_loop_end rounds size (q + 1) (omega arith) (ground arith))
                            (IsNext-end addr q 0 size below (ground arith) empty)
                      | inr further ↦
                          let beyond : q * 64 + 64 < size = ground arith in
                          let back : (q + 1) * 64 + 0 ≡ (q + 1) * 64 = omega arith in
                          IsNext-after addr q 0 size _ (omega arith) empty (
                            rw back at (
                              first_bit_loop-IsNext size rounds (q + 1) (omega arith) (omega arith)
                                fits))
                    ])
            ]
      ]

  pub find_first_bit-IsNext :
      (size : ℕ) → size ≤ word_mod - 64 → IsNext addr 0 size (find_first_bit addr size)
  unfolding find_first_bit
  find_first_bit-IsNext size fits =
      let word_size : leb size (word_mod - 64) ≡ true = ground arith in
      rw word_size (first_bit_loop-IsNext size (size / 64 + 1) 0 (omega arith) (omega arith) fits)

  -- The search for a 0 is that for a 1 among the digits turned.
  zero_loop-bit_loop :
      (rounds size q : ℕ)
      → first_zero_bit_loop rounds addr size q ≡ first_bit_loop rounds (zeros addr) size q
  unfolding first_zero_bit_loop first_bit_loop ffz
  zero_loop-bit_loop zero size q = refl
  zero_loop-bit_loop (suc rounds) size q =
      let full : (addr q == complement 0) ≡ (complement (addr q) == 0) = ground (arith, words q) in
      rw (full, zero_loop-bit_loop rounds size ((q + 1) % word_mod)) refl

module _ (addr : Bitmap) (words : (q : ℕ) → addr q < word_mod) where
  pub find_first_zero_bit-IsNext :
      (size : ℕ) → size ≤ word_mod - 64 → IsNext (zeros addr) 0 size (find_first_zero_bit addr size)
  unfolding find_first_zero_bit
  find_first_zero_bit-IsNext size fits =
      rw (zero_loop-bit_loop addr words (first_rounds size) size 0)
        (unfold find_first_bit in find_first_bit-IsNext (zeros addr) (λ q. omega arith) size fits)
