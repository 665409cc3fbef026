-- ===== src/Types/Scan.antt =====
-- The loops over the digits of a bitmap run through the places in order.
use new_explorer_aios.Prelude.{
  ℕ, zero, suc, ◌+◌, ◌-◌, ◌≤◌, ◌<◌, ◌≡◌, refl, ap, some, inl, inr, arith, Bool-cases, ◌==◌, ltb,
  if◌then◌else◌,
}
use new_explorer_aios.Bits.Word.{word_mod}
use new_explorer_aios.Types.{
  Bitmap, find_next_bit, find_next_zero_bit, find_first_bit, find_first_zero_bit,
}
use new_explorer_aios.Types.Bitmaps.{IsNext, digit_of}
use new_explorer_aios.Types.Search.{
  zeros, find_next_bit-IsNext, find_next_zero_bit-IsNext, find_first_bit-IsNext,
  find_first_zero_bit-IsNext,
}
use new_explorer_aios.Types.Each.{each_bit_loop, for_each_set_bit, for_each_clear_bit}

module _ {S : Type 0} (v : Bitmap) (body : ℕ → S → S) where
  -- The body at every place that holds a 1, of `count` places from a place on.
  abbrev pub scan : (count place : ℕ) → S → S
  scan zero place s = s
  scan (suc count) place s =
      scan count (place + 1) (if digit_of v place == 1 then body place s else s)

  scan-suc :
      (count place d : ℕ) (s : S)
      → digit_of v place ≡ d
      → scan (suc count) place s ≡ scan count (place + 1) (if d == 1 then body place s else s)
  scan-suc count place d s e =
      ap (λ (d : ℕ). scan count (place + 1) (if d == 1 then body place s else s)) e

  -- Places without a 1 make no difference.
  scan-skip :
      (gap count total place end : ℕ) (s : S)
      → total ≡ gap + count
      → end ≡ place + gap
      → ((i : ℕ) → place ≤ i → i < end → digit_of v i ≡ 0)
      → scan total place s ≡ scan count end s
  scan-skip zero count total place end s sum at empty =
      let same : total ≡ count = omega arith in
      let here : end ≡ place = omega arith in rw (same, here) refl
  scan-skip (suc gap) count total place end s sum at empty =
      let first : total ≡ suc (gap + count) = omega arith in
      let clear = scan-suc (gap + count) place 0 s (empty place (omega arith) (omega arith)) in
      rw (first, clear)
        (scan-skip gap count (gap + count) (place + 1) end s refl (omega arith)
          (λ i low high. empty i (omega arith) high))

module _ {S : Type 0} (v addr : Bitmap) (body : ℕ → S → S) (next : Bitmap → ℕ → ℕ → ℕ) (size : ℕ)
    (finds : (start : ℕ) → start ≤ size → IsNext v start size (next addr size start)) where
  -- From the next place on.
  scan-IsNext :
      (start r : ℕ) (s : S)
      → IsNext v start size r
      → scan v body (size - start) start s ≡ scan v body (size - r) r s
  scan-IsNext start r s at =
      scan-skip v body (r - start) (size - r) (size - start) start r s
        (omega (arith, at.above, at.within)) (omega (arith, at.above)) at.skipped

  pub each_bit_loop-scan :
      (fuel start r : ℕ) (s : S)
      → IsNext v start size r
      → size < r + fuel
      → each_bit_loop (λ _. addr) body next fuel size r s
        ≡ some (scan v body (size - start) start s)
  unfolding each_bit_loop
  each_bit_loop-scan zero start r s at enough = absurd (omega (arith, at.within))
  each_bit_loop-scan (suc fuel) start r s at enough = elim (Bool-cases (ltb r size)) [
    | inr last ↦
        let none_left : size - r ≡ 0 = ground arith in
        rw (last, scan-IsNext start r s at, none_left) refl
    | inl more ↦
        let below : r < size = ground arith in
        let one_more : size - r ≡ suc (size - (r + 1)) = omega arith in
        let further = finds (r + 1) (omega arith) in
        rw
          (
            more,
            scan-IsNext start r s at,
            one_more,
            scan-suc v body (size - (r + 1)) r 1 s (at.hit below),
          )
          (each_bit_loop-scan fuel (r + 1) (next addr size (r + 1)) (body r s) further
            (omega (arith, further.above)))
  ]

module _ {S : Type 0} (addr : Bitmap) (body : ℕ → S → S) (size : ℕ)
    (words : (q : ℕ) → addr q < word_mod) (fits : size ≤ word_mod - 64) where
  -- With fuel beyond the size, for a bitmap that the body leaves alone, `for_each_set_bit` runs the body
  -- at every place below the size that holds a 1, once and in order, and `for_each_clear_bit` at every
  -- place that holds a 0. The bitmap has words, and the size is at most 2^64 - 64: beyond it the searches
  -- wrap to the start.
  pub for_each_set_bit-scan :
      (fuel : ℕ) (s : S)
      → size < fuel
      → (for_each_set_bit (λ _. addr) body fuel size s ≡ some (scan addr body size 0 s))
        × (for_each_clear_bit (λ _. addr) body fuel size s ≡ some (scan (zeros addr) body size 0 s))
  unfolding for_each_set_bit for_each_clear_bit
  for_each_set_bit-scan fuel s enough =
      let whole : size - 0 ≡ size = omega arith in
      let ones =
        each_bit_loop-scan {S = S} addr addr body find_next_bit size
          (λ start within. find_next_bit-IsNext addr words size start fits within) fuel 0
          (find_first_bit addr size) s (find_first_bit-IsNext addr words size fits) (omega arith) in
      let clear =
        each_bit_loop-scan {S = S} (zeros addr) addr body find_next_zero_bit size
          (λ start within. find_next_zero_bit-IsNext addr words size start fits within) fuel 0
          (find_first_zero_bit addr size) s (find_first_zero_bit-IsNext addr words size fits)
          (omega arith) in
      (rw whole at ones, rw whole at clear)
