-- ===== src/Heap/Blocks.antt =====
-- What `heap_alloc` hands out of an item that has blocks left.
use native.Mathlib.Nat.{pow-le-pow_right, div-lt_iff_lt-mul, mul-add-div, div-eq_of_lt}
use native.Mathlib.Decide.{dec_lt}
use new_explorer_aios.Prelude.{
  ℕ, ◌+◌, ◌-◌, ◌*◌, ◌/◌, ◌%◌, ◌^◌, ◌≤◌, ◌<◌, ◌≡◌, ◌∙◌, ap, arith, bit_or, one-le-pow,
}
use new_explorer_aios.Bits.Word.{word_mod, complement, ◌<<<◌, shl_lem}
use new_explorer_aios.Bits.Field.{pow-add, cut, or_field, mod-pow-lt}
use new_explorer_aios.Types.{set_bit, find_first_zero_bit}
use new_explorer_aios.Types.Bitmaps.{IsNext, digit_of}
use new_explorer_aios.Types.Search.{zeros, find_first_zero_bit-IsNext}
use new_explorer_aios.Struct.Item.{ItemStruct}
use new_explorer_aios.Heap.{slice_bits}

pub one_shifted : (b : ℕ) → b < 64 → 1 <<< b ≡ 1 * 2 ^ b
one_shifted b small =
    shl_lem 1 b
      (omega (arith, pow-le-pow_right {n = 2} (omega arith) {i = b} {j = 63} (omega arith)))

-- A digit that is 0 becomes 1.
or_digit : (w b : ℕ) → b < 64 → w / 2 ^ b % 2 ≡ 0 → bit_or w (1 <<< b) ≡ w + 2 ^ b
or_digit w b small clear =
    let high : w / 2 ^ b ≡ w / 2 ^ b / 2 * 2 ^ 1 = omega arith in
    let parts : w ≡ w / 2 ^ b / 2 * 2 ^ 1 * 2 ^ b + w % 2 ^ b =
      cut w b ∙ ap (λ (h : ℕ). h * 2 ^ b + w % 2 ^ b) high in
    let joined = or_field b 1 (w / 2 ^ b / 2) (w % 2 ^ b) 1 (mod-pow-lt w b) (omega arith) in
    rw (one_shifted b small)
      (ap (λ (x : ℕ). bit_or x (1 * 2 ^ b)) parts ∙ joined ∙ omega (arith, parts))

-- A digit of the complement is the other one.
complement_parts :
    (h k u t l : ℕ) → h + k + 1 ≡ 2 * u → l < t → 2 * u * t - 1 - (h * t + l) ≡ k * t + (t - 1 - l)
complement_parts h k u t l sum small = rw (← sum) (omega arith)

complement_at :
    (w t u h l k : ℕ)
    → word_mod ≡ 2 * u * t
    → w ≡ h * t + l
    → h + k + 1 ≡ 2 * u
    → l < t
    → complement w / t % 2 ≡ 1 - h % 2
complement_at w t u h l k whole word sum small =
    let parts : complement w ≡ t * k + (t - 1 - l) =
      omega (arith, whole, word, complement_parts h k u t l sum small) in
    let some_t : 0 < t = omega arith in
    rw (parts, mul-add-div some_t k (t - 1 - l), div-eq_of_lt {n = t - 1 - l} {m = t} (omega arith))
      (omega arith)

complement_digit : (w b : ℕ) → b < 64 → w < word_mod → complement w / 2 ^ b % 2 ≡ 1 - w / 2 ^ b % 2
complement_digit w b small fits =
    let split : 63 ≡ 63 - b + b = omega arith in
    let half : 2 ^ 63 ≡ 2 ^ (63 - b) * 2 ^ b = ap (λ (n : ℕ). 2 ^ n) split ∙ pow-add (63 - b) b in
    let whole : word_mod ≡ 2 * 2 ^ (63 - b) * 2 ^ b = omega (arith, half) in
    let high : w / 2 ^ b < 2 * 2 ^ (63 - b) =
      (div-lt_iff_lt-mul (one-le-pow b 2 (omega arith))).1 (rw (← whole) fits) in
    complement_at w (2 ^ b) (2 ^ (63 - b)) (w / 2 ^ b) (w % 2 ^ b)
      (2 * 2 ^ (63 - b) - 1 - w / 2 ^ b) whole (cut w b) (omega (arith, high)) (mod-pow-lt w b)

module _ (item : ItemStruct) (size : ℕ) (word : item.slice_ref < word_mod) (few : size ≤ 64) where
  -- The block that is handed out.
  abbrev pub first_block : ℕ
  first_block = find_first_zero_bit (slice_bits item) size

  bits_words : (q : ℕ) → slice_bits item q < word_mod
  unfolding slice_bits
  bits_words q = ground (arith, word)

  first_block-IsNext : IsNext (zeros (slice_bits item)) 0 size first_block
  first_block-IsNext = find_first_zero_bit-IsNext (slice_bits item) bits_words size (omega arith)

  bits_digit :
      (i : ℕ) → i < 64 → digit_of (zeros (slice_bits item)) i ≡ 1 - item.slice_ref / 2 ^ i % 2
  unfolding slice_bits
  bits_digit i small =
      let first : i / 64 ≡ 0 = omega arith in
      let same : i % 64 ≡ i = omega arith in
      rw (first, same) (complement_digit item.slice_ref i small word)

  pub set_free :
      (n : ℕ)
      → n < 64
      → item.slice_ref / 2 ^ n % 2 ≡ 0
      → set_bit n (slice_bits item) 0 ≡ item.slice_ref + 2 ^ n
  unfolding set_bit slice_bits
  set_free n small clear =
      let first : n / 64 ≡ 0 = omega arith in
      let same : n % 64 ≡ n = omega arith in
      rw (first, same) (or_digit item.slice_ref n small clear)

  -- Where a block is free, the first free one is found: it is free, and the blocks before it are in use.
  pub first_block-free :
      (i : ℕ)
      → i < size
      → item.slice_ref / 2 ^ i % 2 ≡ 0
      → (first_block < size)
        × (item.slice_ref / 2 ^ first_block % 2 ≡ 0)
        × ((j : ℕ) → j < first_block → item.slice_ref / 2 ^ j % 2 ≡ 1)
        × (set_bit first_block (slice_bits item) 0 ≡ item.slice_ref + 2 ^ first_block)
  first_block-free i within free =
      let next = first_block-IsNext in
      let below : first_block < size = elim (dec_lt first_block size) [
        | yes h ↦ h
        | no h ↦ absurd (
            omega (
              arith,
              free,
              bits_digit i (omega arith),
              next.within,
              next.skipped i (omega arith) (omega (arith, next.within)),
            ))
      ] in
      let clear : item.slice_ref / 2 ^ first_block % 2 ≡ 0 =
        omega (arith, bits_digit first_block (omega arith), next.hit below) in
      (
        below,
        clear,
        (λ j before.
            omega (arith, bits_digit j (omega arith), next.skipped j (omega arith) before)),
        set_free first_block (omega arith) clear,
      )
