-- ===== src/Types.antt =====
-- The word and bitmap helpers of include/types.h, with BITS_PER_LONG 64. A bitmap is the memory
-- behind `addr`, a word at each index.
pub mod Ffs
pub mod Fls
pub mod Clz
pub mod CountZeros
pub mod Each
pub mod Digits
pub mod Bitmaps
pub mod Search
pub mod Scan
pub mod Example
use new_explorer_aios.Prelude.{
  ℕ, zero, suc, ◌+◌, ◌-◌, ◌*◌, ◌/◌, ◌%◌, ◌^◌, bit_and, bit_or, bit_xor, Bool, not, ◌||◌, ltb, leb,
  ◌==◌, if◌then◌else◌,
}
use new_explorer_aios.Bits.Word.{word_mod, ◌<<<◌, ◌>>>◌, complement}

abbrev pub bits_per_long : ℕ
bits_per_long = 64

-- One test of `__ffs`: where the low `k` digits are 0 they are shifted out.
unfoldable pub drop_low : ℕ → ℕ × ℕ → ℕ × ℕ
drop_low k (num, word) =
    if bit_and word (2 ^ k - 1) == 0 then (num + k, word >>> k) else (num, word)

-- `__ffs`.
unfoldable pub ffs_word : ℕ → ℕ
unfolding drop_low
ffs_word word =
    let (num, w) = drop_low 2 (drop_low 4 (drop_low 8 (drop_low 16 (drop_low 32 (0, word))))) in
    if bit_and w 1 == 0 then num + 1 else num

-- One test of `__fls`: where the high `k` digits are 0 the word is shifted up.
unfoldable pub raise_high : ℕ → ℕ × ℕ → ℕ × ℕ
raise_high k (num, word) =
    if bit_and word (complement 0 <<< (bits_per_long - k)) == 0
    then (num - k, word <<< k)
    else (num, word)

-- `__fls`.
unfoldable pub fls_word : ℕ → ℕ
unfolding raise_high
fls_word word =
    let (num, w) =
      raise_high 2
        (raise_high 4 (raise_high 8 (raise_high 16 (raise_high 32 (bits_per_long - 1, word))))) in
    if bit_and w (complement 0 <<< (bits_per_long - 1)) == 0 then num - 1 else num

-- `fls`, which calls the compiler's `__builtin_clzl`.
unfoldable pub fls : (ℕ → ℕ) → ℕ → ℕ
fls clzl x = if x == 0 then 0 else bits_per_long - clzl x

unfoldable pub fls64 : ℕ → ℕ
fls64 x = if x == 0 then 0 else fls_word x + 1

unfoldable pub ffz : ℕ → ℕ
ffz x = ffs_word (complement x)

abbrev pub Bitmap : Type 0
Bitmap = ℕ → ℕ

-- `BITMAP_FIRST_WORD_MASK`, `ROUND_UP`, `ROUND_DOWN` and `MIN`.
unfoldable pub bitmap_first_word_mask : ℕ → ℕ
bitmap_first_word_mask start = complement 0 <<< bit_and start (bits_per_long - 1)

unfoldable pub round_up : ℕ → ℕ → ℕ
round_up x n = bit_and ((x + n - 1) % word_mod) (complement (n - 1))

unfoldable pub round_down : ℕ → ℕ → ℕ
round_down x n = bit_and x (complement (n - 1))

unfoldable pub min_of : ℕ → ℕ → ℕ
min_of a b = if ltb a b then a else b

-- `addr[i] = w`.
unfoldable pub store : Bitmap → ℕ → ℕ → Bitmap
store addr i w j = if j == i then w else addr j

unfoldable pub set_bit : ℕ → Bitmap → Bitmap
unfolding store
set_bit nr addr =
    store addr (nr / bits_per_long)
      (bit_or (addr (nr / bits_per_long)) (1 <<< (nr % bits_per_long)))

unfoldable pub clear_bit : ℕ → Bitmap → Bitmap
unfolding store
clear_bit nr addr =
    store addr (nr / bits_per_long)
      (bit_and (addr (nr / bits_per_long)) (complement (1 <<< (nr % bits_per_long))))

unfoldable pub is_set_bit : ℕ → Bitmap → Bool
is_set_bit nr addr = not (bit_and (addr (nr / bits_per_long)) (1 <<< (nr % bits_per_long)) == 0)

-- The rounds of the searches from the start of a bitmap. Up to a size of 2^64 - 64 they visit each
-- word. Beyond it the places wrap below the size, so that only a word that is hit ends the loop:
-- the rounds visit every index of an `unsigned long`, and a loop that they do not finish goes on
-- for ever.
abbrev pub first_rounds : ℕ → ℕ
first_rounds size =
    if leb size (word_mod - bits_per_long) then size / bits_per_long + 1 else word_mod

-- The loop of `find_first_bit` from word `idx`, which wraps as an `unsigned long` does, as do the
-- places.
unfoldable pub first_bit_loop : ℕ → Bitmap → ℕ → ℕ → ℕ
first_bit_loop zero addr size idx = size
first_bit_loop (suc rounds) addr size idx =
    let rest = first_bit_loop rounds addr size ((idx + 1) % word_mod) in
    let first = idx * bits_per_long % word_mod in
    if not (ltb first size)
    then size
    else if addr idx == 0
    then rest
    else min_of ((first + ffs_word (addr idx)) % word_mod) size

unfoldable pub find_first_bit : Bitmap → ℕ → ℕ
find_first_bit addr size = first_bit_loop (first_rounds size) addr size 0

unfoldable pub first_zero_bit_loop : ℕ → Bitmap → ℕ → ℕ → ℕ
first_zero_bit_loop zero addr size idx = size
first_zero_bit_loop (suc rounds) addr size idx =
    let rest = first_zero_bit_loop rounds addr size ((idx + 1) % word_mod) in
    let first = idx * bits_per_long % word_mod in
    if not (ltb first size)
    then size
    else if addr idx == complement 0
    then rest
    else min_of ((first + ffz (addr idx)) % word_mod) size

unfoldable pub find_first_zero_bit : Bitmap → ℕ → ℕ
find_first_zero_bit addr size = first_zero_bit_loop (first_rounds size) addr size 0

-- The `while` loop of `_find_next_bit`, with `start` an `unsigned long` that wraps. The rounds are
-- enough to visit every word below the size, and the first one again where `start` wraps to 0: a
-- loop that they do not finish goes on for ever.
unfoldable pub next_bit_loop : ℕ → Bitmap → ℕ → ℕ → ℕ → ℕ → ℕ
next_bit_loop zero addr nbits invert start tmp = nbits
next_bit_loop (suc rounds) addr nbits invert start tmp =
    let next = (start + bits_per_long) % word_mod in
    let rest =
      next_bit_loop rounds addr nbits invert next (bit_xor (addr (next / bits_per_long)) invert) in
    if not (tmp == 0)
    then min_of ((start + ffs_word tmp) % word_mod) nbits
    else if leb nbits next
    then nbits
    else rest

-- `_find_next_bit`.
unfoldable pub next_bit : Bitmap → ℕ → ℕ → ℕ → ℕ
next_bit addr nbits start invert =
    if nbits == 0 || leb nbits start
    then nbits
    else next_bit_loop (nbits / bits_per_long + 2) addr nbits invert
        (round_down start bits_per_long)
        (bit_and (bit_xor (addr (start / bits_per_long)) invert) (bitmap_first_word_mask start))

unfoldable pub find_next_bit : Bitmap → ℕ → ℕ → ℕ
find_next_bit addr size offset = next_bit addr size offset 0

unfoldable pub find_next_zero_bit : Bitmap → ℕ → ℕ → ℕ
find_next_zero_bit addr size offset = next_bit addr size offset (complement 0)
