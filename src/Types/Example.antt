-- ===== src/Types/Example.antt =====
-- The loops and searches on a bitmap of 70 places with a 1 at the places 1, 3 and 66.
use new_explorer_aios.Prelude.{ℕ, zero, suc, ◌+◌, ◌<◌, ◌≡◌, some, arith}
use new_explorer_aios.Bits.Word.{word_mod}
use new_explorer_aios.Types.{Bitmap, find_next_bit}
use new_explorer_aios.Types.Bitmaps.{IsNext}
use new_explorer_aios.Types.Search.{find_next_bit-IsNext}
use new_explorer_aios.Types.Each.{for_each_set_bit, for_each_clear_bit}
use new_explorer_aios.Types.Scan.{for_each_set_bit-scan}

abbrev three_bits : Bitmap
three_bits zero = 10
three_bits (suc zero) = 4
three_bits (suc (suc q)) = 0

three_words : (q : ℕ) → three_bits q < word_mod
three_words zero = omega arith
three_words (suc zero) = omega arith
three_words (suc (suc q)) = omega arith

abbrev add_place : ℕ → ℕ → ℕ
add_place place sum = sum + place

find_next_bit-IsNext_example : IsNext three_bits 4 70 (find_next_bit three_bits 70 4)
find_next_bit-IsNext_example =
    find_next_bit-IsNext three_bits three_words 70 4 (omega arith) (omega arith)

for_each_set_bit-scan_example :
    (for_each_set_bit (λ _. three_bits) add_place 71 70 0 ≡ some 70)
    × (for_each_clear_bit (λ _. three_bits) add_place 71 70 0 ≡ some 2345)
for_each_set_bit-scan_example =
    for_each_set_bit-scan three_bits add_place 70 three_words (omega arith) 71 0 (omega arith)
