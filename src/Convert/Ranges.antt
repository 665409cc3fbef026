-- ===== src/Convert/Ranges.antt =====
-- Ranges and indices of items, and the number of items that a size needs.
use new_explorer_aios.Prelude.{ℕ, ◌+◌, ◌*◌, ◌%◌, ◌^◌, ◌≤◌, ◌<◌, ◌≡◌, arith}
use new_explorer_aios.Bits.Word.{word_mod}
use new_explorer_aios.Convert.{range_to_idx, idx_to_range, size_to_item}

-- An index that fits survives the way to a range and back, and the way from a range to an index
-- and back rounds the range down to a whole item.
idx_to_range-range_to_idx :
    (idx r : ℕ)
    → idx < 2 ^ 52
    → r < word_mod
    → (range_to_idx (idx_to_range idx) ≡ idx) × (idx_to_range (range_to_idx r) + r % 4096 ≡ r)
unfolding range_to_idx idx_to_range
idx_to_range-range_to_idx idx r h h' = (omega arith, omega arith)

-- `size_to_item` is the least number of items of 4096 that holds the size.
pub size_to_item_lem :
    (size : ℕ)
    → size < word_mod
    → (size ≤ 4096 * size_to_item size) × (4096 * size_to_item size < size + 4096)
unfolding size_to_item
size_to_item_lem size h = (ground arith, ground arith)
