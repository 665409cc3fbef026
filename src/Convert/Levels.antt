-- ===== src/Convert/Levels.antt =====
-- Levels: which of the four groups a number of items or an index belongs to.
use new_explorer_aios.Prelude.{
  ℕ, ◌*◌, ◌/◌, ◌%◌, ◌^◌, ◌<◌, ◌≡◌, arith, Bool, none, some, leb, if◌then◌else◌,
}
use new_explorer_aios.Bits.Word.{word_mod}
use new_explorer_aios.Bits.Field.{and_mask}
use new_explorer_aios.Bits.High.{and_high}
use new_explorer_aios.Macros.{bit}
use new_explorer_aios.Convert.{idx_to_lvl, nitems_to_lvl}

-- `idx_to_lvl` is the first level whose part of the index is not 0, and 4 for the index 0.
pub idx_to_lvl_lem :
    (idx : ℕ)
    → idx_to_lvl idx ≡ (
        if leb (2 ^ 27) idx
        then 0
        else if leb (2 ^ 18) idx
        then 1
        else if leb (2 ^ 9) idx
        then 2
        else if leb 1 idx
        then 3
        else 4)
unfolding idx_to_lvl bit
idx_to_lvl_lem idx =
    rw (and_mask 27 idx, and_mask 18 (idx % 2 ^ 27), and_mask 9 (idx % 2 ^ 27 % 2 ^ 18))
      (ground arith)

-- `nitems_to_lvl` is the first level with a whole block among the items, or -1 below 2^9 items.
-- Asked to align, it rounds the items down to whole blocks of that level.
nitems_to_lvl_lem :
    (n : ℕ) (align : Bool)
    → n < word_mod
    → nitems_to_lvl n align ≡ (
        if leb (2 ^ 27) n
        then (some 0, if align then n / 2 ^ 27 * 2 ^ 27 else n)
        else if leb (2 ^ 18) n
        then (some 1, if align then n / 2 ^ 18 * 2 ^ 18 else n)
        else if leb (2 ^ 9) n
        then (some 2, if align then n / 2 ^ 9 * 2 ^ 9 else n)
        else (none, n))
unfolding nitems_to_lvl bit
nitems_to_lvl_lem n align h = ground (
  arith,
  and_high 37 27 (omega arith) n h,
  and_high 46 18 (omega arith) n h,
  and_high 55 9 (omega arith) n h,
)
