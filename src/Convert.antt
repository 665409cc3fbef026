-- ===== src/Convert.antt =====
-- The conversions of source/tensor_ops.h between sizes, numbers of items, orders, levels and
-- ranges.
pub mod Ranges
pub mod Orders
pub mod Levels
pub mod Buddy
pub mod Combine
use new_explorer_aios.Prelude.{
  ℕ, zero, suc, ◌+◌, ◌-◌, ◌*◌, ◌^◌, bit_and, bit_xor, Bool, true, false, not, ◌&&◌, Option, none,
  some, ltb, leb, ◌==◌, if◌then◌else◌,
}
use new_explorer_aios.Bits.Word.{◌<<<◌, ◌>>>◌, complement, add64, sub64}
use new_explorer_aios.Macros.{bit, cb}
use new_explorer_aios.Types.{fls}
use new_explorer_aios.Struct.Sizes.{
  group_lvl_num, max_group_lvls, group_order_num_shift, fixed_item_size_shift, node_lvl_num,
  function_item_lvl,
}
use new_explorer_aios.Struct.Item.{ItemStruct}
use new_explorer_aios.Struct.Node.{GroupAttr}
use new_explorer_aios.Flags.{item_is_present, get_item_order}

-- `range_to_idx` and `idx_to_range`.
unfoldable pub range_to_idx : ℕ → ℕ
range_to_idx range_base = range_base >>> group_order_num_shift

unfoldable pub idx_to_range : ℕ → ℕ
idx_to_range idx = idx <<< group_order_num_shift

-- The loop of `idx_to_lvl` from level `lvl`.
unfoldable pub idx_to_lvl_loop : ℕ → ℕ → ℕ → ℕ
unfolding bit
idx_to_lvl_loop zero lvl idx = lvl
idx_to_lvl_loop (suc rounds) lvl idx =
    let block_shift = function_item_lvl group_order_num_shift lvl in
    let rest = idx_to_lvl_loop rounds (lvl + 1) (bit_and idx (bit block_shift - 1)) in
    if idx >>> block_shift == 0 then rest else lvl

unfoldable pub idx_to_lvl : ℕ → ℕ
unfolding idx_to_lvl_loop
idx_to_lvl idx = idx_to_lvl_loop group_lvl_num 0 idx

-- The loop of `nitems_to_lvl`: the level, `none` for -1, and what is left in `*nitems`.
unfoldable pub nitems_to_lvl_loop : ℕ → ℕ → ℕ → Bool → Option ℕ × ℕ
unfolding bit
nitems_to_lvl_loop zero level nitems align = (none, nitems)
nitems_to_lvl_loop (suc rounds) level nitems align =
    let block_shift = function_item_lvl group_order_num_shift level in
    let rest = nitems_to_lvl_loop rounds (level + 1) nitems align in
    if nitems >>> block_shift == 0
    then rest
    else (some level, if align then bit_and nitems (complement (bit block_shift - 1)) else nitems)

unfoldable pub nitems_to_lvl : ℕ → Bool → Option ℕ × ℕ
unfolding nitems_to_lvl_loop
nitems_to_lvl nitems align = nitems_to_lvl_loop max_group_lvls 0 nitems align

-- `idx_to_rel_idx` from node `i` of the dimension on: the relative index and the node.
unfoldable pub rel_idx_loop : ℕ → (ℕ → GroupAttr) → ℕ → ℕ → Option (ℕ × ℕ)
unfolding range_to_idx
rel_idx_loop zero attr idx i = none
rel_idx_loop (suc rounds) attr idx i =
    let rest = rel_idx_loop rounds attr idx (i + 1) in
    let first = range_to_idx (attr i).offset in
    if leb first idx && ltb idx (range_to_idx (add64 (attr i).offset (attr i).size))
    then some (idx - first, i)
    else rest

unfoldable pub idx_to_rel_idx : (ℕ → GroupAttr) → ℕ → ℕ → Option (ℕ × ℕ)
unfolding rel_idx_loop
idx_to_rel_idx attr idx dim = rel_idx_loop node_lvl_num attr idx (dim * node_lvl_num)

-- `item_to_order`: the order, and what is left in `*nr_items`.
unfoldable pub item_to_order : (ℕ → ℕ) → ℕ → ℕ × ℕ
item_to_order clzl nitems =
    if nitems == 0
    then (0, nitems)
    else let max_order = fls clzl nitems in
      let order = max_order - 1 in
      if max_order == 64
      then (order, 0)
      else if ltb (bit order) nitems
      then (max_order, 0)
      else (order, 0)

-- `item_to_orders`: the order of the highest block, and the items that are left.
unfoldable pub item_to_orders : (ℕ → ℕ) → ℕ → ℕ × ℕ
item_to_orders clzl nr_items =
    let x = fls clzl nr_items in if x == 0 then (0, nr_items) else (x - 1, cb nr_items (x - 1))

unfoldable pub size_to_order : (ℕ → ℕ) → ℕ → ℕ
size_to_order clzl size = fls clzl (sub64 size 1 >>> fixed_item_size_shift)

unfoldable pub size_to_item : ℕ → ℕ
size_to_item size =
    let x = size >>> fixed_item_size_shift in
    let y = size <<< (64 - fixed_item_size_shift) in if y == 0 then x else x + 1

-- `next_buddy_idx` and `item_is_buddy`.
unfoldable pub next_buddy_idx : ℕ → ℕ → ℕ
next_buddy_idx item_idx order = bit_xor item_idx (bit order)

unfoldable pub item_is_buddy : ItemStruct → ℕ → Bool
item_is_buddy buddy order = not (item_is_present buddy) && (order == get_item_order buddy)
