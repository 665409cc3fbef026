-- ===== src/Locate/Sparse.antt =====
-- Where sparse items stand, source/tensor_ops.h: tables of items in a tree, in which the first of an
-- item's words `next` and `prev` leads to the table below it and the second to the item above.
use new_explorer_aios.Prelude.{
  ℕ, zero, suc, ◌+◌, ◌-◌, ◌*◌, ◌%◌, Option, none, some, bit_and, bit_or, ◌==◌, if◌then◌else◌,
}
use new_explorer_aios.Bits.Word.{word_mod, ◌<<<◌, ◌>>>◌, sub64}
use new_explorer_aios.Macros.{bit}
use new_explorer_aios.Struct.Sizes
use new_explorer_aios.Struct.Item.{ItemStruct, item_bytes}
use new_explorer_aios.Flags.{get_item_node, get_item_section}
use new_explorer_aios.Convert.{range_to_idx, idx_to_range}
use new_explorer_aios.Links.Memory.{Ptr, null}
use new_explorer_aios.Locate.{
  Arrays, elements_from, item_to_range_transform, range_base_transform, range_transform_base,
}

-- `item_to_rel_idx_sparse`, for an item below another one.
unfoldable pub item_to_rel_idx_sparse : (Ptr → ItemStruct) → Ptr → ℕ
unfolding elements_from
item_to_rel_idx_sparse items item =
    elements_from item_bytes item (items (items item).word1_1).word1_0

-- The loop of `item_to_idx_sparse`, up to the item without one above it; `none` without fuel. The
-- root is that of the process in the dimension of the item.
unfoldable pub idx_sparse_loop :
    ℕ → (Ptr → ItemStruct) → (root item : Ptr) → (block_shift idx : ℕ) → Option ℕ
unfolding item_to_rel_idx_sparse elements_from
idx_sparse_loop zero items root item block_shift idx = none
idx_sparse_loop (suc fuel) items root item block_shift idx =
    let rest =
      idx_sparse_loop fuel items root (items item).word1_1
        (block_shift + (Sizes.max_item_range + 1))
        (bit_or idx (item_to_rel_idx_sparse items item <<< block_shift)) in
    if (items item).word1_1 == null
    then some (bit_or idx (elements_from item_bytes root item <<< block_shift))
    else rest

unfoldable pub item_to_idx_sparse : ℕ → (Ptr → ItemStruct) → (root item : Ptr) → Option ℕ
unfolding idx_sparse_loop
item_to_idx_sparse fuel items root item =
    idx_sparse_loop fuel items root item
      (Sizes.function_item_lvl Sizes.group_range_num_shift (get_item_section (items item))) 0

unfoldable pub item_to_range_sparse : ℕ → (Ptr → ItemStruct) → (root item : Ptr) → Option ℕ
unfolding item_to_idx_sparse
item_to_range_sparse fuel items root item = elim (item_to_idx_sparse fuel items root item) [
  | none ↦ none
  | some idx ↦ some (idx_to_range idx)
]

unfoldable pub item_to_range_transform_sparse :
    ℕ → (Ptr → ItemStruct) → (root item : Ptr) → Option Ptr
unfolding item_to_range_sparse range_base_transform
item_to_range_transform_sparse fuel items root item =
    if item == null then some null else elim (item_to_range_sparse fuel items root item) [
      | none ↦ none
      | some range_base ↦ some (range_base_transform range_base)
    ]

-- The loop of `idx_to_rel_idx_sparse` over `rounds` levels from `level`, down to `endlvl`: the index in
-- the last table and the item; `none` for ERR_FAULT. The addresses of the items go through
-- `item_to_range_transform`.
unfoldable pub rel_idx_sparse_loop :
    ℕ
    → Arrays
    → (Ptr → ItemStruct)
    → (temp : Ptr) → (idx idx_index level endlvl : ℕ) → Option (ℕ × Ptr)
unfolding bit
rel_idx_sparse_loop zero arrays items temp idx idx_index level endlvl = some (idx_index, temp)
rel_idx_sparse_loop (suc rounds) arrays items temp idx idx_index level endlvl =
    let block_shift = Sizes.function_item_lvl Sizes.group_range_num_shift level in
    let index = idx >>> block_shift in
    let left = bit_and idx (sub64 (bit block_shift) 1) in
    let temp_root = item_to_range_transform arrays items temp in
    let item = (temp_root + item_bytes * index) % word_mod in
    let rest =
      rel_idx_sparse_loop rounds arrays items (items item).word1_0 left index (level + 1) endlvl in
    if temp_root == null
    then none
    else if endlvl == level
    then some (index, item)
    else if (items item).word1_0 == null
    then none
    else rest

-- `idx_to_rel_idx_sparse`: the index, the item and its node.
unfoldable pub idx_to_rel_idx_sparse :
    Arrays → (Ptr → ItemStruct) → (root : Ptr) → (idx endlvl : ℕ) → Option (ℕ × Ptr × ℕ)
unfolding rel_idx_sparse_loop
idx_to_rel_idx_sparse arrays items root idx endlvl =
    elim (rel_idx_sparse_loop Sizes.max_group_lvls arrays items root idx 0 0 endlvl) [
      | none ↦ none
      | some place ↦ some (place.0, place.1, get_item_node (items place.1))
    ]

-- `idx_to_item_sparse`. Where the search fails the source returns a pointer that nothing was stored
-- in, which is `unset`.
unfoldable pub idx_to_item_sparse : Ptr → Arrays → (Ptr → ItemStruct) → (root : Ptr) → ℕ → Ptr
unfolding idx_to_rel_idx_sparse
idx_to_item_sparse unset arrays items root idx =
    elim (idx_to_rel_idx_sparse arrays items root idx (Sizes.max_group_lvls - 1)) [
      | none ↦ unset
      | some place ↦ place.1
    ]

unfoldable pub range_to_item_sparse : Ptr → Arrays → (Ptr → ItemStruct) → (root : Ptr) → ℕ → Ptr
unfolding idx_to_item_sparse
range_to_item_sparse unset arrays items root range_base =
    idx_to_item_sparse unset arrays items root (range_to_idx range_base)

unfoldable pub range_transform_to_item_sparse :
    Ptr → Arrays → (Ptr → ItemStruct) → (root range_transform : Ptr) → Ptr
unfolding range_to_item_sparse range_transform_base
range_transform_to_item_sparse unset arrays items root range_transform =
    range_to_item_sparse unset arrays items root (range_transform_base range_transform)

-- `idx_to_vnode`: the number of the virtual node, `none` for NULL.
unfoldable pub idx_to_vnode : Arrays → (Ptr → ItemStruct) → (root : Ptr) → ℕ → Option ℕ
unfolding idx_to_rel_idx_sparse
idx_to_vnode arrays items root idx =
    elim (idx_to_rel_idx_sparse arrays items root idx (Sizes.max_group_lvls - 1)) [
      | none ↦ none
      | some place ↦ some place.2
    ]
