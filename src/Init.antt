-- ===== src/Init.antt =====
-- The set-up of nodes, groups and items in source/tensor_init.c.
pub mod Space
pub mod Numbers
pub mod Blocks
pub mod Entity
pub mod Nodes
mod Example
use new_explorer_aios.Prelude.{
  ℕ, zero, suc, ◌+◌, ◌/◌, ◌^◌, bit_or, Option, none, some, leb, ◌==◌, if◌then◌else◌,
}
use new_explorer_aios.Bits.Word.{◌<<<◌, add64}
use new_explorer_aios.Types.{store, round_up}
use new_explorer_aios.Struct.Sizes
use new_explorer_aios.Struct.Enums
use new_explorer_aios.Struct.Item.{ItemStruct}
use new_explorer_aios.Struct.Node.{GroupAttr, SliceStruct}
use new_explorer_aios.Links.Memory.{Ptr, null, Cmd, pure, ◌>>=◌, ◌>>◌}
use new_explorer_aios.Links.{init_list_node}

-- `__init_linear_space`: the address, NULL where the space has run out, and `phy_init_linear_ptr`.
unfoldable pub init_linear_space : ℕ → ℕ → (ℕ → ℕ) → Ptr × (ℕ → ℕ)
init_linear_space node_id len ptrs =
    let start = if ptrs node_id == 0 then Sizes.node_reserved_range_base else ptrs node_id in
    let ptr = round_up start 8 in
    let end = add64 ptr (round_up len 8) in
    (if leb Sizes.node_reserved_range_size end then null else ptr, store ptrs node_id end)

-- `__get_pnode_of` writes the range and the size of the two dimensions it knows.
unfoldable pub get_pnode_of : ℕ → ℕ × ℕ → ℕ × ℕ
get_pnode_of type before =
    if type == Enums.dim_memory
    then (Sizes.node_fixed_range_base, Sizes.node_fixed_range_size)
    else if type == Enums.dim_time
    then (Sizes.node_super_period_window_base, Sizes.node_super_period_window_size)
    else before

-- `__get_vnode_of`. Its size for memory is BIT(64), a shift that C leaves undefined: the value that
-- the compiler gives it is `bit_64`.
unfoldable pub get_vnode_of : ℕ → ℕ → ℕ × ℕ → ℕ × ℕ
get_vnode_of bit_64 type before =
    if type == Enums.dim_memory
    then (Sizes.vnode_fixed_range_base, bit_64)
    else if type == Enums.dim_time
    then (Sizes.vnode_super_period_window_base, Sizes.vnode_super_period_window_size)
    else before

-- `__init_slice`.
unfoldable pub init_slice : SliceStruct → ℕ → ℕ → Cmd SliceStruct
init_slice slice bsize th = do
  init_list_node slice.empty_list
  init_list_node slice.full_list
  init_list_node slice.free_list
  pure (record slice {
    empty_count = 0;
    full_count = 0;
    free_count = 0;
    bsize = bsize;
    threshold_freeitems = th;
  })

-- A loop over the cells of a row, from `order` on: the heads and the counts.
unfoldable pub init_cells : ℕ → (ℕ → Ptr) → ℕ → (ℕ → ℕ) → Cmd (ℕ → ℕ)
init_cells zero cell order counts = pure counts
init_cells (suc rounds) cell order counts = do
  init_list_node (cell order)
  init_cells rounds cell (order + 1) (store counts order 0)

-- The outer loop of `__init_free_group_list`, over the migration types.
unfoldable pub init_free_lists : ℕ → (ℕ → ℕ → Ptr) → ℕ → (ℕ → ℕ → ℕ) → Cmd (ℕ → ℕ → ℕ)
unfolding init_cells
init_free_lists zero cell index counts = pure counts
init_free_lists (suc rounds) cell index counts = do
  row ← init_cells Sizes.max_idx_num (cell index) 0 (counts index)
  init_free_lists rounds cell (index + 1) (λ i. if i == index then row else counts i)

-- `__init_free_group_list`, with `cell i o` the address of `free_group[i].free_cell[o]`.
unfoldable pub init_free_group_list : (ℕ → ℕ → Ptr) → (ℕ → ℕ → ℕ) → Cmd (ℕ → ℕ → ℕ)
unfolding init_free_lists
init_free_group_list cell counts = init_free_lists Enums.migration_types cell 0 counts

-- `__init_free_node_list`, with `cell o` the address of `lru_cache.free_cell[o]`.
unfoldable pub init_free_node_list : (ℕ → Ptr) → (ℕ → ℕ) → Cmd (ℕ → ℕ)
unfolding init_cells
init_free_node_list cell counts = init_cells Sizes.node_lvl_num cell 0 counts

-- `__init_group_attr`.
unfoldable pub init_group_attr : GroupAttr → ℕ → ℕ → ℕ → ℕ → GroupAttr
init_group_attr attr offset size nitems status = record attr {
  offset = offset;
  size = size;
  nr_freeitems = nitems;
  status = status;
}

-- `init_item`, which does not write `slice_ref`.
unfoldable pub init_item : ItemStruct → ItemStruct
init_item item = record item {
  node_prev = null;
  node_next = null;
  flags = 0;
  word1_0 = 0;
  word1_1 = 0;
  word2_0 = 0;
  word2_1 = 0;
  word2_2 = 0;
}

-- `update_vnode`, with the `group_id` of the group of each level.
unfoldable pub update_vnode : (ℕ → ℕ) → GroupAttr → ℕ → (ℕ → ℕ) × GroupAttr
update_vnode group_id attr size = (
  λ lvl. if leb Sizes.group_lvl_num lvl then group_id lvl else add64 (group_id lvl) 1,
  record attr {
    nr_freeitems = add64 attr.nr_freeitems (size / Sizes.fixed_item_size);
    status = 0;
    size = add64 attr.size size;
  },
)

-- The number that `init_node` gives to node `j` of dimension `i`.
unfoldable pub init_node_id : ℕ → ℕ → ℕ
init_node_id i j = bit_or j (i <<< Sizes.node_lvl_num)

-- `get_current_node_num` and `get_current_vnode_num`. The source returns no value for a dimension
-- other than these two.
unfoldable pub get_current_node_num : ℕ → Option ℕ
get_current_node_num dim_type =
    if dim_type == Enums.dim_time
    then some 0
    else if dim_type == Enums.dim_memory
    then some Sizes.node_lvl_num
    else none

unfoldable pub get_current_vnode_num : ℕ → Option ℕ
get_current_vnode_num dim_type =
    if dim_type == Enums.dim_time
    then some 0
    else if dim_type == Enums.dim_memory
    then some Sizes.node_lvl_num
    else none
