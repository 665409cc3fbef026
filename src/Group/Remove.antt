-- ===== src/Group/Remove.antt =====
-- `remove_group_migration` of source/tensor.c. The source writes its search for an entry as a block
-- behind the expression `list_entry_list(temp, item, node)`, which C does not accept; its goto and
-- the two lines behind it are those of a loop over the entries, `list_for_each_entry_list`, and so
-- it is read here.
pub mod Cell
pub mod Lists
use new_explorer_aios.Prelude.{
  ℕ, zero, suc, ◌+◌, ◌-◌, Bool, not, ◌&&◌, ◌||◌, Option, none, some, bit_and, ◌==◌, if◌then◌else◌,
}
use new_explorer_aios.Macros.{mask}
use new_explorer_aios.Struct.Sizes
use new_explorer_aios.Struct.Enums
use new_explorer_aios.Struct.Item.{ItemStruct}
use new_explorer_aios.Init.{get_current_node_num}
use new_explorer_aios.Locate.{Arrays, get_pnode_num, item_to_idx}
use new_explorer_aios.Links.Memory.{Ptr, null}
use new_explorer_aios.Links.{list_peek_head, list_peek_next, list_del}
use new_explorer_aios.Group.World.{
  World, Layout, Command, give, exhausted, ◌>>=◌, ◌>>◌, on_links, decrement,
}
use new_explorer_aios.Group.{item_shift_of, split_group_migration}

-- The number that `get_current_node_num` returns.
unfoldable pub current_node : Layout → ℕ → ℕ
current_node layout dim = elim (get_current_node_num dim) [ some n ↦ n | none ↦ layout.no_node ]

-- The global arrays with the attributes that the nodes have now.
unfoldable pub live_arrays : Layout → World → Arrays
live_arrays layout w = record layout.arrays { attr = λ nu. w.attr (get_pnode_num layout.arrays nu) }

-- The order at which a search at a level ends.
unfoldable pub max_order_of : Layout → (group lvl migration_type : ℕ) → ℕ
unfolding item_shift_of current_node
max_order_of layout group lvl migration_type =
    if migration_type == Enums.migration_sparse_movable
    then Sizes.function_item (item_shift_of migration_type) - 1
    else if lvl == layout.phy_group_lvl (current_node layout (layout.dim group))
    then layout.phy_group_order (current_node layout (layout.dim group))
    else Sizes.function_item (item_shift_of migration_type) - 1

-- Whether an entry is taken: not a sparse table. The second word of its first union is `prev`.
unfoldable pub is_taken : (migration_type order_index : ℕ) → ItemStruct → Bool
is_taken migration_type order_index item =
    not (migration_type == Enums.migration_sparse_movable)
    || not (order_index == 0)
    || item.word1_1 == null

-- The loop over the entries of a free list from `item`.
unfoldable pub entry_loop : ℕ → (cell item : Ptr) → (migration_type order_index : ℕ) → Command Ptr
unfolding is_taken
entry_loop zero cell item migration_type order_index = λ w. exhausted
entry_loop (suc fuel) cell item migration_type order_index = λ w.
    let rest = (do
      next ← on_links (list_peek_next cell item)
      entry_loop fuel cell next migration_type order_index) in
    (if item == null
        then give null
        else if is_taken migration_type order_index (w.item item)
        then give item
        else rest)
      w

-- Whether the index of a block is not that of a whole block of its level.
unfoldable pub is_misaligned : Layout → (lvl migration_type : ℕ) → Ptr → World → Bool
unfolding mask item_shift_of live_arrays
is_misaligned layout lvl migration_type item w =
    not (migration_type == Enums.migration_sparse_movable)
    && not (
        bit_and (item_to_idx (live_arrays layout w) w.item item)
          (mask (Sizes.function_item_lvl (item_shift_of migration_type) lvl))
        == 0)

-- What is done with the entry that is taken.
unfoldable pub take_entry :
    Layout → ℕ → Ptr → (lvl order order_index migration_type : ℕ) → Command Ptr
unfolding is_misaligned split_group_migration
take_entry layout group item lvl order order_index migration_type = λ w.
    let taken = (do
      on_links (list_del item)
      decrement group migration_type order_index
      split_group_migration layout group item lvl order order_index migration_type
      give item) in
    (if is_misaligned layout lvl migration_type item w then give null else taken) w

-- The loop over the orders, from `order_index`.
unfoldable pub remove_loop :
    ℕ → ℕ → Layout → (group lvl order order_index migration_type : ℕ) → Bool → Command Ptr
unfolding entry_loop take_entry
remove_loop zero fuel layout group lvl order order_index migration_type is_table = give null
remove_loop (suc rounds) fuel layout group lvl order order_index migration_type is_table =
    let cell = layout.free_cell group migration_type order_index in
    let rest =
      remove_loop rounds fuel layout group lvl order (order_index + 1) migration_type is_table in
    let search = (do
      first ← on_links (list_peek_head cell)
      item ← entry_loop fuel cell first migration_type order_index
      (if item == null
          then rest
          else take_entry layout group item lvl order order_index migration_type)) in
    if migration_type == Enums.migration_sparse_movable && is_table && order_index == 0
    then rest
    else search

-- `fuel` bounds the walks along the free lists.
unfoldable pub remove_group_migration :
    ℕ → Layout → (group lvl order migration_type : ℕ) → Bool → Command Ptr
unfolding remove_loop max_order_of
remove_group_migration fuel layout group lvl order migration_type is_table =
    remove_loop (max_order_of layout group lvl migration_type - order) fuel layout group lvl order
      order migration_type is_table
