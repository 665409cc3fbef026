-- ===== src/Group.antt =====
-- The free lists of a group, source/tensor.c: splitting a block down to an order, and budgets.
pub mod World
pub mod Ensures
pub mod Frame
pub mod Split
pub mod Budget
pub mod Conserve
pub mod Remove
pub mod Free
pub mod Enqueue
pub mod Sample
mod Example
pub mod Compound
pub mod Sequence
pub mod Table
use new_explorer_aios.Prelude.{
  ℕ, zero, suc, ◌+◌, ◌-◌, ◌*◌, ◌%◌, ◌^◌, Bool, true, false, ltb, leb, ◌==◌, if◌then◌else◌,
}
use new_explorer_aios.Bits.Word.{word_mod, ◌<<<◌, add64}
use new_explorer_aios.Macros.{bit}
use new_explorer_aios.Struct.Sizes
use new_explorer_aios.Struct.Enums
use new_explorer_aios.Struct.Item.{ItemStruct}
use new_explorer_aios.Flags.{
  set_item_present, clear_item_present, set_item_order, clear_item_state, set_item_node,
  set_item_section, set_item_freeidx, set_item_dim,
}
use new_explorer_aios.Links.Memory.{Ptr}
use new_explorer_aios.Links.{list_add_head}
use new_explorer_aios.Group.World.{
  Layout, Command, give, ◌>>=◌, ◌>>◌, on_links, edit, increment, item_at,
}

-- `item_shift` of the operations on a group.
unfoldable pub item_shift_of : ℕ → ℕ
item_shift_of migration_type =
    if migration_type == Enums.migration_sparse_movable
    then Sizes.group_range_num_shift
    else Sizes.group_order_num_shift

-- The marks of a block that goes to a free list.
unfoldable pub freed : ℕ → ℕ → ℕ → ItemStruct → ItemStruct
freed node_id order lvl item =
    set_item_section
      (set_item_node (clear_item_state (set_item_order (clear_item_present item) order)) node_id)
      lvl

-- The marks of a block that is handed out.
unfoldable pub allocated : ℕ → ℕ → ℕ → ℕ → ℕ → ItemStruct → ItemStruct
unfolding bit
allocated node_id order lvl item_shift dim item =
    set_item_dim
      (set_item_freeidx
        (set_item_section (set_item_node (set_item_order (set_item_present item) order) node_id)
          lvl)
        (bit (Sizes.function_item item_shift)))
      dim

-- `split2_group_migration`.
unfoldable pub split2_group_migration : Layout → ℕ → Ptr → ℕ → ℕ → ℕ → ℕ → Command (Unit {0})
unfolding freed item_at
split2_group_migration layout group item size order_max migration_type lvl = do
  on_links (list_add_head (layout.free_cell group migration_type order_max) (item_at item size))
  edit (item_at item size) (freed (layout.node_id group) order_max lvl)
  increment group migration_type order_max

-- The size of the upper half that a split to `order` frees.
unfoldable pub half_size : ℕ → ℕ → ℕ → ℕ
unfolding bit item_shift_of
half_size migration_type lvl order =
    if migration_type == Enums.migration_sparse_movable
    then bit order
    else bit (order + Sizes.function_item_lvl (item_shift_of migration_type) lvl)

-- The loop of `split_group_migration`, which goes down from `order_max`.
unfoldable pub split_loop : Layout → ℕ → Ptr → ℕ → ℕ → ℕ → ℕ → Command (Unit {0})
unfolding split2_group_migration half_size
split_loop layout group item lvl order_min zero migration_type = give tt
split_loop layout group item lvl order_min (suc order) migration_type =
    let rest = (do
      split2_group_migration layout group item (half_size migration_type lvl order) order
          migration_type lvl
      split_loop layout group item lvl order_min order migration_type) in
    if ltb order_min (suc order) then rest else give tt

-- `split_group_migration`. After the loop `order_max` is `order_min`, or as it was where it was
-- below that.
unfoldable pub split_group_migration : Layout → ℕ → Ptr → ℕ → ℕ → ℕ → ℕ → Command (Unit {0})
unfolding split_loop allocated item_shift_of
split_group_migration layout group item lvl order_min order_max migration_type = do
  split_loop layout group item lvl order_min order_max migration_type
  edit item (
      allocated (layout.node_id group) (if ltb order_min order_max then order_min else order_max)
        lvl (item_shift_of migration_type) (layout.dim group))

-- `split_item_migration` frees both halves of a block. The source is called with an order of at
-- least 1.
unfoldable pub split_item_migration : Layout → ℕ → ℕ → ℕ → Ptr → ℕ → Command (Unit {0})
unfolding split2_group_migration bit
split_item_migration layout group lvl order item migration_type =
    let block_shift = Sizes.function_item_lvl Sizes.group_order_num_shift lvl in
    (do
      split2_group_migration layout group item (bit (order - 1 + block_shift)) (order - 1)
          migration_type lvl
      split2_group_migration layout group item 0 (order - 1) migration_type lvl)

-- The loop of `group_budget` over `rounds` orders from `index`. The count goes through an `int`.
unfoldable pub budget_loop : ℕ → (ℕ → ℕ) → ℕ → ℕ → ℕ → ℕ
unfolding bit
budget_loop zero counts nitem_base index nitems = nitems
budget_loop (suc rounds) counts nitem_base index nitems =
    budget_loop rounds counts nitem_base (index + 1) (
      add64 nitems (World.as_int (counts index) * bit index % word_mod * bit nitem_base % word_mod))

-- `group_budget`: the free items of a group in the orders from `order` to `order_end`.
unfoldable pub group_budget : (ℕ → ℕ → ℕ → ℕ) → ℕ → ℕ → ℕ → ℕ → ℕ → ℕ
unfolding budget_loop
group_budget free_count group lvl migration_type order order_end =
    budget_loop (order_end + 1 - order) (free_count group migration_type)
      (Sizes.function_item_lvl Sizes.group_order_num_shift lvl) order 0

-- `node_budget_lvl` and `node_budget`, for the node `nu` of the dimension, with the first level of
-- the node.
unfoldable pub node_budget_lvl : Layout → (ℕ → ℕ → ℕ → ℕ) → ℕ → ℕ → ℕ → ℕ
unfolding group_budget
node_budget_lvl layout free_count nu migration_type lvl =
    group_budget free_count (layout.group_lvl lvl nu) lvl migration_type 0 Sizes.max_item_order

unfoldable pub node_budget_loop : ℕ → Layout → (ℕ → ℕ → ℕ → ℕ) → ℕ → ℕ → ℕ → ℕ → ℕ
unfolding node_budget_lvl
node_budget_loop zero layout free_count nu migration_type lvl budget = budget
node_budget_loop (suc rounds) layout free_count nu migration_type lvl budget =
    node_budget_loop rounds layout free_count nu migration_type (lvl + 1)
      (add64 budget (node_budget_lvl layout free_count nu migration_type lvl))

unfoldable pub node_budget : Layout → (ℕ → ℕ → ℕ → ℕ) → ℕ → ℕ → ℕ → ℕ
unfolding node_budget_loop
node_budget layout free_count nu first_lvl migration_type =
    node_budget_loop (Sizes.max_group_lvls - first_lvl) layout free_count nu migration_type
      first_lvl 0
