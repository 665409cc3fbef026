-- ===== src/Group/Sequence.antt =====
-- `sequence_split_group_migration` of source/tensor.c, and the search for a level with free items.
use new_explorer_aios.Prelude.{
  ℕ, zero, suc, ◌+◌, ◌-◌, ◌%◌, ◌^◌, Bool, Option, none, some, ltb, leb, ◌==◌, if◌then◌else◌,
}
use new_explorer_aios.Bits.Word.{word_mod, ◌<<<◌, sub64}
use new_explorer_aios.Macros.{bit}
use new_explorer_aios.Struct.Sizes
use new_explorer_aios.Links.Memory.{Ptr}
use new_explorer_aios.Links.{list_add_head}
use new_explorer_aios.Group.World.{
  Layout, Command, give, ◌>>=◌, ◌>>◌, on_links, edit, increment, item_at, as_int,
}
use new_explorer_aios.Group.{freed, allocated, half_size, item_shift_of, group_budget}

-- `a < b` of two 64-bit numbers with a sign.
unfoldable pub signed_lt : ℕ → ℕ → Bool
signed_lt a b = ltb ((a + 2 ^ 63) % word_mod) ((b + 2 ^ 63) % word_mod)

-- One round: the half on the other side of `rel_idx` goes to the free list of `order`.
unfoldable pub sequence_round :
    Layout → ℕ → (free : Ptr) → (lvl order migration_type : ℕ) → Command (Unit {0})
sequence_round layout group free lvl order migration_type = do
  on_links (list_add_head (layout.free_cell group migration_type order) free)
  edit free (freed (layout.node_id group) order lvl)
  increment group migration_type order

-- The loop of `sequence_split_group_migration`, which returns the item that it has moved to.
unfoldable pub sequence_loop :
    Layout → ℕ → (item : Ptr) → (lvl order_min order_max migration_type rel_idx : ℕ) → Command Ptr
unfolding sequence_round signed_lt
sequence_loop layout group item lvl order_min zero migration_type rel_idx = give item
sequence_loop layout group item lvl order_min (suc order) migration_type rel_idx =
    let size = half_size migration_type lvl order in
    let present = item_at item size in
    let rest = (do
      sequence_round layout group
          (if signed_lt (as_int size) (as_int rel_idx) then item else present) lvl order
          migration_type
      sequence_loop layout group present lvl order_min order migration_type rel_idx) in
    if ltb order_min (suc order) then rest else give item

unfoldable pub sequence_split_group_migration :
    Layout
    → ℕ
    → (item : Ptr) → (lvl order_min order_max migration_type rel_idx : ℕ) → Command (Unit {0})
unfolding sequence_loop
sequence_split_group_migration layout group item lvl order_min order_max migration_type rel_idx = do
  base ← sequence_loop layout group item lvl order_min order_max migration_type rel_idx
  edit (item_at base rel_idx) (
      allocated (layout.node_id group) order_min lvl (item_shift_of migration_type)
        (layout.dim group))

-- `forward_group_budget` on the node `nu`, whose first level is `first`: the level that the search
-- ends at, `none` for -1.
unfoldable pub forward_group_budget :
    Layout → (ℕ → ℕ → ℕ → ℕ) → (nu first reverse_index migration_type order : ℕ) → Option ℕ
forward_group_budget layout free_count nu first zero migration_type order =
    if leb first 0
    then if group_budget free_count (layout.group_lvl 0 nu) 0 migration_type order
          Sizes.max_item_order
        == 0
      then none
      else some 0
    else some 0
forward_group_budget layout free_count nu first (suc lower) migration_type order =
    let rest = forward_group_budget layout free_count nu first lower migration_type 0 in
    if leb first (suc lower)
    then if group_budget free_count (layout.group_lvl (suc lower) nu) (suc lower) migration_type
          order Sizes.max_item_order
        == 0
      then rest
      else some (suc lower)
    else some (suc lower)

-- The loop of `backward_group_budget` from level `index`. The needed number is an `int`. Beyond the
-- first level it asks for 12 orders, of which a free list has only 9; the counts behind these are
-- what memory holds there.
unfoldable pub backward_loop :
    ℕ → Layout → (ℕ → ℕ → ℕ → ℕ) → (nu index migration_type order_index nitem_need : ℕ) → ℕ
unfolding signed_lt
backward_loop zero layout free_count nu index migration_type order_index nitem_need = index
backward_loop (suc rounds) layout free_count nu index migration_type order_index nitem_need =
    let order_nitem = as_int (
      if order_index == 0
      then 0
      else group_budget free_count (layout.group_lvl index nu) index migration_type 0
          (order_index - 1)) in
    let rest =
      backward_loop rounds layout free_count nu (index + 1) migration_type
        Sizes.group_order_num_shift
        (as_int (
          as_int (sub64 nitem_need order_nitem)
          <<< Sizes.function_item Sizes.group_order_num_shift)) in
    if signed_lt order_nitem nitem_need then rest else index

unfoldable pub backward_group_budget :
    Layout → (ℕ → ℕ → ℕ → ℕ) → (nu index migration_type order : ℕ) → ℕ
unfolding backward_loop bit
backward_group_budget layout free_count nu index migration_type order =
    backward_loop (Sizes.group_lvl_num - index) layout free_count nu index migration_type order
      (as_int (bit order))
