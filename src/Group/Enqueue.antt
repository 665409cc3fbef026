-- ===== src/Group/Enqueue.antt =====
-- Taking blocks across orders and levels, source/tensor.c: `enqueue_group_migration` gathers blocks of
-- lower orders into a compound item, and `forward_remove_group_migration` and
-- `backward_remove_group_migration` look for a block at other levels.
pub mod Levels
pub mod Taken
use new_explorer_aios.Prelude.{
  ℕ, zero, suc, ◌+◌, ◌-◌, ◌*◌, ◌%◌, Bool, false, Option, none, some, ltb, ◌&&◌, ◌==◌, if◌then◌else◌,
}
use new_explorer_aios.Bits.Word.{word_mod, sub64}
use new_explorer_aios.Struct.Sizes
use new_explorer_aios.Links.Memory.{Ptr, null}
use new_explorer_aios.Links.{list_peek_head}
use new_explorer_aios.Group.World.{
  World, Layout, Command, give, returns, exhausted, ◌>>=◌, ◌>>◌, on_links, as_int,
}
use new_explorer_aios.Group.{split_item_migration}
use new_explorer_aios.Group.Compound.{cell_to_compound, find_index_item}
use new_explorer_aios.Group.Sequence.{forward_group_budget, backward_group_budget}
use new_explorer_aios.Group.Remove.{current_node, remove_group_migration}

-- A count of free blocks that falls by more than one.
unfoldable pub decrease : (group type order by : ℕ) → Command (Unit {0})
decrease group type order by w = returns tt (record w {
  free_count = λ g t o.
      if (g == group) && ((t == type) && (o == order))
      then sub64 (w.free_count g t o) by
      else w.free_count g t o;
})

-- The loop of `enqueue_group_migration` from `order_index`, a word that the source lets run below 0.
-- It returns the head of the compound item.
unfoldable pub enqueue_loop :
    ℕ
    → Layout
    → (group : ℕ) → (head : Ptr) → (order_index remain_count migration_type : ℕ) → Command Ptr
unfolding decrease cell_to_compound find_index_item
enqueue_loop zero layout group head order_index remain_count migration_type = λ w. exhausted
enqueue_loop (suc fuel) layout group head order_index remain_count migration_type = λ w.
    let temp = layout.free_cell group migration_type order_index in
    let temp_count = w.free_count group migration_type order_index in
    let skip =
      enqueue_loop fuel layout group head (sub64 order_index 1) remain_count migration_type in
    let whole = λ (head' : Ptr). (do
      cell_to_compound (suc fuel) temp null head'
      decrease group migration_type order_index temp_count
      enqueue_loop fuel layout group head' (sub64 order_index 1)
          (sub64 remain_count temp_count * 2 % word_mod) migration_type) in
    let part = λ (head' : Ptr). (do
      split_page ←
          find_index_item (suc fuel) layout group order_index (as_int remain_count) migration_type
      cell_to_compound (suc fuel) temp split_page head'
      decrease group migration_type order_index remain_count
      give head') in
    (do
      item ← on_links (list_peek_head temp)
      let head' = if head == null then item else head
      (if item == null
          then skip
          else if ltb temp_count remain_count
          then whole head'
          else part head'))
      w

-- `enqueue_group_migration`: the number that it returns, which is always 0, and `*item_pptr`.
unfoldable pub enqueue_group_migration :
    ℕ → Layout → (group : ℕ) → (head : Ptr) → (order norder migration_type : ℕ) → Command (ℕ × Ptr)
unfolding enqueue_loop
enqueue_group_migration fuel layout group head order norder migration_type = do
  head' ← enqueue_loop fuel layout group head (sub64 order 1) (2 * norder % word_mod) migration_type
  give (0, head')

-- The way back up from `last_index`, `rounds` levels below the one asked for.
unfoldable pub forward_remove_loop :
    ℕ → ℕ → Layout → (last_index migration_type nu : ℕ) → Command (Unit {0})
unfolding remove_group_migration split_item_migration
forward_remove_loop zero fuel layout last_index migration_type nu = give tt
forward_remove_loop (suc rounds) fuel layout last_index migration_type nu = do
  last_item ←
      remove_group_migration fuel layout (layout.group_lvl last_index nu) last_index 0
        migration_type false
  split_item_migration layout (layout.group_lvl (last_index + 1) nu) (last_index + 1)
      Sizes.group_order_num_shift last_item migration_type
  forward_remove_loop rounds fuel layout (last_index + 1) migration_type nu

-- `forward_remove_group_migration`.
unfoldable pub forward_remove_group_migration :
    ℕ → Layout → (reverse_index migration_type order dim : ℕ) → Command Ptr
unfolding forward_remove_loop
forward_remove_group_migration fuel layout reverse_index migration_type order dim = λ w.
    let nu = current_node layout dim in
    let first = layout.phy_group_lvl nu in
    let from = λ (last_index : ℕ). (do
      forward_remove_loop (reverse_index - last_index) fuel layout last_index migration_type nu
      remove_group_migration fuel layout (layout.group_lvl reverse_index nu) reverse_index order
          migration_type false) in
    elim (forward_group_budget layout w.free_count nu first reverse_index migration_type order) [
      | none ↦ returns null w
      | some last_index ↦ if ltb last_index first then returns null w else from last_index w
    ]

-- The levels from `index` up to below the last one: the number of blocks still to take, and the head.
unfoldable pub backward_remove_loop :
    ℕ
    → ℕ
    → Layout
    → (index migration_type order_index norder nu : ℕ) → (head : Ptr) → Command (ℕ × ℕ × Ptr)
unfolding enqueue_group_migration
backward_remove_loop zero fuel layout index migration_type order_index norder nu head =
    give (order_index, norder, head)
backward_remove_loop (suc rounds) fuel layout index migration_type order_index norder nu head = do
  r ←
      enqueue_group_migration fuel layout (layout.group_lvl index nu) head order_index norder
        migration_type
  backward_remove_loop rounds fuel layout (index + 1) migration_type Sizes.group_order_num_shift r.0
      nu r.1

-- `backward_remove_group_migration`.
unfoldable pub backward_remove_group_migration :
    ℕ → Layout → (index migration_type order dim : ℕ) → Command Ptr
unfolding backward_remove_loop
backward_remove_group_migration fuel layout index migration_type order dim = λ w.
    let nu = current_node layout dim in
    let last_index = backward_group_budget layout w.free_count nu index migration_type order in
    let found = (do
      r ← backward_remove_loop (last_index - index) fuel layout index migration_type order 1 nu null
      s ←
          enqueue_group_migration fuel layout (layout.group_lvl last_index nu) r.2 r.0 r.1
            migration_type
      give s.1) in
    (if last_index == Sizes.group_lvl_num then give null else found) w
