-- ===== src/Group/Free.antt =====
-- `free_group_migration` and `dequeue_group_migration` of source/tensor.c. The test of the indices of
-- an item lacks a parenthesis and `clear_item_dim` an argument in the source: the test is read as
-- one of both bounds, and the argument is `dim_val`.
pub mod Heads
pub mod Merge
pub mod Never
use new_explorer_aios.Prelude.{
  ℕ, zero, suc, ◌+◌, ◌*◌, ◌%◌, Bool, true, false, not, ◌&&◌, ◌||◌, Option, none, some, ltb, leb,
  bit_and, ◌==◌, if◌then◌else◌,
}
use new_explorer_aios.Bits.Word.{word_mod, add64, sub64}
use new_explorer_aios.Macros.{bit}
use new_explorer_aios.Struct.Sizes
use new_explorer_aios.Struct.Enums
use new_explorer_aios.Struct.Item.{ItemStruct, item_bytes}
use new_explorer_aios.Flags.{
  clear_item_present, set_item_order, clear_item_order, get_item_order, set_item_section,
  clear_item_section, get_item_section, clear_item_node, get_item_node, clear_item_state,
  get_item_state, clear_item_dim, clear_item_freeidx, get_item_freeidx,
}
use new_explorer_aios.Convert.{next_buddy_idx, item_is_buddy}
use new_explorer_aios.Request.{item_state_to_migration}
use new_explorer_aios.Request.State.{compound_item}
use new_explorer_aios.Locate.{item_to_rel_idx, get_pnode_num}
use new_explorer_aios.Links.Memory.{Ptr, null}
use new_explorer_aios.Links.{list_in_list, list_del, list_add_head, list_add_tail}
use new_explorer_aios.Group.World.{
  World, Layout, Command, give, returns, exhausted, ◌>>=◌, ◌>>◌, on_links, edit, increment,
  decrement,
}
use new_explorer_aios.Group.{item_shift_of}
use new_explorer_aios.Group.Compound.{fetch, compound_remove_head}
use new_explorer_aios.Group.Remove.{current_node, live_arrays, max_order_of}

-- `item + distance`, with a 64-bit distance.
unfoldable pub item_plus : Ptr → ℕ → Ptr
item_plus item distance = (item + item_bytes * distance) % word_mod

-- What the source uses and does not give: the state STATE_ITEM_SPARSE_STREAM and the argument of
-- `clear_item_dim`.
pub record Missing : Type 0 where
  pub sparse_stream : ℕ
  pub dim_val : ℕ

-- Whether an item is in a list and its state belongs to the migration type.
unfoldable pub buddy_is_valid : Missing → (migration_type : ℕ) → Ptr → Command Bool
unfolding fetch
buddy_is_valid missing migration_type buddy_page = do
  in_list ← on_links (list_in_list buddy_page)
  page ← fetch buddy_page
  give (
      in_list && elim (item_state_to_migration missing.sparse_stream (get_item_state page)) [
        | none ↦ false
        | some t ↦ t == migration_type
      ])

-- The variables of the search: the block with its index and order, and its buddy.
pub record Search : Type 0 where
  pub item : Ptr
  pub idx : ℕ
  pub order : ℕ
  pub order_index : ℕ
  pub buddy_idx : ℕ
  pub buddy_page : Ptr

-- How the loop over the orders ends: at the label `free_item_migration_direct`, or at
-- `free_item_migration_done`, which its end falls through to.
pub data Exit : Type 0 where
  direct : Search → Exit
  merged : Search → Exit

-- The marks of a buddy, and of the block, when the two become one.
unfoldable pub buddy_marks : ItemStruct → ItemStruct
buddy_marks item = clear_item_node (clear_item_order item)

unfoldable pub merge_marks : Missing → ItemStruct → ItemStruct
merge_marks missing item = clear_item_freeidx (
    clear_item_dim (clear_item_state (clear_item_order (clear_item_node (clear_item_section item))))
      missing.dim_val)

-- The block that the search has with its buddy.
unfoldable pub combined : Search → Search
unfolding item_plus
combined s =
    let combined_idx = bit_and s.buddy_idx s.idx in
    record s {
      item = item_plus s.item (sub64 combined_idx s.idx);
      idx = combined_idx;
      order = s.order + 1;
      order_index = s.order_index + 1;
    }

unfoldable pub merge_buddy : Missing → Layout → (group migration_type : ℕ) → Search → Command Search
unfolding buddy_marks merge_marks combined
merge_buddy missing layout group migration_type s = do
  on_links (list_del s.buddy_page)
  edit s.buddy_page buddy_marks
  edit s.item (merge_marks missing)
  decrement group migration_type s.order
  edit (combined s).item (λ i. set_item_order i (s.order + 1))
  give (combined s)

-- Whether the block stays alone: an LRU item, the last order of the first level, or a table of which
-- indices are in use. `origin` is the group of the call, whose dimension is used throughout.
unfoldable pub stays_alone :
    Layout → (origin lvl max_order migration_type order : ℕ) → ItemStruct → Bool
unfolding current_node bit
stays_alone layout origin lvl max_order migration_type order item =
    (migration_type == Enums.migration_lrutype)
    || ((lvl == (
          if migration_type == Enums.migration_sparse_movable
          then 0
          else layout.phy_group_lvl (current_node layout (layout.dim origin))))
        && order == sub64 max_order 1)
    || (ltb 0 (get_item_freeidx item)
        && ltb (get_item_freeidx item) (bit (Sizes.max_item_range + 1)))

-- The loop over the orders. `order` is below `max_order`, a word, in every round.
unfoldable pub merge_loop :
    ℕ → Missing → Layout → (origin group lvl max_order migration_type : ℕ) → Search → Command Exit
unfolding buddy_is_valid merge_buddy stays_alone
merge_loop zero missing layout origin group lvl max_order migration_type s = λ w. exhausted
merge_loop (suc fuel) missing layout origin group lvl max_order migration_type s =
    let buddy_idx = next_buddy_idx s.idx s.order_index in
    let t = record s {
      buddy_idx = buddy_idx;
      buddy_page = item_plus s.item (sub64 buddy_idx s.idx);
    } in
    let rest = (do
      s' ← merge_buddy missing layout group migration_type t
      merge_loop fuel missing layout origin group lvl max_order migration_type s') in
    let with_buddy = (do
      page ← fetch t.buddy_page
      valid ←
          (if item_is_buddy page s.order
            then buddy_is_valid missing migration_type t.buddy_page
            else give false)
      (if valid then rest else give (merged t))) in
    let round = (do
      edit s.item clear_item_present
      item ← fetch s.item
      (if stays_alone layout origin lvl max_order migration_type s.order item
          then give (direct s)
          else with_buddy)) in
    if leb s.order (sub64 max_order 1) then round else give (merged s)

-- The end of a round at `free_item_migration_out`, with the block in the list of its order.
unfoldable pub put_block : (group lvl migration_type : ℕ) → Search → Command Ptr
put_block group lvl migration_type s = do
  edit s.item (λ i. set_item_section (set_item_order i s.order) lvl)
  increment group migration_type s.order
  give s.item

-- The source gives the two arguments in the other order than `list_add_head` and `list_add_tail` take
-- them: the block is the list, and the head of the free list the new node.
unfoldable pub put_direct : Layout → (group lvl migration_type : ℕ) → Search → Command Ptr
unfolding put_block
put_direct layout group lvl migration_type s = do
  on_links (list_add_head s.item (layout.free_cell group migration_type s.order))
  put_block group lvl migration_type s

-- Whether the block would merge again, were its buddy free.
unfoldable pub higher_is_buddy : Missing → (max_order migration_type : ℕ) → Search → Command Bool
unfolding buddy_is_valid
higher_is_buddy missing max_order migration_type s =
    let combined_idx = bit_and s.buddy_idx s.idx in
    let higher_page = item_plus s.item (sub64 combined_idx s.idx) in
    let buddy_idx = next_buddy_idx combined_idx (s.order_index + 1) in
    let higher = (do
      page ← fetch (item_plus higher_page (sub64 buddy_idx combined_idx))
      give (item_is_buddy page (s.order + 1))) in
    (do
      valid ←
          (if ltb s.order (sub64 max_order 2)
            then buddy_is_valid missing migration_type s.buddy_page
            else give false)
      (if valid then higher else give false))

-- The loop over the levels. `pid` is the node of the item at the call.
unfoldable pub free_loop :
    ℕ → Missing → Layout → (origin pid group lvl migration_type : ℕ) → Search → Command Ptr
unfolding merge_loop higher_is_buddy put_direct put_block max_order_of live_arrays
free_loop zero missing layout origin pid group lvl migration_type s = λ w. exhausted
free_loop (suc fuel) missing layout origin pid group lvl migration_type s = λ w.
    let max_order = max_order_of layout origin lvl migration_type in
    let start = record s { idx = item_to_rel_idx (live_arrays layout w) s.item pid } in
    let lower = λ (t : Search).
      free_loop fuel missing layout origin pid (layout.group_lvl (sub64 lvl 1) pid) (sub64 lvl 1)
        migration_type (record t { order = 0 }) in
    let at_end = λ (t : Search). (do
      higher ← higher_is_buddy missing max_order migration_type t
      (if higher
          then (do
            on_links (list_add_tail t.item (layout.free_cell group migration_type t.order))
            put_block group lvl migration_type t)
          else if leb Sizes.max_item_order t.order
              && not (migration_type == Enums.migration_sparse_movable)
          then lower t
          else put_direct layout group lvl migration_type t)) in
    (do
      exit ← merge_loop (suc fuel) missing layout origin group lvl max_order migration_type start
      (elim exit [ direct t ↦ put_direct layout group lvl migration_type t | merged t ↦ at_end t ]))
      w

-- `free_group_migration`, with fuel for both loops.
unfoldable pub free_group_migration :
    ℕ → Missing → Layout → (item : Ptr) → (group lvl order migration_type : ℕ) → Command Ptr
unfolding free_loop item_shift_of
free_group_migration fuel missing layout item group lvl order migration_type = λ w.
    free_loop fuel missing layout group (get_item_node (w.item item)) group lvl migration_type
      (record {
        item = item;
        idx = 0;
        order = order;
        order_index =
            if migration_type == Enums.migration_sparse_movable
            then order
            else order + Sizes.function_item_lvl (item_shift_of migration_type) lvl;
        buddy_idx = 0;
        buddy_page = null;
      })
      w

-- The count of free items of a node.
unfoldable pub add_free_items : Ptr → ℕ → Command (Unit {0})
add_free_items node nitems w = returns tt (record w {
  attr = λ p.
      if p == node
      then record (w.attr p) { nr_freeitems = add64 (w.attr p).nr_freeitems nitems }
      else w.attr p;
})

-- One round of `dequeue_group_migration`.
unfoldable pub dequeue_round :
    ℕ → Missing → Layout → (item : Ptr) → (migration_type : ℕ) → Command (Unit {0})
unfolding free_group_migration add_free_items fetch bit
dequeue_round fuel missing layout item migration_type = do
  removed ← compound_remove_head item
  let temp_page = if removed == null then item else removed
  page ← fetch temp_page
  let node_id = if leb Sizes.pnode_num (get_item_node page) then 0 else get_item_node page
  let order = get_item_order page
  let lvl =
      if ltb Sizes.max_group_lvls (get_item_section page)
      then Sizes.max_group_lvls
      else get_item_section page
  free_group_migration fuel missing layout temp_page (layout.group_lvl lvl node_id) lvl order
      migration_type
  (if migration_type == Enums.migration_unmovable
      then give tt
      else add_free_items (get_pnode_num layout.arrays node_id)
          (bit (order + Sizes.function_item_lvl Sizes.group_order_num_shift lvl)))

unfoldable pub dequeue_group_migration :
    ℕ → Missing → Layout → (item : Ptr) → (migration_type : ℕ) → Command (Unit {0})
unfolding dequeue_round fetch
dequeue_group_migration zero missing layout item migration_type = λ w. exhausted
dequeue_group_migration (suc fuel) missing layout item migration_type =
    let rest = dequeue_group_migration fuel missing layout item migration_type in
    (do
      dequeue_round (suc fuel) missing layout item migration_type
      page ← fetch item
      (if compound_item page then rest else give tt))
