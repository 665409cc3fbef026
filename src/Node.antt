-- ===== src/Node.antt =====
-- The operations of a node of source/tensor.c: dispatch to the groups, migration between types, and
-- lending between nodes. `dispatch_group` reads its `level`, which is not declared, as `lvl`.
pub mod Replies
pub mod Shared
pub mod Find
pub mod Failures
pub mod Post
pub mod Blocks
pub mod Alloc
pub mod Trans
pub mod Budget
pub mod Example
use new_explorer_aios.Prelude.{ℕ, zero, suc, ◌+◌, Bool, true, false, not, ◌||◌, ◌==◌, if◌then◌else◌}
use new_explorer_aios.Bits.Word.{sub64}
use new_explorer_aios.Macros.{bit}
use new_explorer_aios.Errors.{err_invalid_args, err_no_memory}
use new_explorer_aios.Struct.Sizes
use new_explorer_aios.Struct.Enums
use new_explorer_aios.Struct.Node.{AllocPara}
use new_explorer_aios.Flags.{set_item_state}
use new_explorer_aios.Convert.{item_to_order, item_to_orders}
use new_explorer_aios.Locate.{get_pnode_num}
use new_explorer_aios.Request.State.{set_group_item_state}
use new_explorer_aios.Links.Memory.{Ptr, null}
use new_explorer_aios.Links.{list_remove_head}
use new_explorer_aios.Group.World.{World, Command, returns, on_links, as_int}
use new_explorer_aios.Group.{item_shift_of}
use new_explorer_aios.Group.Sequence.{signed_lt}
use new_explorer_aios.Group.Enqueue.{
  forward_remove_group_migration, backward_remove_group_migration,
}
use new_explorer_aios.Node.Replies.{
  Fallible, succeed, fail, too_deep, lift, look, handle, ◌>>=◌, ◌>>◌, set_status, take_free_items,
}
use new_explorer_aios.Node.Shared.{Setting, Vtable, para_of, lru_changed, put_state, join_items}

module _ (setting : Setting) where
  -- The end of `dispatch_group` for an item of the node's own groups.
  unfoldable pub final_dispatch :
      (node item : Ptr) → (lvl migration_type order : ℕ) → AllocPara → Fallible Ptr
  unfolding put_state bit item_shift_of
  final_dispatch node item lvl migration_type order para =
      let block_shift =
        if para.is_entry
        then Sizes.function_item_lvl_prior Sizes.group_prior_num_shift lvl
        else Sizes.function_item_lvl (item_shift_of migration_type) lvl in
      (do
        lift (take_free_items node (if para.is_entry then 0 else bit (order + block_shift)))
        put_state item (λ i.
            set_group_item_state i migration_type para.is_combined para.is_virtual para.is_stream
              para.is_entry)
        succeed item)

  -- The search in the node's own groups. The call for a stream has its arguments in another order
  -- than the parameters: the level is taken for the migration type, the type for the order and the
  -- order for the level.
  unfoldable pub forward_remove :
      (node : Ptr) → (lvl migration_type order dim : ℕ) → AllocPara → Command Ptr
  unfolding forward_remove_group_migration
  forward_remove node lvl migration_type order dim para =
      if migration_type == Enums.migration_sparse_movable
      then if para.is_stream
        then setting.sparse.forward_remove_group_stream lvl migration_type order dim para
        else if para.is_entry
        then setting.sparse.forward_remove_group_prior lvl migration_type order node
        else setting.sparse.forward_remove_group_sparse lvl migration_type order dim para.is_virtual
      else forward_remove_group_migration setting.fuel setting.layout lvl migration_type order dim

  -- The case of a node whose status is backward.
  unfoldable pub dispatch_backward :
      (node : Ptr) → (lvl migration_type order dim : ℕ) → AllocPara → Fallible Ptr
  unfolding backward_remove_group_migration final_dispatch
  dispatch_backward node lvl migration_type order dim para =
      let search = (do
        item ← lift (
            backward_remove_group_migration setting.fuel setting.layout lvl migration_type order
              dim)
        (if item == null then fail err_no_memory else (do
          lift (set_status node Enums.group_idle)
          final_dispatch node item lvl migration_type order para))) in
      if para.is_combined then search else fail err_invalid_args

module _ (setting : Setting) (vtable : Vtable) where
  -- `dispatch_group_migration`: another way for a request that the lists of the node do not serve.
  unfoldable pub dispatch_group_migration :
      (node : Ptr) → (order lvl migration_type : ℕ) → Bool → Fallible Ptr
  dispatch_group_migration node order lvl migration_type is_combined =
      let migrated = vtable.migrate node order lvl migration_type is_combined in
      let backward = (do
        lift (set_status node Enums.group_backward)
        handle (vtable.dispatch node setting.unset lvl migration_type order (para_of is_combined))
            (λ item. succeed item)
            (λ e.
              handle (vtable.migrate node order lvl Enums.migration_movable is_combined)
                (λ item. succeed item) (λ e'. fail err_no_memory))) in
      if migration_type == Enums.migration_reclaimable
        || migration_type == Enums.migration_sparse_movable
      then fail err_invalid_args
      else if migration_type == Enums.migration_lrutype
          || migration_type == Enums.migration_unmovable
      then migrated
      else backward

  -- The cases of the `switch` on the status of the node.
  unfoldable pub dispatch_forward :
      (node old : Ptr) → (lvl migration_type order dim status : ℕ) → AllocPara → Fallible Ptr
  unfolding forward_remove dispatch_group_migration final_dispatch
  dispatch_forward node old lvl migration_type order dim status para =
      let found = λ (item : Ptr). (do
        lift (set_status node Enums.group_forward)
        final_dispatch setting node item lvl migration_type order para) in
      let other = (do
        item ← dispatch_group_migration node order lvl migration_type para.is_combined
        succeed (if item == null then old else item)) in
      (do
        item ← lift (forward_remove setting node lvl migration_type order dim para)
        (if item == null
            then if status == Enums.group_only_forward then fail err_no_memory else other
            else found item))

  unfoldable pub dispatch_status :
      (node old : Ptr) → (lvl migration_type order : ℕ) → AllocPara → Fallible Ptr
  unfolding dispatch_forward dispatch_backward final_dispatch
  dispatch_status node old lvl migration_type order para = λ w.
      let status = (w.attr node).status in
      let dim = (w.attr node).dim in
      (if status == Enums.group_idle
            || status == Enums.group_only_forward
            || status == Enums.group_forward
          then dispatch_forward node old lvl migration_type order dim status para
          else if status == Enums.group_backward
          then dispatch_backward setting node lvl migration_type order dim para
          else final_dispatch setting node old lvl migration_type order para)
        w

  -- `dispatch_group`: an LRU request is served from the LRU list of the node where that has an item.
  unfoldable pub dispatch_group :
      (node old : Ptr) → (lvl migration_type order : ℕ) → AllocPara → Fallible Ptr
  unfolding dispatch_status lru_changed
  dispatch_group node old lvl migration_type order para =
      let from_groups = dispatch_status node old lvl migration_type order para in
      let from_lru = (do
        head ← lift (on_links (list_remove_head (setting.layout.lru_cell node)))
        (if head == null
            then from_groups
            else (do lift (lru_changed node (λ n. sub64 n 1)); succeed head))) in
      if migration_type == Enums.migration_lrutype then from_lru else from_groups

  -- `migrate_group`. The default case only prints.
  unfoldable pub migrate_group : (node : Ptr) → (order lvl migration_type : ℕ) → Bool → Fallible Ptr
  unfolding put_state
  migrate_group node order lvl migration_type is_combined =
      let dispatched =
        vtable.dispatch node setting.unset lvl Enums.migration_movable order
          (para_of is_combined) in
      let for_lru = (do
        item ← dispatched
        put_state item (λ i. set_item_state i Enums.state_item_lru_cache_types)
        succeed item) in
      let for_unmovable = (do
        lift (set_status node Enums.group_only_forward)
        item ← dispatched
        put_state item (λ i. set_item_state i Enums.state_item_nomovable_types)
        succeed item) in
      let for_movable = (do
        item ← vtable.lend Enums.migration_movable lvl order is_combined
        put_state item (λ i. set_item_state i Enums.state_item_movable_node)
        succeed item) in
      if migration_type == Enums.migration_lrutype
      then for_lru
      else if migration_type == Enums.migration_unmovable
      then for_unmovable
      else if migration_type == Enums.migration_movable
      then for_movable
      else succeed setting.unset

  -- The loop of `repeating_dispatch`, with the items that are left and the item so far.
  unfoldable pub repeating_loop :
      ℕ
      → (node : Ptr) → (lvl migration_type : ℕ) → Bool
      → (nitems : ℕ) → (item_ptr : Ptr) → Fallible Ptr
  unfolding join_items item_to_order item_to_orders
  repeating_loop zero node lvl migration_type is_combined nitems item_ptr = too_deep
  repeating_loop (suc fuel) node lvl migration_type is_combined nitems item_ptr =
      let block =
        if is_combined
        then item_to_orders setting.clzl nitems
        else item_to_order setting.clzl nitems in
      let round = (do
        tmp ←
            vtable.dispatch node setting.unset lvl migration_type (as_int block.0)
              (para_of is_combined)
        head ← join_items setting.fuel is_combined item_ptr tmp
        repeating_loop fuel node lvl migration_type is_combined block.1 head) in
      if nitems == 0 then succeed item_ptr else round

  -- `repeating_dispatch`. Every round takes a binary digit off the number of items, or all of them.
  unfoldable pub repeating_dispatch :
      (node : Ptr) → (lvl migration_type nitems : ℕ) → Bool → Fallible Ptr
  unfolding repeating_loop
  repeating_dispatch node lvl migration_type nitems is_combined =
      repeating_loop 65 node lvl migration_type is_combined nitems null

  -- The loop of `lend_group` over `rounds` nodes from the node `i`.
  unfoldable pub lend_loop :
      ℕ → (i migration_type lvl nr_items : ℕ) → Bool → (item_ptr : Ptr) → Fallible Ptr
  unfolding join_items repeating_dispatch
  lend_loop zero i migration_type lvl nr_items is_combined item_ptr = succeed item_ptr
  lend_loop (suc rounds) i migration_type lvl nr_items is_combined item_ptr = λ w.
      let node = get_pnode_num setting.layout.arrays i in
      let pn_freeitem = (w.attr node).nr_freeitems in
      let skip = lend_loop rounds (i + 1) migration_type lvl nr_items is_combined item_ptr in
      let all_of_node = signed_lt pn_freeitem nr_items in
      let left = if all_of_node then sub64 nr_items pn_freeitem else 0 in
      let take = (do
        tmp ←
            repeating_dispatch node lvl migration_type
              (if all_of_node then pn_freeitem else nr_items) is_combined
        head ← join_items setting.fuel is_combined item_ptr tmp
        lend_loop rounds (i + 1) migration_type lvl left is_combined head) in
      (if nr_items == 0
          then succeed item_ptr
          else if pn_freeitem == 0
          then skip
          else if all_of_node
          then if is_combined then take else skip
          else take)
        w

  -- `lend_group`.
  unfoldable pub lend_group : (migration_type lvl lvl_order : ℕ) → Bool → Fallible Ptr
  unfolding lend_loop bit
  lend_group migration_type lvl lvl_order is_combined =
      lend_loop Sizes.pnode_num 0 migration_type lvl
        (bit (lvl_order + Sizes.function_item_lvl Sizes.group_order_num_shift lvl)) is_combined null
