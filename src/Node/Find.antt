-- ===== src/Node/Find.antt =====
-- Requests over several levels, source/tensor.c: `find_group` gathers the blocks of a request, level by
-- level, `find_group_reversed` gives an item back. The call of `find_group_reversed` in `find_group`
-- lacks its third argument, read as `is_virtual`.
pub mod Entity
use new_explorer_aios.Prelude.{
  ℕ, zero, suc, ◌+◌, ◌-◌, Bool, true, false, Option, none, some, bit_and, ltb, ◌==◌, if◌then◌else◌,
}
use new_explorer_aios.Bits.Word.{◌>>>◌, add64, sub64}
use new_explorer_aios.Macros.{bit}
use new_explorer_aios.Errors.{err_invalid_args, err_no_memory}
use new_explorer_aios.Struct.Sizes
use new_explorer_aios.Struct.Enums
use new_explorer_aios.Struct.Node.{AllocPara}
use new_explorer_aios.Flags.{get_item_node, get_item_state}
use new_explorer_aios.Convert.{item_to_order, item_to_orders}
use new_explorer_aios.Locate.{get_pnode_num}
use new_explorer_aios.Request.{item_state_to_migration}
use new_explorer_aios.Links.Memory.{Ptr, null}
use new_explorer_aios.Links.{list_add_head, list_del, list_peek_head, list_peek_tail}
use new_explorer_aios.Group.World.{World, Command, returns, on_links, as_int}
use new_explorer_aios.Group.{item_shift_of}
use new_explorer_aios.Group.Compound.{fetch}
use new_explorer_aios.Group.Free.{dequeue_group_migration}
use new_explorer_aios.Group.Remove.{current_node}
use new_explorer_aios.Node.Replies.{
  Reply, Fallible, succeed, fail, too_deep, lift, look, handle, ◌>>=◌, ◌>>◌,
}
use new_explorer_aios.Node.Shared.{
  Setting, Vtable, lru_changed, join_items, get_current_pnode, get_recent_vnode,
}

module _ (setting : Setting) where
  -- The item goes back to its group.
  unfoldable pub give_back : (migration_type : ℕ) → Ptr → Fallible (Unit {0})
  unfolding dequeue_group_migration
  give_back migration_type item =
      if migration_type == Enums.migration_sparse_movable
      then lift (setting.sparse.dequeue_group_sparse item migration_type)
      else lift
          (dequeue_group_migration setting.fuel setting.missing setting.layout item migration_type)

  -- An LRU item goes to the LRU list of its node, which gives its last one back when it is full.
  unfoldable pub put_lru : (node item : Ptr) → (migration_type : ℕ) → Fallible (Unit {0})
  unfolding give_back lru_changed
  put_lru node item migration_type = do
    lift (on_links (list_add_head item (setting.layout.lru_cell node)))
    lift (lru_changed node (λ n. add64 n 1))
    count ← look (λ w. w.lru_count node)
    (if ltb count Sizes.lru_cache_max_items then succeed tt else (do
      coldest ← lift (on_links (list_peek_tail (setting.layout.lru_cell node)))
      lift (on_links (list_del coldest))
      lift (lru_changed node (λ n. sub64 n 1))
      give_back migration_type coldest))

  -- `find_group_reversed`.
  unfoldable pub find_group_reversed :
      (migration_type : ℕ) → (item : Ptr) → Bool → Fallible (Unit {0})
  unfolding put_lru give_back fetch
  find_group_reversed migration_type item is_virtual = do
    i ← lift (fetch item)
    let node_id = get_item_node i
    let node =
        if is_virtual
        then setting.layout.vnode_num node_id
        else get_pnode_num setting.layout.arrays node_id
    (if migration_type == Enums.migration_lrutype
        then put_lru node item migration_type
        else give_back migration_type item)

  -- `get_minload_pnode`: the first node of the list of the smallest workload.
  unfoldable pub get_minload_pnode : ℕ → Command Ptr
  get_minload_pnode migration_type = on_links (list_peek_head (setting.minload_cell migration_type))

  -- The node that serves a request.
  unfoldable pub serving_node : (migration_type dim : ℕ) → AllocPara → Fallible Ptr
  unfolding get_minload_pnode get_current_pnode get_recent_vnode
  serving_node migration_type dim para =
      if para.is_entry
      then lift (get_minload_pnode migration_type)
      else if para.is_virtual
      then succeed (get_recent_vnode setting dim)
      else succeed (get_current_pnode setting dim)

  -- `block_shift` of `find_group`.
  unfoldable pub level_shift : (migration_type level : ℕ) → AllocPara → ℕ
  unfolding item_shift_of
  level_shift migration_type level para =
      if para.is_entry
      then Sizes.function_item_lvl_prior Sizes.group_prior_num_shift level
      else Sizes.function_item_lvl (item_shift_of migration_type) level

  -- `lvl_order`, and what is left of `lvl_nitem`. For an entity nothing is taken off.
  unfoldable pub level_order : AllocPara → ℕ → ℕ × ℕ
  unfolding item_to_order item_to_orders
  level_order para lvl_nitem =
      if para.is_entry
      then (lvl_nitem, lvl_nitem)
      else if para.is_combined
      then item_to_orders setting.clzl lvl_nitem
      else item_to_order setting.clzl lvl_nitem

  module _ (vtable : Vtable) where
    -- The end at the label `bad_idx`.
    unfoldable pub bad_idx : (migration_type : ℕ) → AllocPara → (item_ptr : Ptr) → Fallible Ptr
    unfolding find_group_reversed
    bad_idx migration_type para item_ptr =
        let back = (do
          find_group_reversed migration_type item_ptr para.is_virtual
          fail err_no_memory) in
        if item_ptr == null then fail err_no_memory else back

    -- The loop over the blocks of a level. A status of `dispatch` ends the whole search.
    unfoldable pub level_loop :
        ℕ
        → (node : Ptr) → (level migration_type lvl_nitem : ℕ) → AllocPara
        → (item_ptr : Ptr) → Fallible Ptr
    unfolding join_items level_order bad_idx
    level_loop zero node level migration_type lvl_nitem para item_ptr = too_deep
    level_loop (suc fuel) node level migration_type lvl_nitem para item_ptr =
        let block = level_order para lvl_nitem in
        let rest = λ (head : Ptr). level_loop fuel node level migration_type block.1 para head in
        handle (vtable.dispatch node setting.unset level migration_type (as_int block.0) para)
          (λ tmp. (do
            head ← join_items setting.fuel para.is_combined item_ptr tmp
            (if block.1 == 0 then succeed head else rest head)))
          (λ e. bad_idx migration_type para item_ptr)

    -- The loop over `rounds` levels from `level`.
    unfoldable pub levels_loop :
        ℕ
        → (node : Ptr) → (level migration_type nitems : ℕ) → AllocPara
        → (item_ptr : Ptr) → Fallible Ptr
    unfolding level_loop level_shift
    levels_loop zero node level migration_type nitems para item_ptr = succeed item_ptr
    levels_loop (suc rounds) node level migration_type nitems para item_ptr =
        let block_shift = level_shift migration_type level para in
        let lvl_nitem = nitems >>> block_shift in
        let left = bit_and nitems (sub64 (bit block_shift) 1) in
        let skip = levels_loop rounds node (level + 1) migration_type left para item_ptr in
        let take = (do
          head ← level_loop setting.fuel node level migration_type lvl_nitem para item_ptr
          levels_loop rounds node (level + 1) migration_type left para head) in
        if lvl_nitem == 0 then skip else take

    -- `find_group`.
    unfoldable pub find_group :
        (nitems migration_type lvl lvl_end : ℕ) → AllocPara → (dim : ℕ) → Fallible Ptr
    unfolding levels_loop serving_node
    find_group nitems migration_type lvl lvl_end para dim =
        let level = if para.is_entry then lvl + 1 else lvl in
        (do
          node ← serving_node migration_type dim para
          levels_loop (lvl_end - level) node level migration_type nitems para null)

    -- `compound_group`, with the wrapper `group_struct_compound`.
    unfoldable pub compound_group :
        (nitems migration_type : ℕ) → AllocPara → (dim : ℕ) → Fallible Ptr
    unfolding find_group current_node
    compound_group nitems migration_type para dim =
        let lvl =
          if migration_type == Enums.migration_sparse_movable
          then 0
          else setting.layout.phy_group_lvl (current_node setting.layout dim) in
        if ltb migration_type Enums.migration_types
        then find_group nitems migration_type lvl Sizes.group_lvl_num para dim
        else fail err_invalid_args

  -- `decompose_group`, with the wrapper `group_struct_decompose`. -1 for a state without a type is a
  -- value below 0.
  unfoldable pub decompose_group : (item : Ptr) → Bool → Fallible (Unit {0})
  unfolding find_group_reversed fetch
  decompose_group item is_virtual = do
    i ← lift (fetch item)
    elim (item_state_to_migration setting.missing.sparse_stream (get_item_state i)) [
      | none ↦ fail err_invalid_args
      | some migration_type ↦ find_group_reversed migration_type item is_virtual
    ]
