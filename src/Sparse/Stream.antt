-- ===== src/Sparse/Stream.antt =====
-- Streams of sparse items, source/tensor.c: the next period of an item is subscribed ahead in the tables.
pub mod Request
use new_explorer_aios.Prelude.{
  ℕ, zero, suc, ◌+◌, ◌-◌, ◌*◌, ◌%◌, Bool, true, false, not, ◌&&◌, ◌||◌, Option, none, some, bit_and,
  ltb, ◌==◌, if◌then◌else◌,
}
use new_explorer_aios.Bits.Word.{word_mod, ◌>>>◌, add64, sub64}
use new_explorer_aios.Macros.{bit}
use new_explorer_aios.Errors.{no_error, err_fault, err_not_found}
use new_explorer_aios.Struct.Sizes
use new_explorer_aios.Struct.Enums
use new_explorer_aios.Struct.Item.{ItemStruct, item_bytes}
use new_explorer_aios.Struct.Node.{AllocPara}
use new_explorer_aios.Flags.{
  set_item_freeidx, get_item_freeidx, get_item_section, get_item_node, get_item_order,
  get_item_state, get_item_dim,
}
use new_explorer_aios.Convert.{next_buddy_idx}
use new_explorer_aios.Locate.{item_to_range_transform}
use new_explorer_aios.Locate.Sparse.{item_to_rel_idx_sparse, item_to_idx_sparse}
use new_explorer_aios.Links.Memory.{Ptr, null}
use new_explorer_aios.Links.{list_in_list, list_del}
use new_explorer_aios.Group.World.{
  World, Layout, returns, faults, exhausted, Command, give, ◌>>=◌, ◌>>◌, on_links, edit, decrement,
  as_int,
}
use new_explorer_aios.Group.Compound.{fetch}
use new_explorer_aios.Group.Sequence.{sequence_split_group_migration}
use new_explorer_aios.Group.Remove.{live_arrays}
use new_explorer_aios.Group.Free.{item_plus}
use new_explorer_aios.Sparse.{Tables, through, new_group_root, merge_group_sparse_table}

-- What streams need besides the tables: the current virtual and physical node of a dimension by their
-- numbers and addresses, the node of the entities, and the groups of the entities.
pub record Places : Type 0 where
  pub current_vnode : ℕ → ℕ
  pub current_node : ℕ → ℕ
  pub vnode : ℕ → Ptr
  pub pnode : ℕ → Ptr
  pub entity_node : Ptr
  pub entity_group : ℕ → ℕ

-- `block_shift` of a stream.
unfoldable pub stream_shift : AllocPara → ℕ → ℕ
stream_shift para level =
    if para.is_entry
    then Sizes.function_item_lvl_prior Sizes.group_prior_num_shift level
    else Sizes.function_item_lvl
        (if para.is_virtual then Sizes.group_range_num_shift else Sizes.group_order_num_shift) level

module _ (layout : Layout) (tables : Tables) (places : Places) where
  -- The group of a level of the current node.
  unfoldable pub stream_group : AllocPara → (dim level : ℕ) → ℕ
  stream_group para dim level =
      if para.is_virtual
      then tables.vgroup_lvl level (places.current_vnode dim)
      else layout.group_lvl level (places.current_node dim)

  -- The loop of `sequence_remove_group_sparse` over `rounds` levels from `level`.
  unfoldable pub sequence_remove_loop :
      ℕ → AllocPara → (root root_prev : Ptr) → (idx migration_type lvl dim level : ℕ) → Command Ptr
  unfolding stream_shift stream_group through fetch live_arrays bit new_group_root
  sequence_remove_loop zero para root root_prev idx migration_type lvl dim level = give root
  sequence_remove_loop (suc rounds) para root root_prev idx migration_type lvl dim level = λ w.
      let block_shift = stream_shift para level in
      let left = bit_and idx (sub64 (bit block_shift) 1) in
      let array = item_to_range_transform (live_arrays layout w) w.item root in
      let made = (do
        table ← new_group_root layout tables (stream_group para dim level) null level migration_type
        (if table == null
            then give null
            else (do through table (λ i. record i { word1_1 = root_prev }); give table))) in
      let subscribe = λ (table : Ptr).
        (let item = item_plus table (idx >>> block_shift) in
          (do
            through item (λ i. record i { word1_1 = root_prev })
            (if root_prev == null
                then give tt
                else through root_prev (λ i.
                  set_item_freeidx (record i { word1_0 = table })
                    (bit (
                      if para.is_entry
                      then Sizes.group_prior_num_shift
                      else Sizes.max_item_range + 1))))
            i ← fetch item
            (if lvl == level
                then give item
                else sequence_remove_loop rounds para i.word1_0 item left migration_type lvl dim
                    (level + 1)))) in
      (do
        table ← (if array == null then made else give array)
        (if table == null then give null else subscribe table))
        w

  -- `sequence_remove_group_sparse`, from the root of the sparse items of a node.
  unfoldable pub sequence_remove_group_sparse :
      AllocPara → (idx migration_type lvl dim : ℕ) → Command Ptr
  unfolding sequence_remove_loop
  sequence_remove_group_sparse para idx migration_type lvl dim = λ w.
      let node =
        if para.is_entry
        then places.entity_node
        else if para.is_virtual
        then places.vnode dim
        else places.pnode dim in
      let level = if para.is_entry then 1 else 0 in
      sequence_remove_loop (if para.is_entry then 2 else 3) para (w.sparse_root node) null idx
        migration_type lvl dim level w

  -- The way up from a leaf to the block in a list that holds it, over `rounds` orders from
  -- `order_index`: the block, its order and its index; NULL where there is none.
  unfoldable pub find_block : ℕ → (leaf : Ptr) → (idx order_index : ℕ) → Command (Ptr × ℕ × ℕ)
  unfolding item_plus next_buddy_idx
  find_block zero leaf idx order_index = give (null, order_index, idx)
  find_block (suc rounds) leaf idx order_index =
      let combined_idx = bit_and (next_buddy_idx idx order_index) idx in
      let rest =
        find_block rounds (item_plus leaf (sub64 combined_idx idx)) combined_idx
          (order_index + 1) in
      (do
        in_list ← on_links (list_in_list leaf)
        (if in_list then give (leaf, order_index, idx) else rest))

  -- The loop of `sequence_forward_group_sparse`, which returns a status.
  unfoldable pub sequence_forward_loop :
      ℕ
      → (leaf : Ptr) → (idx group nid order_index level lvl order migration_type vnu nu : ℕ) → Bool
      → Command ℕ
  unfolding find_block merge_group_sparse_table sequence_split_group_migration fetch
  sequence_forward_loop zero leaf idx group nid order_index level lvl order type vnu nu is_virtual =
      λ w. exhausted
  sequence_forward_loop (suc fuel) leaf idx group nid order_index level lvl order type vnu nu
        is_virtual =
      let curr_order = if level == lvl then order else 0 in
      let up = λ (root : Ptr) (i : ℕ).
        sequence_forward_loop fuel root i (tables.vgroup_lvl (sub64 level 1) nid) nid 0
          (sub64 level 1) lvl order type vnu nu is_virtual in
      let taken = λ (block : Ptr) (found i : ℕ). (do
        on_links (list_del block)
        decrement group type found
        sequence_split_group_migration layout group block level order found type i
        temp ← fetch leaf
        (if temp.word1_1 == null then give (if level == 0 then no_error else err_not_found) else (do
          in_list ← on_links (list_in_list temp.word1_1)
          (if in_list
              then (do
                merge_group_sparse_table layout tables type vnu nu is_virtual (suc fuel)
                    temp.word1_1 curr_order level
                give no_error)
              else up temp.word1_1 i)))) in
      (do
        found ← find_block (Sizes.max_item_range + 1 - order_index) leaf idx order_index
        (if found.0 == null then give err_fault else taken found.0 found.1 found.2))

  -- `sequence_forward_group_sparse`. `nid` is the number of the node of the group.
  unfoldable pub sequence_forward_group_sparse :
      ℕ → (leaf : Ptr) → (group nid lvl order migration_type vnu nu : ℕ) → Bool → Command ℕ
  unfolding sequence_forward_loop fetch
  sequence_forward_group_sparse fuel leaf group nid lvl order migration_type vnu nu is_virtual = do
    i ← fetch leaf
    fetch i.word1_1
    idx ← (λ w. returns (item_to_rel_idx_sparse w.item leaf) w)
    sequence_forward_loop fuel leaf idx group nid order lvl lvl order migration_type vnu nu
        is_virtual

  -- The stream of a node goes on behind the block.
  unfoldable pub advance_stream : Ptr → ℕ → Command (Unit {0})
  advance_stream node by w =
      returns tt (record w {
        stream_id = λ p. if p == node then add64 (w.stream_id p) by else w.stream_id p;
      })

  -- The subscription at an index, which the source reads the dimension of the item for first.
  unfoldable pub subscribe_at :
      ℕ → (item : Ptr) → (lastidx group nid lvl order migration_type : ℕ) → AllocPara → Command Ptr
  unfolding sequence_remove_group_sparse sequence_forward_group_sparse advance_stream fetch bit
      stream_shift
  subscribe_at fuel item lastidx group nid lvl order migration_type para = do
    i ← fetch item
    let dim = get_item_dim i
    leaf ← sequence_remove_group_sparse para lastidx migration_type lvl dim
    (if leaf == null then give null else (do
      ret ←
          sequence_forward_group_sparse fuel leaf group nid lvl order migration_type
            (places.current_vnode (layout.dim group)) (places.current_node (layout.dim group))
            para.is_virtual
      (if not (ret == no_error) then give null else (do
        (if para.is_entry
            then give tt
            else advance_stream (tables.group_node group) (bit (order + stream_shift para lvl)))
        give leaf))))

  -- `subscribe_group_sparse`, for an item or NULL.
  unfoldable pub subscribe_group_sparse :
      ℕ → (item : Ptr) → (group nid lvl order migration_type : ℕ) → AllocPara → Command Ptr
  unfolding subscribe_at fetch as_int
  subscribe_group_sparse fuel item group nid lvl order migration_type para = λ w.
      let stream = w.stream_id (tables.group_node group) in
      let first = if stream == 0 then order else stream in
      let next = λ (idx : ℕ).
        subscribe_at fuel item (add64 idx (as_int (w.item item).word2_0)) group nid lvl order
          migration_type para in
      let dim = get_item_dim (w.item item) in
      let of_item : Command Ptr =
        elim (item_to_idx_sparse fuel w.item (w.sparse_root (places.vnode dim)) item) [
          | none ↦ (λ v. exhausted)
          | some idx ↦ (if as_int (w.item item).word2_0 == 0 then give null else next idx)
        ] in
      (if item == null
          then subscribe_at fuel item first group nid lvl order migration_type para
          else of_item)
        w

  -- `forward_remove_group_stream`.
  unfoldable pub forward_remove_group_stream :
      ℕ → (nid migration_type order lvl dim : ℕ) → AllocPara → Command Ptr
  unfolding subscribe_group_sparse stream_group
  forward_remove_group_stream fuel nid migration_type order lvl dim para =
      subscribe_group_sparse fuel null
        (if para.is_entry then places.entity_group lvl else stream_group para dim lvl) nid lvl order
        migration_type para
