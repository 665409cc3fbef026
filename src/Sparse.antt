-- ===== src/Sparse.antt =====
-- The tables of sparse items, source/tensor.c: tables come from the slices of a node, hang in a tree by the
-- words `next` and `prev` of their items, and `forward_remove_group_sparse` takes a block from them. Its
-- call of itself lacks an argument and is read as the same request once more; `slice_free` is an
-- operation of the node.
pub mod Down
pub mod Stream
pub mod Free
pub mod Operations
mod Example
use new_explorer_aios.Prelude.{
  ℕ, zero, suc, ◌+◌, ◌-◌, ◌*◌, Bool, true, false, not, ◌&&◌, ◌==◌, if◌then◌else◌,
}
use new_explorer_aios.Bits.Word.{sub64}
use new_explorer_aios.Macros.{bit}
use new_explorer_aios.Types.{round_down}
use new_explorer_aios.Struct.Sizes
use new_explorer_aios.Struct.Item.{ItemStruct, item_bytes}
use new_explorer_aios.Flags.{
  set_item_freeidx, clear_item_freeidx, clear_item_present, set_item_present, set_item_order,
  clear_item_order, get_item_order, set_item_section, clear_item_section, get_item_section,
  set_item_node, clear_item_node,
}
use new_explorer_aios.Init.{init_item}
use new_explorer_aios.Locate.{range_base_transform, range_transform_base}
use new_explorer_aios.Links.Memory.{Ptr, null}
use new_explorer_aios.Links.{list_add_tail, list_clear_node, list_del}
use new_explorer_aios.Group.World.{
  World, Layout, Outcome, returns, faults, exhausted, Command, give, ◌>>=◌, ◌>>◌, on_links, edit,
  increment, decrement,
}
use new_explorer_aios.Group.Compound.{fetch}
use new_explorer_aios.Group.Table.{
  table_group, sparse_table_free, refill_sparse_table, remove_sparse_table,
}
use new_explorer_aios.Group.Remove.{remove_group_migration}

-- A change of an item through its pointer.
unfoldable pub through : Ptr → (ItemStruct → ItemStruct) → Command (Unit {0})
unfolding fetch
through p f = do fetch p; edit p f

-- What the tables need of the nodes: the slice of a node's tables, `slice_alloc` and `slice_free`, which
-- give NULL and `false` with a status other than NO_ERROR, and the node of a group.
pub record Tables : Type 0 where
  pub slice_alloc : Ptr → Command Ptr
  pub slice_free : ℕ → Command Bool
  pub item_slice : Ptr → Ptr
  pub group_node : ℕ → Ptr
  pub vgroup_lvl : ℕ → ℕ → ℕ

-- The root of the sparse items of a node.
unfoldable pub set_root : Ptr → Ptr → Command (Unit {0})
set_root node root w =
    returns tt (record w { sparse_root = λ p. if p == node then root else w.sparse_root p })

module _ (layout : Layout) (tables : Tables) where
  -- `new_group_slice`. The level is an `int`, 0 for the top.
  unfoldable pub new_group_slice : (node : Ptr) → (lvl : ℕ) → Command Ptr
  unfolding through set_root range_base_transform
  new_group_slice node lvl =
      let ready = λ (item : Ptr). (do
        on_links (list_clear_node item)
        through item init_item
        (λ w. (if lvl == 0 && w.sparse_root node == null then set_root node item else give tt) w)
        give item) in
      (do
        item ← tables.slice_alloc (tables.item_slice node)
        (if item == null then give null else ready (range_base_transform item)))

  unfoldable pub delete_group_slice : (group lvl : ℕ) → Ptr → Command (Unit {0})
  unfolding set_root range_transform_base
  delete_group_slice group lvl item =
      let node = tables.group_node group in
      (do
        freed ← tables.slice_free (range_transform_base item)
        (λ w.
            (if freed && lvl == 0 && not (w.sparse_root node == null)
                then set_root node null
                else give tt)
              w))

  -- `new_group_root`, for NULL or an item.
  unfoldable pub new_group_root : (group : ℕ) → Ptr → (lvl migration_type : ℕ) → Command Ptr
  unfolding new_group_slice
  new_group_root group item lvl migration_type = do
    table ← (if item == null then new_group_slice (tables.group_node group) lvl else give item)
    (if table == null then give null else (do
      on_links (list_add_tail (layout.free_cell group migration_type Sizes.max_item_range) table)
      increment group migration_type Sizes.max_item_range
      give table))

  unfoldable pub delete_group_root :
      (group : ℕ) → Ptr → (lvl migration_type : ℕ) → Command (Unit {0})
  unfolding delete_group_slice through fetch
  delete_group_root group item lvl migration_type = do
    on_links (list_del item)
    decrement group migration_type Sizes.max_item_range
    i ← fetch item
    through i.word1_1 clear_item_freeidx
    through i.word1_1 (λ j. record j { word1_0 = null })
    edit item (λ j. record j { word1_1 = null })
    delete_group_slice group lvl item

  -- `sparse_table_free` through a pointer.
  unfoldable pub free_index : Ptr → (order : ℕ) → Command Bool
  unfolding sparse_table_free fetch
  free_index item order = do
    i ← fetch item
    edit item (λ j. (sparse_table_free j order).0)
    give (sparse_table_free i order).1

  module _ (migration_type vnu nu : ℕ) (is_virtual : Bool) where
    -- `merge_group_sparse_table`: tables without an index left leave the free list, from below up.
    unfoldable pub merge_group_sparse_table : ℕ → Ptr → (order level : ℕ) → Command (Unit {0})
    unfolding free_index remove_sparse_table fetch
    merge_group_sparse_table zero item order level = λ w. exhausted
    merge_group_sparse_table (suc fuel) item order level =
        let up = λ (above : Ptr). merge_group_sparse_table fuel above 0 (sub64 level 1) in
        let used = (do
          left ← free_index item order
          (if left then give tt else (do
            remove_sparse_table layout tables.vgroup_lvl item (sub64 level 1) migration_type vnu nu
                is_virtual
            i ← fetch item
            up i.word1_1))) in
        if item == null then give tt else used

    unfoldable pub refill_group_sparse_table : Ptr → (order level : ℕ) → Command (Unit {0})
    unfolding free_index refill_sparse_table
    refill_group_sparse_table item order level = do
      left ← free_index item order
      (if left
          then refill_sparse_table layout tables.vgroup_lvl item (sub64 level 1) migration_type vnu
              nu is_virtual
          else give tt)

    -- The group of a level.
    unfoldable pub group_of : ℕ → ℕ
    unfolding table_group
    group_of level = table_group layout tables.vgroup_lvl level vnu nu is_virtual

    -- A block found at the level that was asked for. The tables are taken to start at multiples of
    -- their size.
    unfoldable pub found_block : ℕ → Ptr → (order level : ℕ) → Command Ptr
    unfolding merge_group_sparse_table through fetch bit round_down
    found_block fuel item order level =
        let itemarray = round_down item (item_bytes * bit (Sizes.max_item_range + 1)) in
        (do
          array ← fetch itemarray
          through item (λ j. record j { word1_1 = array.word1_1 })
          merge_group_sparse_table fuel array.word1_1 order level
          give item)

    -- One level of the way down from a table found above. `temp` is what the variable holds before.
    unfoldable pub down_step : ℕ → (item temp : Ptr) → (order level lvl : ℕ) → Command Ptr
    unfolding new_group_root remove_group_migration refill_group_sparse_table group_of through fetch
        bit
    down_step fuel item temp order level lvl =
        let curr_order = if level == lvl then order else 0 in
        let finish = λ (t : Ptr). (do
          through t (λ j. record j { word1_1 = item })
          refill_group_sparse_table item curr_order level
          give t) in
        let fresh = (do
          root ← new_group_root (group_of level) null level migration_type
          (if root == null then give null else (do
            through item (λ j. record j { word1_0 = root })
            through item (λ j. set_item_freeidx j (bit (Sizes.max_item_range + 1)))
            through root (λ j. record j { word1_1 = item })
            block ←
                remove_group_migration fuel layout (group_of level) level curr_order migration_type
                  (not (level == lvl))
            finish block))) in
        (do
          i ← fetch item
          (if i.word1_0 == null
              then (do
                array ← fetch i.word1_0
                (if array.word1_1 == null then fresh else finish temp))
              else (do array ← fetch i.word1_0; finish temp)))

    -- The levels below, `rounds` of them. A table that could not be made ends the search with NULL.
    unfoldable pub down_loop : ℕ → ℕ → (item temp : Ptr) → (order level lvl : ℕ) → Command Ptr
    unfolding down_step
    down_loop zero fuel item temp order level lvl = give item
    down_loop (suc rounds) fuel item temp order level lvl = do
      block ← down_step fuel item temp order level lvl
      (if block == null then give null else down_loop rounds fuel block block order (level + 1) lvl)

    -- The search from level `lvl` upwards, `level` levels of it: what is found and where, NULL where
    -- nothing is.
    unfoldable pub search_levels : ℕ → (level order_index lvl : ℕ) → Command (Ptr × ℕ)
    unfolding remove_group_migration group_of
    search_levels fuel zero order_index lvl = give (null, 0)
    search_levels fuel (suc level) order_index lvl =
        let rest = search_levels fuel level 0 lvl in
        (do
          item ←
              remove_group_migration fuel layout (group_of level) level order_index migration_type
                (not (level == lvl))
          (if item == null then rest else give (item, level)))

    -- `forward_remove_group_sparse`. A new table is made for the level -1, which is where the search
    -- ends, in the group of level 0. `unset` is what a variable holds before.
    unfoldable pub forward_remove_group_sparse : ℕ → (unset : Ptr) → (lvl order : ℕ) → Command Ptr
    unfolding search_levels found_block down_loop new_group_root
    forward_remove_group_sparse zero unset lvl order = λ w. exhausted
    forward_remove_group_sparse (suc fuel) unset lvl order =
        let again = forward_remove_group_sparse fuel unset lvl order in
        let new_table = (do
          root ← new_group_root (group_of 0) null (sub64 0 1) migration_type
          (if root == null then give null else again)) in
        (do
          found ← search_levels (suc fuel) (lvl + 1) order lvl
          (if found.0 == null
              then new_table
              else if found.1 == lvl
              then found_block (suc fuel) found.0 order lvl
              else down_loop (lvl - found.1) (suc fuel) found.0 unset order (found.1 + 1) lvl))

  -- `forward_remove_group_prior`, whose item is a variable that nothing was stored in. `entity_group` leads to
  -- the groups of the entities.
  unfoldable pub forward_remove_group_prior :
      (entity_group : ℕ → ℕ) → (unset : Ptr) → (node_id lvl migration_type order : ℕ) → Command Ptr
  unfolding through fetch
  forward_remove_group_prior entity_group unset node_id lvl migration_type order = do
    on_links (list_add_tail (layout.free_cell (entity_group lvl) migration_type order) unset)
    increment (entity_group lvl) migration_type order
    through unset (λ i.
        set_item_node (set_item_section (set_item_order (set_item_present i) order) lvl) node_id)
    give unset

  unfoldable pub dequeue_group_prior :
      (entity_group : ℕ → ℕ) → Ptr → (migration_type : ℕ) → Command (Unit {0})
  unfolding through fetch
  dequeue_group_prior entity_group item migration_type = do
    i ← fetch item
    on_links (list_del item)
    decrement (entity_group (get_item_section i)) migration_type (get_item_order i)
    edit item (λ j. clear_item_node (clear_item_section (clear_item_order (clear_item_present j))))
