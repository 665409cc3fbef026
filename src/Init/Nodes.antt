-- ===== src/Init/Nodes.antt =====
-- `__init_node`, `__init_group_pernode`, `init_pnode`, `init_vnode`, `stream_window` and `init_node` of
-- source/tensor_init.c. The locks, the tables of functions and the pointers between a node and its
-- groups are not kept. The call of `__init_group_pernode` in `init_vnode` lacks the size and is read
-- with that of the node.
pub mod Endless
use new_explorer_aios.Prelude.{
  ℕ, zero, suc, ◌+◌, ◌-◌, ◌*◌, ◌/◌, Bool, true, false, Option, none, some, ◌==◌, if◌then◌else◌,
}
use new_explorer_aios.Bits.Word.{word_mod}
use new_explorer_aios.Macros.{bit}
use new_explorer_aios.Types.{store}
use new_explorer_aios.Errors.{no_error}
use new_explorer_aios.Struct.Sizes
use new_explorer_aios.Struct.Enums
use new_explorer_aios.Struct.Item.{item_bytes}
use new_explorer_aios.Struct.Node.{GroupAttr}
use new_explorer_aios.Convert.{nitems_to_lvl}
use new_explorer_aios.Locate.{get_pnode_num, range_base_transform}
use new_explorer_aios.Links.Memory.{Ptr, null}
use new_explorer_aios.Links.{init_list_node}
use new_explorer_aios.Group.World.{World, Layout, Command, returns, give, ◌>>=◌, ◌>>◌, on_links}
use new_explorer_aios.Init.{
  init_slice, init_free_node_list, init_group_attr, init_node_id, get_pnode_of, get_vnode_of,
  update_vnode,
}
use new_explorer_aios.Init.Blocks.{
  Regions, Filling, init_item_pernode, init_pnode_item, update_pnode,
}
use new_explorer_aios.Init.Entity.{init_groups, init_entity_node}

-- Where the parts of a node stand: its links, its two slices and the heads of its LRU list; the number
-- of a node at an address, physical or virtual; and the group of a level for the groups at an address.
-- `group_bytes` is the size of `struct group_struct`.
pub record Frame : Type 0 where
  pub node_link : Ptr → Ptr
  pub itemarray : Ptr → Ptr
  pub grouparray : Ptr → Ptr
  pub lru_cells : Ptr → ℕ → Ptr
  pub pnode_id : Ptr → ℕ
  pub vnode_id : Ptr → ℕ
  pub group_at : Ptr → ℕ → ℕ
  pub group_bytes : ℕ

-- The arrays by the number of a node: those of the items, `phy_group_lvl` and `phy_group_order`.
pub record Arrangement : Type 0 where
  pub regions : Regions
  pub group_lvl : ℕ → ℕ
  pub group_order : ℕ → ℕ

-- A change of the attributes of a node.
unfoldable pub put_attr : Ptr → (GroupAttr → GroupAttr) → Command (Unit {0})
put_attr node f w =
    returns tt (record w { attr = λ p. if p == node then f (w.attr p) else w.attr p })

-- `__init_slice` of the slice at an address.
unfoldable pub init_slice_of : (slice_at : Ptr) → (bsize : ℕ) → Command (Unit {0})
unfolding init_slice
init_slice_of slice_at bsize = do
  slice ← (λ w. on_links (init_slice (w.slice slice_at) bsize 64) w)
  (λ w. returns tt (record w { slice = λ p. if p == slice_at then slice else w.slice p }))

-- `__init_free_node_list`, with the count of the running processor, number 0.
unfoldable pub init_lru : (Ptr → ℕ → Ptr) → (self : Ptr) → Command (Unit {0})
unfolding init_free_node_list
init_lru lru_cells self = do
  counts ← (λ w. on_links (init_free_node_list (lru_cells self) (λ o. w.lru_count self)) w)
  (λ w. returns tt (record w { lru_count = λ p. if p == self then counts 0 else w.lru_count p }))

-- `phy_group_lvl` of a number of items, -1 where there is none.
unfoldable pub level_of_items : (nitems : ℕ) → ℕ
level_of_items nitems = elim ((nitems_to_lvl nitems false).0) [
  | none ↦ word_mod - 1
  | some lvl ↦ lvl
]

module _ (layout : Layout) (frame : Frame) (clzl : ℕ → ℕ) where
  -- `__init_node`, with the number that the node gets.
  unfoldable pub init_node_fields :
      (self : Ptr) → (range size : ℕ) → (is_virtual : Bool) → Command ℕ
  unfolding init_slice_of init_lru put_attr init_group_attr bit
  init_node_fields self range size is_virtual = do
    on_links (init_list_node (frame.node_link self))
    (λ w. returns tt (record w {
      stream_id = λ p.
          if p == self
          then Sizes.node_reserved_range_size / Sizes.fixed_item_size
          else w.stream_id p;
    }))
    (if is_virtual
        then (do
          init_slice_of (frame.itemarray self) (item_bytes * bit (Sizes.max_item_range + 1))
          init_slice_of (frame.grouparray self) (frame.group_bytes * Sizes.group_lvl_num))
        else give tt)
    init_lru frame.lru_cells self
    put_attr self
        (λ a. init_group_attr a range size (size / Sizes.fixed_item_size) Enums.group_idle)
    give (if is_virtual then frame.vnode_id self else frame.pnode_id self)

  -- `__init_group_pernode` of the groups at an address.
  unfoldable pub init_group_pernode :
      (pid : ℕ)
      → (groups : Ptr) → (size : ℕ) → (is_virtual : Bool) → Arrangement
      → Command Arrangement
  unfolding level_of_items init_groups store
  init_group_pernode pid groups size is_virtual arrays = do
    init_groups layout Sizes.group_lvl_num (frame.group_at groups) 0
    give (
        if is_virtual then arrays else record arrays {
          group_lvl = store arrays.group_lvl pid (level_of_items (size / Sizes.fixed_item_size));
        })

  -- What `__init_pnode_item` leaves in the arrays.
  unfoldable pub filled : (pid : ℕ) → Arrangement → Filling → Arrangement
  unfolding store
  filled pid arrays f = record arrays {
    group_lvl = store arrays.group_lvl pid f.first_lvl;
    group_order = store arrays.group_order pid f.first_order;
  }

  -- `_init_pnode`, and so `init_pnode`. `groups` is `phy_group_struct[self->node_id]`.
  unfoldable pub init_pnode :
      (self : Ptr) → (groups : ℕ → Ptr) → (range size : ℕ) → Arrangement → Command Arrangement
  unfolding init_node_fields init_item_pernode init_group_pernode init_pnode_item filled
  init_pnode self groups range size arrays = do
    pid ← init_node_fields self range size false
    regions ← init_item_pernode clzl pid size arrays.regions
    arranged ← init_group_pernode pid (groups pid) size false (record arrays { regions = regions })
    offset ← (λ w. returns (w.attr self).offset w)
    filling ←
        init_pnode_item layout pid offset size (arranged.group_lvl pid) (arranged.group_order pid)
          (arranged.regions.items_end pid)
    give (filled pid arranged filling)

  -- `init_vnode`, with the slice allocation of the node, which gives NULL for a status other than
  -- NO_ERROR. For such a status the source returns NULL, which is NO_ERROR.
  unfoldable pub init_vnode :
      (slice_alloc : Ptr → Command Ptr) → (self : Ptr) → (range size : ℕ) → Arrangement → Command ℕ
  unfolding init_node_fields init_group_pernode range_base_transform
  init_vnode slice_alloc self range size arrays = do
    nu ← init_node_fields self range size true
    range_base ← slice_alloc (frame.grouparray self)
    (if range_base == null then give null else (do
      init_group_pernode nu (range_base_transform range_base) size true arrays
      give no_error))

  -- `node_struct_init` of source/tensor.c, with its status.
  unfoldable pub node_struct_init :
      (slice_alloc : Ptr → Command Ptr)
      → (self : Ptr) → (groups : ℕ → Ptr) → (range size : ℕ) → (is_virtual : Bool) → Arrangement
      → Command (ℕ × Arrangement)
  unfolding init_vnode init_pnode
  node_struct_init slice_alloc self groups range size is_virtual arrays =
      let virtual = (do
        status ← init_vnode slice_alloc self range size arrays
        give (status, arrays)) in
      let physical = (do
        after ← init_pnode self groups range size arrays
        give (no_error, after)) in
      if is_virtual then virtual else physical

  -- `stream_window`, for the node at an address with the numbers of its groups. `before` is what the
  -- variables hold where the dimension has no range.
  unfoldable pub stream_window :
      (self : Ptr)
      → (group_id : ℕ → ℕ) → (is_virtual : Bool) → (dim pid : ℕ) → (before : ℕ × ℕ) → Arrangement
      → Command ((ℕ → ℕ) × Arrangement)
  unfolding get_pnode_of put_attr update_vnode update_pnode filled
  stream_window self group_id is_virtual dim pid before arrays =
      let size = (get_pnode_of dim before).1 in
      let virtual : Command ((ℕ → ℕ) × Arrangement) = λ w.
        (let updated = update_vnode group_id (w.attr self) size in
          returns (updated.0, arrays)
            (record w { attr = λ p. if p == self then updated.1 else w.attr p })) in
      let physical = (do
        updated ←
            update_pnode layout pid clzl self group_id size (arrays.group_lvl pid)
              (arrays.group_order pid) arrays.regions
        give (updated.1, filled pid (record arrays { regions = updated.0 }) updated.2)) in
      if is_virtual then virtual else physical

  -- The node behind node `j` of dimension `i`.
  unfoldable pub next_node : (i j : ℕ) → ℕ × ℕ
  next_node i j = if j + 1 == Sizes.node_lvl_num then (i + 1, 0) else (i, j + 1)

  -- The loops of `init_node` over the physical nodes, from node `j` of dimension `i`. `before` is what the
  -- variables for the range and the size hold.
  unfoldable pub init_pnodes :
      ℕ
      → (groups : ℕ → Ptr) → (i j : ℕ) → (before : ℕ × ℕ) → Arrangement
      → Command (Arrangement × ℕ × ℕ)
  unfolding init_pnode init_node_id get_pnode_of put_attr get_pnode_num next_node
  init_pnodes zero groups i j before arrays = give (arrays, before.0, before.1)
  init_pnodes (suc rounds) groups i j before arrays =
      let node = get_pnode_num layout.arrays (init_node_id i j) in
      let here = get_pnode_of i before in
      (do
        after ← init_pnode node groups here.0 here.1 arrays
        put_attr node (λ a. record a { dim = i })
        init_pnodes rounds groups (next_node i j).0 (next_node i j).1 here after)

  -- The loops over the virtual nodes. `bit_64` is as in `get_vnode_of`.
  unfoldable pub init_vnodes :
      ℕ
      → (slice_alloc : Ptr → Command Ptr) → (bit_64 i j : ℕ) → (before : ℕ × ℕ) → Arrangement
      → Command (Unit {0})
  unfolding init_vnode init_node_id get_vnode_of put_attr next_node
  init_vnodes zero slice_alloc bit_64 i j before arrays = give tt
  init_vnodes (suc rounds) slice_alloc bit_64 i j before arrays =
      let node = layout.vnode_num (init_node_id i j) in
      let here = get_vnode_of bit_64 i before in
      (do
        init_vnode slice_alloc node here.0 here.1 arrays
        put_attr node (λ a. record a { dim = i })
        init_vnodes rounds slice_alloc bit_64 (next_node i j).0 (next_node i j).1 here arrays)

  -- `init_node`, over `nodes` nodes of each kind: NODE_DIM_NUM times NODE_LVL_NUM in the source.
  unfoldable pub init_node :
      (nodes : ℕ)
      → (groups : ℕ → Ptr) → (slice_alloc : Ptr → Command Ptr) → (bit_64 : ℕ) → (before : ℕ × ℕ)
      → (entity_group : ℕ → ℕ) → (entity_slice : Ptr) → Arrangement
      → Command (Unit {0})
  unfolding init_pnodes init_vnodes init_entity_node get_pnode_num
  init_node nodes groups slice_alloc bit_64 before entity_group entity_slice arrays = do
    done ← init_pnodes nodes groups 0 0 before arrays
    init_vnodes nodes slice_alloc bit_64 0 0 (done.1, done.2) done.0
    init_entity_node layout entity_group entity_slice
        (λ i. frame.node_link (get_pnode_num layout.arrays i))
