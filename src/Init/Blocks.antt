-- ===== src/Init/Blocks.antt =====
-- `__init_item_pernode`, `__init_pnode_item` and `update_pnode` of source/tensor_init.c, with neither
-- DOWN_GROW nor RESERVED_MEMBASE defined. Without a reserved range every block is movable.
pub mod Faults
use new_explorer_aios.Prelude.{
  ℕ, zero, suc, ◌+◌, ◌-◌, ◌*◌, ◌/◌, ◌%◌, ◌^◌, min, Bool, not, ◌&&◌, ◌||◌, bit_and, ltb, leb, ◌==◌,
  if◌then◌else◌,
}
use new_explorer_aios.Bits.Word.{word_mod, add64, sub64}
use new_explorer_aios.Macros.{bit}
use new_explorer_aios.Types.{store, round_up, fls}
use new_explorer_aios.Struct.Sizes
use new_explorer_aios.Struct.Enums
use new_explorer_aios.Struct.Item.{ItemStruct, item_bytes}
use new_explorer_aios.Flags.{set_item_order, set_item_node}
use new_explorer_aios.Convert.{range_to_idx}
use new_explorer_aios.Links.Memory.{Ptr, null}
use new_explorer_aios.Links.{init_list_node, list_add_tail}
use new_explorer_aios.Group.World.{
  World, Layout, returns, faults, Command, give, ◌>>=◌, ◌>>◌, on_links, edit, increment, as_int,
}
use new_explorer_aios.Group.Free.{item_plus}
use new_explorer_aios.Init.{init_linear_space, init_item, update_vnode}
use new_explorer_aios.Locate.{elements_from}

-- The arrays by the number of a node: `phy_init_linear_ptr`, `phy_item_struct`, `phy_item_struct_of`
-- and `phy_item_struct_end`.
pub record Regions : Type 0 where
  pub linear : ℕ → ℕ
  pub items : ℕ → Ptr
  pub items_of : ℕ → Ptr
  pub items_end : ℕ → Ptr

-- The loop of `__init_item_pernode`, over `rounds` items from an item on.
unfoldable pub init_items : ℕ → Ptr → Command (Unit {0})
unfolding item_plus init_item
init_items zero item = give tt
init_items (suc rounds) item = do
  on_links (init_list_node item)
  edit item init_item
  init_items rounds (item_plus item 1)

-- The number of items of a size, `BIT(fls(size) - 1 - GROUP_ORDER_NUM_SHIFT)` in an `int`. C leaves
-- the shift undefined for a size below 2^12, taken as one by 0 here.
unfoldable pub node_items : (clzl : ℕ → ℕ) (size : ℕ) → ℕ
unfolding as_int bit fls
node_items clzl size = as_int (bit (fls clzl size - 1 - Sizes.group_order_num_shift))

-- An array set where it has none.
unfoldable pub if_unset : (ℕ → Ptr) → ℕ → Ptr → ℕ → Ptr
unfolding store
if_unset array pid p = if array pid == null then store array pid p else array

-- `__init_item_pernode`, with the arrays.
unfoldable pub init_item_pernode : (clzl : ℕ → ℕ) (pid size : ℕ) → Regions → Command Regions
unfolding init_items node_items if_unset init_linear_space store round_up elements_from item_plus
init_item_pernode clzl pid size regions =
    let item_size = item_bytes * node_items clzl size % word_mod in
    let space = init_linear_space pid item_size regions.linear in
    let after : Regions = record {
      linear = space.1;
      items = if_unset regions.items pid space.0;
      items_of = if_unset regions.items_of pid (
          round_up (Sizes.node_reserved_range_size + Sizes.node_reserved_range_base)
            Sizes.fixed_item_size);
      items_end = store regions.items_end pid (add64 space.0 item_size);
    } in
    let index = as_int (elements_from item_bytes space.0 (after.items pid)) in
    if size == 0
    then give regions
    else (do init_items (node_items clzl size) (item_plus (after.items pid) index); give after)

-- The variables of `__init_pnode_item`: `phy_group_lvl[pid]`, `phy_group_order[pid]`,
-- `rel_pa_offset` and `item_start`.
pub record Filling : Type 0 where
  pub first_lvl : ℕ
  pub first_order : ℕ
  pub left : ℕ
  pub start : Ptr

-- The shift of a level, which can be -1.
unfoldable pub block_shift : (lvl : ℕ) → ℕ
block_shift lvl =
    if lvl == word_mod - 1 then 36 else Sizes.function_item_lvl Sizes.group_order_num_shift lvl

-- The number of items in `i` blocks.
unfoldable pub blocks_size : (block_size order i : ℕ) → ℕ
unfolding bit as_int
blocks_size block_size order i = as_int (i * block_size) * bit order % word_mod

module _ (layout : Layout) (pid : ℕ) where
  -- Block `i` before `start`. The source gives the arguments of `list_add_tail` in the other order than
  -- it takes them: the block is the list, and the head of the free list the new node.
  unfoldable pub place_block : (group block_size order i : ℕ) → (start : Ptr) → Command Ptr
  unfolding item_plus blocks_size
  place_block group block_size order i start =
      let item = item_plus start (sub64 0 (blocks_size block_size order i)) in
      (do
        edit item (λ j. set_item_node (set_item_order j order) pid)
        on_links (list_add_tail item (layout.free_cell group Enums.migration_movable order))
        increment group Enums.migration_movable order
        give item)

  -- The loop over the blocks of an order: the last one placed.
  unfoldable pub place_blocks : ℕ → (group block_size order : ℕ) → (start item : Ptr) → Command Ptr
  unfolding place_block
  place_blocks zero group block_size order start item = give item
  place_blocks (suc i) group block_size order start item = do
    block ← place_block group block_size order (suc i) start
    place_blocks i group block_size order start block

  -- The loop over the orders, down to 0.
  unfoldable pub fill_orders : ℕ → (group lvl block_size : ℕ) → Filling → Command Filling
  unfolding place_blocks bit as_int
  fill_orders zero group lvl block_size f = give f
  fill_orders (suc order) group lvl block_size f =
      let blocks = f.left / (block_size * bit order) in
      let first_order =
        if lvl == f.first_lvl && f.first_order == 0
        then min (order + 1) Sizes.group_order_num_shift
        else f.first_order in
      let rest = fill_orders order group lvl block_size in
      if blocks == 0 then rest f else (do
        last ← place_blocks blocks group block_size order f.start f.start
        rest (record f {
          first_order = first_order;
          left = as_int (sub64 f.left (blocks * block_size * bit order % word_mod));
          start = last;
        }))

  -- The orders of a level.
  unfoldable pub fill_level : (lvl : ℕ) → Filling → Command Filling
  unfolding fill_orders block_shift bit as_int
  fill_level lvl f =
      fill_orders (Sizes.max_item_order + 1) (layout.group_lvl lvl pid) lvl
        (as_int (bit (block_shift lvl))) f

  -- The loop over the levels. A block size of 0, at level -1, is a division by 0.
  unfoldable pub fill_levels : ℕ → (offset lvl : ℕ) → Filling → Command Filling
  unfolding fill_level block_shift bit as_int range_to_idx
  fill_levels zero offset lvl f = give f
  fill_levels (suc rounds) offset lvl f =
      let block_size = as_int (bit (block_shift lvl)) in
      let rest = fill_levels rounds offset (add64 lvl 1) in
      let filled = (do g ← fill_level lvl f; (if g.left == 0 then give g else rest g)) in
      if leb (2 ^ 63) f.left || ltb f.left block_size
      then rest f
      else if not (bit_and (range_to_idx offset) (sub64 block_size 1) == 0)
      then rest (record f { first_lvl = add64 f.first_lvl 1 })
      else if block_size == 0
      then (λ w. faults)
      else filled

  -- `__init_pnode_item` of a node that starts at `offset`.
  unfoldable pub init_pnode_item :
      (offset base_size first_lvl first_order : ℕ) → (item_end : Ptr) → Command Filling
  unfolding fill_levels as_int
  init_pnode_item offset base_size first_lvl first_order item_end =
      fill_levels (if first_lvl == word_mod - 1 then 5 else Sizes.group_lvl_num - first_lvl) offset
        first_lvl
        (record {
          first_lvl = first_lvl;
          first_order = first_order;
          left = as_int (base_size / Sizes.fixed_item_size);
          start = item_end;
        })

  -- `update_pnode` of the node at an address: the arrays, the numbers of the groups, and what
  -- `__init_pnode_item` leaves.
  unfoldable pub update_pnode :
      (clzl : ℕ → ℕ) (self : Ptr)
      → (group_id : ℕ → ℕ) → (size first_lvl first_order : ℕ) → Regions
      → Command (Regions × (ℕ → ℕ) × Filling)
  unfolding init_item_pernode init_pnode_item update_vnode
  update_pnode clzl self group_id size first_lvl first_order regions = do
    after ← init_item_pernode clzl pid size regions
    offset ← (λ w. returns (w.attr self).offset w)
    filling ← init_pnode_item offset size first_lvl first_order (after.items_end pid)
    (λ w.
        returns (after, (update_vnode group_id (w.attr self) size).0, filling)
          (record w {
            attr =
                λ p. if p == self then (update_vnode group_id (w.attr self) size).1 else w.attr p;
          }))
