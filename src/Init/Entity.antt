-- ===== src/Init/Entity.antt =====
-- `init_entity_node` of source/tensor_init.c: the groups of the entities, and the nodes as their blocks.
-- The pointers between a node and its groups are not kept.
pub mod Faults
use new_explorer_aios.Prelude.{ℕ, zero, suc, ◌+◌, ◌*◌, ◌==◌, if◌then◌else◌}
use new_explorer_aios.Macros.{bit}
use new_explorer_aios.Struct.Sizes
use new_explorer_aios.Struct.Enums
use new_explorer_aios.Struct.Item.{item_bytes}
use new_explorer_aios.Links.Memory.{Ptr}
use new_explorer_aios.Links.{list_add_tail}
use new_explorer_aios.Group.World.{
  World, Layout, returns, Command, give, ◌>>=◌, ◌>>◌, on_links, increment,
}
use new_explorer_aios.Init.{init_free_group_list, init_slice}

-- `__init_slice` of the slice at an address.
unfoldable pub init_slice_at : (slice_at : Ptr) → Command (Unit {0})
unfolding init_slice bit
init_slice_at slice_at = do
  slice ← (λ w.
      on_links (init_slice (w.slice slice_at) (item_bytes * bit (Sizes.max_item_range + 1)) 64) w)
  (λ w. returns tt (record w { slice = λ p. if p == slice_at then slice else w.slice p }))

module _ (layout : Layout) where
  -- `__init_free_group_list` of a group, with its counts in the world.
  unfoldable pub init_group : (group : ℕ) → Command (Unit {0})
  unfolding init_free_group_list
  init_group group = do
    rows ← (λ w. on_links (init_free_group_list (layout.free_cell group) (w.free_count group)) w)
    (λ w. returns tt (record w { free_count = λ g. if g == group then rows else w.free_count g }))

  -- The loop over the levels, from `lvl`.
  unfoldable pub init_groups : ℕ → (entity_group : ℕ → ℕ) → (lvl : ℕ) → Command (Unit {0})
  unfolding init_group
  init_groups zero entity_group lvl = give tt
  init_groups (suc rounds) entity_group lvl = do
    init_group (entity_group lvl)
    init_groups rounds entity_group (lvl + 1)

  -- The loop over the physical nodes, from node `i`, with `pnode_link i` the links of a node.
  unfoldable pub add_nodes : ℕ → (group : ℕ) → (pnode_link : ℕ → Ptr) → (i : ℕ) → Command (Unit {0})
  add_nodes zero group pnode_link i = give tt
  add_nodes (suc rounds) group pnode_link i = do
    on_links (list_add_tail (layout.free_cell group Enums.migration_movable 0) (pnode_link i))
    increment group Enums.migration_movable 0
    add_nodes rounds group pnode_link (i + 1)

  -- The loop as a whole.
  unfoldable pub join_nodes : (group : ℕ) → (pnode_link : ℕ → Ptr) → Command (Unit {0})
  unfolding add_nodes
  join_nodes group pnode_link = add_nodes Sizes.pnode_num group pnode_link 0

  -- `init_entity_node`, with the slice of the entities' tables at `slice_at`.
  unfoldable pub init_entity_node :
      (entity_group : ℕ → ℕ) → (slice_at : Ptr) → (pnode_link : ℕ → Ptr) → Command (Unit {0})
  unfolding init_groups init_slice_at join_nodes
  init_entity_node entity_group slice_at pnode_link = do
    init_groups Sizes.group_lvl_num entity_group 0
    init_slice_at slice_at
    join_nodes (entity_group 0) pnode_link
