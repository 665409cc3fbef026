-- ===== src/Node/Budget.antt =====
-- Whether a request can be served, source/tensor.c: `budget_sufficient` and
-- `preprocess_node_struct_alloc`. The calls of `node_budget` there lack the dimension, read as `dim`.
pub mod Sum
use new_explorer_aios.Prelude.{
  ℕ, zero, suc, ◌+◌, ◌-◌, ◌*◌, ◌^◌, Bool, true, false, not, ◌||◌, Option, none, some, ltb, leb,
  ◌==◌, if◌then◌else◌,
}
use new_explorer_aios.Bits.Word.{sub64}
use new_explorer_aios.Macros.{bit}
use new_explorer_aios.Errors.{err_invalid_args}
use new_explorer_aios.Struct.Sizes
use new_explorer_aios.Struct.Enums
use new_explorer_aios.Convert.{item_to_order, item_to_orders}
use new_explorer_aios.Locate.{get_pnode_num}
use new_explorer_aios.Group.World.{World}
use new_explorer_aios.Group.{node_budget}
use new_explorer_aios.Group.Sequence.{signed_lt}
use new_explorer_aios.Group.Remove.{current_node}
use new_explorer_aios.Node.Replies.{Reply, reply, error}
use new_explorer_aios.Node.Shared.{Setting}

module _ (setting : Setting) (w : World) where
  -- The free items that the node `nu` is thought to have.
  unfoldable pub free_items : ℕ → ℕ
  unfolding get_pnode_num
  free_items nu = (w.attr (get_pnode_num setting.layout.arrays nu)).nr_freeitems

  -- The loop over `rounds` nodes from `nu`: what is still wanted, `none` once that is below 0.
  unfoldable pub wanted_loop : ℕ → (nu nitems : ℕ) → Option ℕ
  unfolding free_items
  wanted_loop zero nu nitems = some nitems
  wanted_loop (suc rounds) nu nitems =
      let left = sub64 nitems (free_items nu) in
      let rest = wanted_loop rounds (nu + 1) left in if leb (2 ^ 63) left then none else rest

  -- The budget of the current node of a dimension.
  unfoldable pub current_budget : (migration_type dim : ℕ) → ℕ
  unfolding current_node
  current_budget migration_type dim =
      let nu = current_node setting.layout dim in
      node_budget setting.layout w.free_count nu (setting.layout.phy_group_lvl nu) migration_type

  -- What is there besides the free items of the nodes. The LRU count is that of the last node.
  unfoldable pub remaining_nitem : (migration_type dim : ℕ) → ℕ
  unfolding current_budget get_pnode_num
  remaining_nitem migration_type dim =
      if migration_type == Enums.migration_lrutype
      then w.lru_count (
          get_pnode_num setting.layout.arrays (dim * Sizes.node_lvl_num + (Sizes.node_lvl_num - 1)))
      else if migration_type == Enums.migration_unmovable
      then current_budget migration_type dim
      else 0

  -- `budget_sufficient`.
  unfoldable pub budget_sufficient : (nitems migration_type dim : ℕ) → Bool
  unfolding wanted_loop remaining_nitem signed_lt
  budget_sufficient nitems migration_type dim =
      elim (wanted_loop Sizes.node_lvl_num (dim * Sizes.node_lvl_num) nitems) [
        | none ↦ true
        | some left ↦ not (signed_lt (remaining_nitem migration_type dim) left)
      ]

  -- `preprocess_node_struct_alloc`. In the case of reserved items the `break` in the loop over the levels
  -- ends that loop only, so the loop has no effect.
  unfoldable pub preprocess_node_struct_alloc : (flags nitems migration_type dim : ℕ) → Reply ℕ
  unfolding current_budget bit item_to_order item_to_orders
  preprocess_node_struct_alloc flags nitems migration_type dim =
      let budget = current_budget migration_type dim in
      let left = (item_to_orders setting.clzl nitems).1 in
      if flags == Enums.func_physical_reserved
      then if nitems == budget || left == 0 then reply nitems else error err_invalid_args
      else if flags == Enums.func_physical_debug
      then if ltb Sizes.unmov_max_items budget
          || ltb Sizes.unmov_max_items nitems
          || not (left == 0)
        then error err_invalid_args
        else reply nitems
      else if flags == Enums.func_physical_cont
          || flags == Enums.func_physical_mmu
          || flags == Enums.func_physical_object
          || flags == Enums.func_physical_stream
          || flags == Enums.func_virtual
          || flags == Enums.func_virtual_stream
      then reply (bit (item_to_order setting.clzl nitems).0)
      else reply nitems
