-- ===== src/Init/Nodes/Endless.antt =====
-- The set-up of all nodes.
use new_explorer_aios.Prelude.{ℕ}
use new_explorer_aios.Links.Memory.{Ptr}
use new_explorer_aios.Group.World.{World, Layout, Command}
use new_explorer_aios.Group.Ensures.{Ensures, Ensures-continue, Ensures-any, Ensures-faults}
use new_explorer_aios.Group.Free.Never.{Never}
use new_explorer_aios.Locate.{get_pnode_num}
use new_explorer_aios.Init.Entity.{init_entity_node}
use new_explorer_aios.Init.Entity.Faults.{init_entity_node-faults}
use new_explorer_aios.Init.Nodes.{Frame, Arrangement, init_pnodes, init_vnodes, init_node}

-- The set-up of all nodes never returns: not in any world, for any number of nodes, whatever the
-- slices give, since what comes last, the set-up of the entities, goes through NULL.
pub init_node-Never :
    (layout : Layout) (frame : Frame) (clzl : ℕ → ℕ) (nodes : ℕ) (groups : ℕ → Ptr)
    (slice_alloc : Ptr → Command Ptr) (bit_64 : ℕ) (before : ℕ × ℕ) (entity_group : ℕ → ℕ)
    (entity_slice : Ptr) (arrays : Arrangement) (w : World)
    → Ensures Never (
        init_node layout frame clzl nodes groups slice_alloc bit_64 before entity_group entity_slice
          arrays w)
unfolding init_node
init_node-Never layout frame clzl nodes groups slice_alloc bit_64 before entity_group entity_slice
      arrays w =
    let pnode_link = λ (i : ℕ). frame.node_link (get_pnode_num layout.arrays i) in
    Ensures-continue (λ _ _. Unit) Never
      (init_pnodes layout frame clzl nodes groups 0 0 before arrays w) _ (Ensures-any _)
      (λ done v _.
        Ensures-continue (λ _ _. Unit) Never
          (init_vnodes layout frame clzl nodes slice_alloc bit_64 0 0 (done.1, done.2) done.0 v) _
          (Ensures-any _)
          (λ a u _.
            Ensures-faults Never (init_entity_node layout entity_group entity_slice pnode_link u)
              (init_entity_node-faults layout entity_group entity_slice pnode_link u)))
