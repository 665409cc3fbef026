-- ===== src/Init/Example.antt =====
-- A node of 1000 items from address 65536, whose array ends at 90000, and the set-up of the entities.
use new_explorer_aios.Prelude.{◌+◌, ◌*◌, ◌/◌, ◌≡◌, refl, arith}
use new_explorer_aios.Group.World.{World, faults}
use new_explorer_aios.Group.Sample.{cells, empty_world}
use new_explorer_aios.Init.Blocks.{init_pnode_item}
use new_explorer_aios.Init.Blocks.Faults.{init_pnode_item-faults}
use new_explorer_aios.Group.World.{give}
use new_explorer_aios.Types.CountZeros.{count_zeros}
use new_explorer_aios.Group.Ensures.{Ensures}
use new_explorer_aios.Group.Free.Never.{Never}
use new_explorer_aios.Init.Nodes.{Frame, Arrangement, init_node}
use new_explorer_aios.Init.Nodes.Endless.{init_node-Never}

abbrev unlinked_world : World
unlinked_world = record empty_world { links = record { prev = λ p. 0; next = λ p. 0 } }

init_pnode_item-faults_example :
    init_pnode_item cells 0 65536 4096000 2 0 90000 unlinked_world ≡ faults
init_pnode_item-faults_example =
    init_pnode_item-faults cells 0 65536 4096000 2 0 90000 unlinked_world (omega arith)
      (omega arith) (omega arith) (λ k. refl)

abbrev frame : Frame
frame = record {
  node_link = λ p. p + 16;
  itemarray = λ p. p + 40;
  grouparray = λ p. p + 120;
  lru_cells = λ p order. p + 200 + 24 * order;
  pnode_id = λ p. p / 1000;
  vnode_id = λ p. p / 1000;
  group_at = λ groups lvl. groups + lvl;
  group_bytes = 500;
}

abbrev nothing_arranged : Arrangement
nothing_arranged = record {
  regions = record { linear = λ i. 0; items = λ i. 0; items_of = λ i. 0; items_end = λ i. 0 };
  group_lvl = λ i. 0;
  group_order = λ i. 0;
}

-- The 256 nodes of each kind, with slices that give nothing.
init_node-Never_example : Ensures Never (
    init_node cells frame count_zeros 256
      (λ i. 50000 + i)
      (λ slice. give 0)
      1
      (0, 0)
      (λ lvl. lvl)
      500
      nothing_arranged
      empty_world)
init_node-Never_example =
    init_node-Never cells frame count_zeros 256 (λ i. 50000 + i) (λ slice. give 0) 1 (0, 0)
      (λ lvl. lvl) 500 nothing_arranged empty_world
