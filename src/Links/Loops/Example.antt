-- ===== src/Links/Loops/Example.antt =====
-- The loops over a ring of two nodes, with the sum of the addresses.
use new_explorer_aios.Prelude.{ℕ, ◌+◌, ◌≡◌, [], ◌∷◌, arith}
use new_explorer_aios.Links.Memory.{Ptr, Memory, done}
use new_explorer_aios.Links.Chain.{Ring}
use new_explorer_aios.Links.Loops.{list_for_every, list_for_each_node, list_for_every_safe}
use new_explorer_aios.Links.Loops.Visits.{looks, list_for_every-list_for_each_node}
use new_explorer_aios.Links.Loops.Clear.{deletes, list_for_every_safe-Ring}
use new_explorer_aios.Tests.{two_nodes, two_nodes-Ring}

abbrev plus : Ptr → ℕ → ℕ
plus p sum = sum + p

list_for_every-list_for_each_node_example :
    (list_for_every (looks plus two_nodes 10) 4 10 0 two_nodes ≡ done 50 two_nodes)
    × (list_for_each_node (looks plus two_nodes 10) 4 10 0 two_nodes ≡ done 50 two_nodes)
list_for_every-list_for_each_node_example =
    list_for_every-list_for_each_node plus two_nodes 10 (20 ∷ 30 ∷ []) 4 0 two_nodes-Ring
      (omega arith)

list_for_every_safe-Ring_example :
    (m' : Memory) × (list_for_every_safe (deletes plus 10) 3 10 0 two_nodes ≡ done 50 m')
    × Ring m' 10 []
list_for_every_safe-Ring_example =
    list_for_every_safe-Ring plus 10 two_nodes (20 ∷ 30 ∷ []) 3 0 two_nodes-Ring (omega arith)
