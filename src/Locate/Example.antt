-- ===== src/Locate/Example.antt =====
-- Groups of 256 bytes, of physical nodes at 4096 and of virtual nodes behind address 8192.
use new_explorer_aios.Prelude.{◌+◌, ◌*◌, ◌≡◌, arith}
use new_explorer_aios.Locate.{Arrays, get_group_lvl, get_lvl_group}
use new_explorer_aios.Locate.Virtual.{
  ProcessGroup, get_vgroup_lvl, get_lvl_vgroup, get_lvl_group-get_group_lvl,
}

abbrev arrays : Arrays
arrays = record {
  phy_node_struct = 1024;
  node_bytes = 512;
  phy_group_struct = 4096;
  group_bytes = 256;
  attr = λ nu. record { dim = 0; offset = 0; size = 0; status = 0; nr_freeitems = 0 };
  phy_item_struct = λ nu. 65536;
}

abbrev process : ProcessGroup
process = record { node = λ nu. 512 * nu; group = λ node. 8192 + 2 * node }

get_lvl_group-get_group_lvl_example :
    (get_lvl_group arrays (get_group_lvl arrays 3 5) 5 ≡ 3)
    × (get_lvl_vgroup arrays process (get_vgroup_lvl arrays process 3 5) 5 ≡ 3)
get_lvl_group-get_group_lvl_example =
    get_lvl_group-get_group_lvl arrays process 3 5 (omega arith) (omega arith) (omega arith)
