-- ===== src/Group/Sample.antt =====
-- Arrays, groups and a world to run the operations on.
use new_explorer_aios.Prelude.{◌+◌}
use new_explorer_aios.Struct.Item.{ItemStruct}
use new_explorer_aios.Struct.Node.{GroupAttr}
use new_explorer_aios.Group.World.{World, Layout}
use new_explorer_aios.Group.Free.{Missing}

abbrev pub no_attr : GroupAttr
no_attr = record { dim = 1; offset = 0; size = 0; status = 0; nr_freeitems = 0 }

abbrev pub cells : Layout
cells = record {
  free_cell = λ g t o. 100 + o;
  node_id = λ g. 0;
  dim = λ g. 1;
  group_lvl = λ lvl nu. lvl;
  lru_cell = λ p. 200;
  arrays = record {
    phy_node_struct = 0;
    node_bytes = 512;
    phy_group_struct = 0;
    group_bytes = 256;
    attr = λ node. no_attr;
    phy_item_struct = λ node. 10000;
  };
  phy_group_lvl = λ node. 2;
  phy_group_order = λ node. 9;
  vnode_num = λ node. 0;
  no_node = 0;
}

abbrev pub no_item : ItemStruct
no_item = record {
  node_prev = 0;
  node_next = 0;
  flags = 0;
  word1_0 = 0;
  word1_1 = 0;
  slice_ref = 0;
  word2_0 = 0;
  word2_1 = 0;
  word2_2 = 0;
}

abbrev pub empty_world : World
empty_world = record {
  links = record { prev = λ p. p; next = λ p. p };
  item = λ p. no_item;
  free_count = λ g t o. 0;
  attr = λ p. no_attr;
  lru_count = λ p. 0;
  sparse_root = λ p. 0;
  stream_id = λ p. 0;
  slice = λ p. record {
    free_list = 400;
    free_count = 0;
    full_list = 401;
    full_count = 0;
    empty_list = 402;
    empty_count = 0;
    bsize = 64;
    threshold_freeitems = 2;
  };
}

abbrev pub missing : Missing
missing = record { sparse_stream = 20; dim_val = 0 }
