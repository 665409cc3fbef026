-- ===== src/Struct/Layout.antt =====
-- `enum item_flags` of source/tensor_struct.h: where each field of an item's flags begins, and how
-- many digits it has.
use new_explorer_aios.Prelude.{ℕ}

abbrev pub base_item_present : ℕ
base_item_present = 0

abbrev pub base_item_order : ℕ
base_item_order = 1

abbrev pub offset_item_order : ℕ
offset_item_order = 4

abbrev pub base_item_state : ℕ
base_item_state = 5

abbrev pub offset_item_state : ℕ
offset_item_state = 4

abbrev pub base_item_table : ℕ
base_item_table = 9

abbrev pub offset_item_table : ℕ
offset_item_table = 5

abbrev pub base_item_node : ℕ
base_item_node = 14

abbrev pub offset_item_node : ℕ
offset_item_node = 5

abbrev pub base_item_section : ℕ
base_item_section = 19

abbrev pub offset_item_section : ℕ
offset_item_section = 5

abbrev pub base_item_dim : ℕ
base_item_dim = 24

abbrev pub offset_item_dim : ℕ
offset_item_dim = 5

abbrev pub base_item_func : ℕ
base_item_func = 29

abbrev pub offset_item_func : ℕ
offset_item_func = 3

abbrev pub base_item_freeidx : ℕ
base_item_freeidx = 32

abbrev pub offset_item_freeidx : ℕ
offset_item_freeidx = 32
