-- ===== src/Flags.antt =====
-- The accessors of an item's flags word, source/tensor_ops.h lines 152 to 286.
pub mod View
pub mod Agree
use new_explorer_aios.Prelude.{ℕ, ◌^◌, ◌-◌, Bool, not, ◌==◌}
use new_explorer_aios.Macros.{mask, gr, cr, zr, mr, sb, gb, cb}
use new_explorer_aios.Struct.Item.{ItemStruct}
use new_explorer_aios.Struct.Layout

unfoldable pub set_item_section : ItemStruct → ℕ → ItemStruct
set_item_section item table = record item {
  flags = mr item.flags Layout.base_item_section Layout.offset_item_section table;
}

-- The section is cleared to all ones.
unfoldable pub clear_item_section : ItemStruct → ItemStruct
clear_item_section item = record item {
  flags =
      mr item.flags Layout.base_item_section Layout.offset_item_section
        (mask Layout.offset_item_section);
}

unfoldable pub get_item_section : ItemStruct → ℕ
get_item_section item = gr item.flags Layout.base_item_section Layout.offset_item_section

unfoldable pub set_item_present : ItemStruct → ItemStruct
set_item_present item = record item { flags = sb item.flags Layout.base_item_present }

unfoldable pub clear_item_present : ItemStruct → ItemStruct
clear_item_present item = record item { flags = cb item.flags Layout.base_item_present }

unfoldable pub item_is_present : ItemStruct → Bool
item_is_present item = not (gb item.flags Layout.base_item_present == 0)

unfoldable pub set_item_order : ItemStruct → ℕ → ItemStruct
set_item_order item val = record item {
  flags = mr item.flags Layout.base_item_order Layout.offset_item_order val;
}

unfoldable pub clear_item_order : ItemStruct → ItemStruct
clear_item_order item = record item {
  flags = zr item.flags Layout.base_item_order Layout.offset_item_order;
}

unfoldable pub get_item_order : ItemStruct → ℕ
get_item_order item = gr item.flags Layout.base_item_order Layout.offset_item_order

unfoldable pub set_item_state : ItemStruct → ℕ → ItemStruct
set_item_state item val = record item {
  flags = mr item.flags Layout.base_item_state Layout.offset_item_state val;
}

unfoldable pub clear_item_state : ItemStruct → ItemStruct
clear_item_state item = record item {
  flags = zr item.flags Layout.base_item_state Layout.offset_item_state;
}

unfoldable pub get_item_state : ItemStruct → ℕ
get_item_state item = gr item.flags Layout.base_item_state Layout.offset_item_state

unfoldable pub set_item_func : ItemStruct → ℕ → ItemStruct
set_item_func item val = record item {
  flags = mr item.flags Layout.base_item_func Layout.offset_item_func val;
}

unfoldable pub clear_item_func : ItemStruct → ItemStruct
clear_item_func item = record item {
  flags = zr item.flags Layout.base_item_func Layout.offset_item_func;
}

unfoldable pub get_item_func : ItemStruct → ℕ
get_item_func item = gr item.flags Layout.base_item_func Layout.offset_item_func

unfoldable pub set_item_freeidx : ItemStruct → ℕ → ItemStruct
set_item_freeidx item val = record item {
  flags = mr item.flags Layout.base_item_freeidx Layout.offset_item_freeidx val;
}

unfoldable pub clear_item_freeidx : ItemStruct → ItemStruct
clear_item_freeidx item = record item {
  flags = zr item.flags Layout.base_item_freeidx Layout.offset_item_freeidx;
}

unfoldable pub get_item_freeidx : ItemStruct → ℕ
get_item_freeidx item = gr item.flags Layout.base_item_freeidx Layout.offset_item_freeidx

unfoldable pub set_item_table_no : ItemStruct → ℕ → ItemStruct
set_item_table_no item val = record item {
  flags = mr item.flags Layout.base_item_table Layout.offset_item_table val;
}

unfoldable pub clear_item_table_no : ItemStruct → ItemStruct
clear_item_table_no item = record item {
  flags = zr item.flags Layout.base_item_table Layout.offset_item_table;
}

unfoldable pub get_item_table_no : ItemStruct → ℕ
get_item_table_no item = gr item.flags Layout.base_item_table Layout.offset_item_table

unfoldable pub set_item_node : ItemStruct → ℕ → ItemStruct
set_item_node item val = record item {
  flags = mr item.flags Layout.base_item_node Layout.offset_item_node val;
}

unfoldable pub clear_item_node : ItemStruct → ItemStruct
clear_item_node item = record item {
  flags = zr item.flags Layout.base_item_node Layout.offset_item_node;
}

unfoldable pub get_item_node : ItemStruct → ℕ
get_item_node item = gr item.flags Layout.base_item_node Layout.offset_item_node

unfoldable pub set_item_dim : ItemStruct → ℕ → ItemStruct
set_item_dim item val = record item {
  flags = mr item.flags Layout.base_item_dim Layout.offset_item_dim val;
}

-- Unlike the others this clears the digits of `val` only.
unfoldable pub clear_item_dim : ItemStruct → ℕ → ItemStruct
clear_item_dim item val = record item {
  flags = cr item.flags Layout.base_item_dim Layout.offset_item_dim val;
}

unfoldable pub get_item_dim : ItemStruct → ℕ
get_item_dim item = gr item.flags Layout.base_item_dim Layout.offset_item_dim
