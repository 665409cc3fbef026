-- ===== src/Request/State.antt =====
-- The state that an item gets when it is handed out: `set_group_item_state` of source/tensor.c.
pub mod Back
use new_explorer_aios.Prelude.{ℕ, Bool, bit_and, not, ◌==◌, if◌then◌else◌}
use new_explorer_aios.Struct.Enums
use new_explorer_aios.Struct.Item.{ItemStruct}
use new_explorer_aios.Flags.{set_item_state}

-- `compound_item`: the mark in the lowest digit of the third word.
unfoldable pub compound_item : ItemStruct → Bool
compound_item item = not (bit_and item.word1_0 1 == 0)

unfoldable pub set_group_item_state :
    ItemStruct
    → (migration_type : ℕ) → (is_combined is_virtual is_stream is_entry : Bool) → ItemStruct
unfolding compound_item
set_group_item_state item migration_type is_combined is_virtual is_stream is_entry =
    set_item_state item (
      if is_stream
      then if is_virtual
        then Enums.state_item_sparse_virtual_stream
        else Enums.state_item_sparse_physical_stream
      else if migration_type == Enums.migration_sparse_movable
      then if is_entry then Enums.state_item_sparse_prior else Enums.state_item_sparse_types
      else if compound_item item
      then Enums.state_item_movable_comp
      else Enums.state_item_movable_normal)
