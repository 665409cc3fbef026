-- ===== src/Request.antt =====
-- How a request for items is classified: source/tensor_ops.h, lines 21 to 133.
pub mod Classes
pub mod State
use new_explorer_aios.Prelude.{
  ℕ, Bool, true, false, not, ◌&&◌, ◌||◌, Option, none, some, ◌==◌, if◌then◌else◌,
}
use new_explorer_aios.Struct.Enums

-- `item_state_to_migration`, `none` for -1. The source names a state STATE_ITEM_SPARSE_STREAM that
-- it does not declare: its value is `sparse_stream`.
unfoldable pub item_state_to_migration : ℕ → ℕ → Option ℕ
item_state_to_migration sparse_stream state =
    if state == Enums.state_item_movable_normal
      || state == Enums.state_item_movable_comp
      || state == Enums.state_item_movable_node
    then some Enums.migration_movable
    else if state == Enums.state_item_slub_types || state == Enums.state_item_lru_cache_types
    then some Enums.migration_lrutype
    else if state == Enums.state_item_nomovable_types
    then some Enums.migration_unmovable
    else if state == Enums.state_item_reclaim_types
    then some Enums.migration_reclaimable
    else if state == Enums.state_item_sparse_types || state == sparse_stream
    then some Enums.migration_sparse_movable
    else none

-- The five variables that `prepare_node_struct_alloc` writes through its pointers.
pub record Class : Type 0 where
  pub migration_type : ℕ
  pub is_combined : Bool
  pub is_virtual : Bool
  pub is_stream : Bool
  pub is_entry : Bool

-- The `switch` of `prepare_node_struct_alloc`. FUNC_ENTITY goes on to the default, which only
-- prints.
unfoldable pub class_of_flags : ℕ → Class → Class
class_of_flags flags c =
    if flags == Enums.func_physical_dcont
    then record c { migration_type = Enums.migration_movable; is_combined = true }
    else if flags == Enums.func_physical_cont
        || flags == Enums.func_physical_mmu
        || flags == Enums.func_physical_object
    then record c { migration_type = Enums.migration_movable; is_combined = false }
    else if flags == Enums.func_physical_stream
    then record c {
      migration_type = Enums.migration_sparse_movable;
      is_combined = false;
      is_stream = true;
    }
    else if flags == Enums.func_virtual
    then record c {
      migration_type = Enums.migration_sparse_movable;
      is_combined = false;
      is_virtual = true;
    }
    else if flags == Enums.func_virtual_stream
    then record c {
      migration_type = Enums.migration_sparse_movable;
      is_combined = false;
      is_virtual = true;
      is_stream = true;
    }
    else if flags == Enums.func_entity
    then record c {
      migration_type = Enums.migration_sparse_movable;
      is_combined = false;
      is_entry = true;
    }
    else c

unfoldable pub prepare_node_struct_alloc : ℕ → ℕ → Class → Class
unfolding class_of_flags
prepare_node_struct_alloc nitems flags before =
    let c = record before { is_virtual = false; is_stream = false; is_entry = false } in
    if flags == Enums.func_physical_debug
    then record c { migration_type = Enums.migration_unmovable; is_combined = false }
    else if flags == Enums.func_physical_reserved
    then record c { migration_type = Enums.migration_unmovable; is_combined = true }
    else if nitems == 1
        && not (flags == Enums.func_physical_stream)
        && not (flags == Enums.func_virtual)
        && not (flags == Enums.func_virtual_stream)
        && not (flags == Enums.func_entity)
    then record c { migration_type = Enums.migration_lrutype; is_combined = false }
    else class_of_flags flags c
