-- ===== src/Request/Classes.antt =====
-- The class of every request, as one table.
use new_explorer_aios.Prelude.{ℕ, Bool, not, ◌==◌, if◌then◌else◌, ◌||◌, ◌&&◌}
use new_explorer_aios.Request.{Class}
use new_explorer_aios.Struct.Enums

-- The functions that are served from sparse items.
abbrev pub is_sparse : ℕ → Bool
is_sparse flags =
    flags == Enums.func_physical_stream
    || flags == Enums.func_virtual
    || flags == Enums.func_virtual_stream
    || flags == Enums.func_entity

-- The functions for items that stay where they are.
abbrev pub is_fixed : ℕ → Bool
is_fixed flags = flags == Enums.func_physical_debug || flags == Enums.func_physical_reserved

-- The functions for physical items that may be moved.
abbrev pub is_movable : ℕ → Bool
is_movable flags =
    flags == Enums.func_physical_dcont
    || flags == Enums.func_physical_cont
    || flags == Enums.func_physical_mmu
    || flags == Enums.func_physical_object

-- A single item for a function that is neither fixed nor sparse comes from the LRU lists.
abbrev pub is_lru : ℕ → ℕ → Bool
is_lru nitems flags = nitems == 1 && not (is_fixed flags) && not (is_sparse flags)

abbrev pub is_known : ℕ → ℕ → Bool
is_known nitems flags = is_fixed flags || is_lru nitems flags || is_movable flags || is_sparse flags

-- What a request without a class of its own leaves is what the variables held before.
abbrev pub classify : ℕ → ℕ → Class → Class
classify nitems flags before = record {
  migration_type =
      if is_fixed flags
      then Enums.migration_unmovable
      else if is_lru nitems flags
      then Enums.migration_lrutype
      else if is_known nitems flags
      then Enums.migration_movable
      else before.migration_type;
  is_combined =
      if is_known nitems flags
      then flags == Enums.func_physical_reserved
        || flags == Enums.func_physical_dcont && not (nitems == 1)
      else before.is_combined;
  is_virtual = flags == Enums.func_virtual || flags == Enums.func_virtual_stream;
  is_stream = flags == Enums.func_physical_stream || flags == Enums.func_virtual_stream;
  is_entry = flags == Enums.func_entity;
}
