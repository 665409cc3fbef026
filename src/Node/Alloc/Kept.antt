-- ===== src/Node/Alloc/Kept.antt =====
-- Giving back an item that is in no list.
use new_explorer_aios.Prelude.{ℕ}
use new_explorer_aios.Struct.Enums
use new_explorer_aios.Links.Memory.{Ptr}
use new_explorer_aios.Group.World.{World}
use new_explorer_aios.Group.Ensures.{Ensures}
use new_explorer_aios.Group.Free.Never.{Never}
use new_explorer_aios.Sparse.{Tables}
use new_explorer_aios.Sparse.Stream.{Places}
use new_explorer_aios.Sparse.Operations.{sparse_ops}
use new_explorer_aios.Node.Shared.{Setting}

-- A node with the operations on sparse items that the source gives it.
abbrev pub with_sparse : (node_id : Ptr → ℕ) → Tables → Places → Setting → Setting
with_sparse node_id tables places setting = record setting {
  sparse =
      sparse_ops setting.fuel setting.unset node_id setting.layout tables places setting.missing;
}
