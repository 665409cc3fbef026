-- ===== src/Sparse/Operations.antt =====
-- The operations on sparse items as a node calls them.
use new_explorer_aios.Prelude.{ℕ, if◌then◌else◌}
use new_explorer_aios.Links.Memory.{Ptr}
use new_explorer_aios.Group.World.{Layout}
use new_explorer_aios.Group.Free.{Missing}
use new_explorer_aios.Node.Shared.{SparseOps}
use new_explorer_aios.Sparse.{Tables, forward_remove_group_sparse, forward_remove_group_prior}
use new_explorer_aios.Sparse.Stream.{Places, stream_group, forward_remove_group_stream}
use new_explorer_aios.Sparse.Free.{dequeue_group_sparse}

-- `fuel` bounds the loops, `unset` is what a local pointer holds in which nothing was stored, and
-- `node_id` the number of the node at an address. A stream counts in the node of its group.
unfoldable pub sparse_ops :
    ℕ → (unset : Ptr) → (node_id : Ptr → ℕ) → Layout → Tables → Places → Missing → SparseOps
unfolding forward_remove_group_stream forward_remove_group_prior forward_remove_group_sparse
    dequeue_group_sparse stream_group
sparse_ops fuel unset node_id layout tables places missing = record {
  forward_remove_group_stream = λ migration_type order lvl dim para.
      forward_remove_group_stream layout tables places fuel
        (layout.node_id (
          if para.is_entry
          then places.entity_group lvl
          else stream_group layout tables places para dim lvl))
        migration_type order lvl dim para;
  forward_remove_group_prior = λ lvl migration_type order node.
      forward_remove_group_prior layout tables places.entity_group unset (node_id node) lvl
        migration_type order;
  forward_remove_group_sparse = λ lvl migration_type order dim is_virtual.
      forward_remove_group_sparse layout tables migration_type (places.current_vnode dim)
        (places.current_node dim) is_virtual fuel unset lvl order;
  dequeue_group_sparse = λ item migration_type.
      dequeue_group_sparse layout tables places missing fuel item migration_type;
}
