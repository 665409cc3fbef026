-- ===== src/Sparse/Free/Never.antt =====
-- The free of a sparse item that is in no list.
use new_explorer_aios.Prelude.{
  ℕ, zero, suc, ◌≡◌, ◌≢◌, Bool, false, inl, inr, Bool-cases, ◌==◌, arith,
}
use new_explorer_aios.Struct.Enums
use new_explorer_aios.Flags.{get_item_state, get_item_section, get_item_node, get_item_order}
use new_explorer_aios.Links.Memory.{Ptr, null}
use new_explorer_aios.Group.World.{World, Layout}
use new_explorer_aios.Group.Ensures.{Ensures, Ensures-continue, endless, faulted}
use new_explorer_aios.Group.Free.{Missing, free_group_migration}
use new_explorer_aios.Group.Free.Merge.{IsFree}
use new_explorer_aios.Group.Free.Never.{Never, free_group_migration-Never}
use new_explorer_aios.Sparse.{Tables}
use new_explorer_aios.Sparse.Stream.{Places}
use new_explorer_aios.Sparse.Free.{item_is_stream, dequeue_sparse_loop, dequeue_group_sparse}

module _ (layout : Layout) (tables : Tables) (places : Places) (missing : Missing) where
  dequeue_sparse_loop-Never :
      (fuel : ℕ) (item : Ptr) (group nu level lvl order migration_type : ℕ)
      (is_stream is_virtual : Bool) (w : World)
      → IsFree item w
      → Ensures Never (
          dequeue_sparse_loop layout tables places missing fuel item group nu level lvl order
            migration_type is_stream is_virtual w)
  unfolding dequeue_sparse_loop
  dequeue_sparse_loop-Never zero item group nu level lvl order migration_type is_stream is_virtual w
        free =
      endless
  dequeue_sparse_loop-Never (suc fuel) item group nu level lvl order migration_type is_stream
        is_virtual w free =
      Ensures-continue Never Never
        (free_group_migration (suc fuel) missing layout item group lvl order migration_type w) _
        (free_group_migration-Never (suc fuel) missing layout item group lvl order migration_type w
          free)
        (λ a v never. absurd never)

  -- A sparse item that does not stand for an entity and is in no list is never freed.
  pub dequeue_group_sparse-Never :
      (fuel : ℕ) (item : Ptr) (migration_type : ℕ) (w : World)
      → get_item_state (w.item item) ≢ Enums.state_item_sparse_prior
      → IsFree item w
      → Ensures Never (dequeue_group_sparse layout tables places missing fuel item migration_type w)
  unfolding dequeue_group_sparse
  dequeue_group_sparse-Never fuel item migration_type w no_entity free =
      let i = w.item item in
      let test : (get_item_state i == Enums.state_item_sparse_prior) ≡ false = ground arith in
      elim (Bool-cases (item == null)) [
        | inl none_given ↦ rw none_given faulted
        | inr given ↦
            rw (given, test)
              (dequeue_sparse_loop-Never fuel item
                (tables.vgroup_lvl (get_item_section i) (get_item_node i)) (get_item_node i)
                (get_item_section i) (get_item_section i) (get_item_order i) migration_type
                (item_is_stream i) (get_item_state i == Enums.state_item_sparse_virtual_stream) w
                free)
      ]
