-- ===== src/Sparse/Free.antt =====
-- `dequeue_group_sparse` of source/tensor.c: the free of a sparse item, up the tables that it leaves
-- unused. Its call of `subscribe_group_sparse` gives `is_virtual` in place of a parameter block and is
-- read as a block with that flag alone.
pub mod Never
use new_explorer_aios.Prelude.{ℕ, zero, suc, ◌+◌, Bool, false, ◌||◌, ◌==◌, if◌then◌else◌}
use new_explorer_aios.Bits.Word.{add64, sub64}
use new_explorer_aios.Macros.{bit}
use new_explorer_aios.Struct.Sizes
use new_explorer_aios.Struct.Enums
use new_explorer_aios.Struct.Item.{ItemStruct}
use new_explorer_aios.Struct.Node.{AllocPara}
use new_explorer_aios.Flags.{
  set_item_freeidx, get_item_freeidx, get_item_section, get_item_node, get_item_order,
  get_item_state,
}
use new_explorer_aios.Links.Memory.{Ptr}
use new_explorer_aios.Links.{list_del}
use new_explorer_aios.Group.World.{
  Layout, exhausted, Command, give, ◌>>=◌, ◌>>◌, on_links, decrement, as_int,
}
use new_explorer_aios.Group.Compound.{fetch}
use new_explorer_aios.Group.Free.{Missing, free_group_migration, add_free_items}
use new_explorer_aios.Sparse.{Tables, through, delete_group_root, dequeue_group_prior}
use new_explorer_aios.Sparse.Stream.{Places, subscribe_group_sparse}

-- The parameters that the subscription is called with.
abbrev pub virtual_para : Bool → AllocPara
virtual_para is_virtual = record {
  is_combined = false;
  is_virtual = is_virtual;
  is_stream = false;
  is_entry = false;
  max_prior = 0;
  affinity = 0;
}

-- Whether an item belongs to a stream.
unfoldable pub item_is_stream : ItemStruct → Bool
item_is_stream item =
    (get_item_state item == Enums.state_item_sparse_virtual_stream)
    || (get_item_state item == Enums.state_item_sparse_physical_stream)

module _ (layout : Layout) (tables : Tables) (places : Places) (missing : Missing) where
  -- What follows the free at the level of the item: the next period of a stream, or the count of the
  -- node. `freed` is what the variable holds before.
  unfoldable pub release_item :
      ℕ
      → (item freed : Ptr) → (group nu lvl order migration_type : ℕ) → (is_stream is_virtual : Bool)
      → Command Ptr
  unfolding subscribe_group_sparse add_free_items as_int bit
  release_item fuel item freed group nu lvl order migration_type is_stream is_virtual =
      if is_stream
      then subscribe_group_sparse layout tables places fuel item group nu lvl order migration_type
          (virtual_para is_virtual)
      else (do
        add_free_items (layout.vnode_num nu)
            (as_int (bit (order + Sizes.function_item_lvl Sizes.group_range_num_shift lvl)))
        give freed)

  -- The loop over the levels. `level` is the level of the item freed.
  unfoldable pub dequeue_sparse_loop :
      ℕ
      → (item : Ptr) → (group nu level lvl order migration_type : ℕ) → (is_stream is_virtual : Bool)
      → Command (Unit {0})
  unfolding release_item free_group_migration delete_group_root through fetch as_int bit
  dequeue_sparse_loop zero item group nu level lvl order migration_type is_stream is_virtual =
      λ w. exhausted
  dequeue_sparse_loop (suc fuel) item group nu level lvl order migration_type is_stream is_virtual =
      let above = tables.vgroup_lvl (sub64 lvl 1) nu in
      let up = λ (root : Ptr).
        dequeue_sparse_loop fuel root above nu level (sub64 lvl 1) 0 migration_type is_stream
          is_virtual in
      (do
        freed ← free_group_migration (suc fuel) missing layout item group lvl order migration_type
        temp ←
            (if level == lvl
              then release_item (suc fuel) item freed group nu lvl order migration_type is_stream
                  is_virtual
              else give freed)
        i ← fetch item
        let root = i.word1_1
        r ← fetch root
        let nr_freeidx = as_int (add64 (get_item_freeidx r) (bit order))
        through root (λ j. set_item_freeidx j nr_freeidx)
        (if nr_freeidx == bit (Sizes.max_item_range + 1)
            then (do
              (if is_stream
                  then delete_group_root layout tables group temp lvl migration_type
                  else give tt)
              on_links (list_del root)
              decrement above migration_type 0
              up root)
            else give tt))

  -- `dequeue_group_sparse`.
  unfoldable pub dequeue_group_sparse : ℕ → (item : Ptr) → (migration_type : ℕ) → Command (Unit {0})
  unfolding dequeue_sparse_loop dequeue_group_prior item_is_stream fetch
  dequeue_group_sparse fuel item migration_type = do
    i ← fetch item
    let lvl = get_item_section i
    let nu = get_item_node i
    (if get_item_state i == Enums.state_item_sparse_prior
        then dequeue_group_prior layout tables places.entity_group item migration_type
        else dequeue_sparse_loop fuel item (tables.vgroup_lvl lvl nu) nu lvl lvl (get_item_order i)
            migration_type (item_is_stream i)
            (get_item_state i == Enums.state_item_sparse_virtual_stream))
