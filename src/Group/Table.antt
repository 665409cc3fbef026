-- ===== src/Group/Table.antt =====
-- The tables of sparse items, source/tensor.c lines 965 to 1023: the indices left in a table, and
-- its place in the free list of order 0.
use new_explorer_aios.Prelude.{ℕ, Bool, false, not, ◌==◌, if◌then◌else◌}
use new_explorer_aios.Bits.Word.{sub64}
use new_explorer_aios.Macros.{bit}
use new_explorer_aios.Struct.Item.{ItemStruct}
use new_explorer_aios.Flags.{get_item_freeidx, set_item_freeidx}
use new_explorer_aios.Links.Memory.{Ptr}
use new_explorer_aios.Links.{list_add_head, list_del}
use new_explorer_aios.Group.World.{Layout, Command, ◌>>◌, on_links, increment, decrement, as_int}

-- `sparse_table_free`: the item, and whether indices are left.
unfoldable pub sparse_table_free : ItemStruct → ℕ → ItemStruct × Bool
unfolding bit
sparse_table_free item order =
    let nr_freeidxs = as_int (get_item_freeidx item) in
    let left = as_int (sub64 nr_freeidxs (bit order)) in
    if nr_freeidxs == 0 then (item, false) else (set_item_freeidx item left, not (left == 0))

-- The group of a table: at a level of the current virtual node `vnu` or physical node `nu`.
-- `vgroup_lvl` leads to the groups of virtual nodes.
unfoldable pub table_group : Layout → (ℕ → ℕ → ℕ) → (lvl vnu nu : ℕ) → Bool → ℕ
table_group layout vgroup_lvl lvl vnu nu is_virtual =
    if is_virtual then vgroup_lvl lvl vnu else layout.group_lvl lvl nu

unfoldable pub refill_sparse_table :
    Layout → (ℕ → ℕ → ℕ) → Ptr → (lvl migration_type vnu nu : ℕ) → Bool → Command (Unit {0})
unfolding table_group
refill_sparse_table layout vgroup_lvl item lvl migration_type vnu nu is_virtual =
    let group = table_group layout vgroup_lvl lvl vnu nu is_virtual in
    (do
      on_links (list_add_head (layout.free_cell group migration_type 0) item)
      increment group migration_type 0)

unfoldable pub remove_sparse_table :
    Layout → (ℕ → ℕ → ℕ) → Ptr → (lvl migration_type vnu nu : ℕ) → Bool → Command (Unit {0})
unfolding table_group
remove_sparse_table layout vgroup_lvl item lvl migration_type vnu nu is_virtual =
    let group = table_group layout vgroup_lvl lvl vnu nu is_virtual in
    (do on_links (list_del item); decrement group migration_type 0)
