-- ===== src/Group/Free/Heads.antt =====
-- The direct way of `free_group_migration`, to the label `free_item_migration_direct`: what the swapped
-- arguments of its insertion do with a block that is in no list.
use new_explorer_aios.Prelude.{ℕ, suc, ◌≡◌, refl, true, leb, ◌==◌, Bool-cases, inl, inr, ==_self}
use new_explorer_aios.Bits.Word.{sub64}
use new_explorer_aios.Flags.{clear_item_present}
use new_explorer_aios.Links.Memory.{Ptr, null}
use new_explorer_aios.Links.Loose.{list_add_head-null}
use new_explorer_aios.Group.World.{World, Layout, faults}
use new_explorer_aios.Group.Compound.{fetch}
use new_explorer_aios.Group.Remove.{max_order_of}
use new_explorer_aios.Group.Free.{
  Missing, stays_alone, merge_loop, put_direct, free_loop, free_group_migration,
}

-- A block that is in no list, its link to the next node NULL, cannot be freed on the direct way: the
-- run goes through NULL. The direct way is that of every LRU item, of the last order of the first
-- level and of a table of which indices are in use.
free_group_migration-faults :
    (fuel : ℕ) (missing : Missing) (layout : Layout) (item : Ptr)
    (group lvl order migration_type : ℕ) (w : World)
    → w.links.next item ≡ null
    → leb order (sub64 (max_order_of layout group lvl migration_type) 1) ≡ true
    → stays_alone layout group lvl
        (max_order_of layout group lvl migration_type)
        migration_type
        order
        (clear_item_present (w.item item))
      ≡ true
    → free_group_migration (suc fuel) missing layout item group lvl order migration_type w ≡ faults
unfolding free_group_migration free_loop merge_loop put_direct fetch
free_group_migration-faults fuel missing layout item group lvl order migration_type w empty within
      alone =
    elim (Bool-cases (item == null)) [
      | inl hit ↦ rw (within, hit) refl
      | inr miss ↦
          rw
            (
              within,
              miss,
              ==_self item,
              alone,
              list_add_head-null w.links item (layout.free_cell group migration_type order) empty,
            )
            refl
    ]
