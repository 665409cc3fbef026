-- ===== src/Sparse/Down.antt =====
-- The way down through the tables of sparse items.
use new_explorer_aios.Prelude.{ℕ, suc, ◌+◌, ◌-◌, ◌<◌, ◌≡◌, ◌≢◌, refl, Bool, false, arith, ◌==◌}
use new_explorer_aios.Links.Memory.{Ptr, null}
use new_explorer_aios.Group.World.{World, Layout, returns, faults}
use new_explorer_aios.Group.Compound.{fetch}
use new_explorer_aios.Sparse.{
  Tables, search_levels, down_step, down_loop, forward_remove_group_sparse,
}

-- Where the search stops at a table above the level that was asked for, and that table leads to none below
-- it, `forward_remove_group_sparse` goes through NULL: the table that it should make there is behind a test
-- that reads the missing one.
pub forward_remove_group_sparse-faults :
    (layout : Layout) (tables : Tables) (migration_type vnu nu : ℕ) (is_virtual : Bool) (fuel : ℕ)
    (unset item : Ptr) (lvl order level : ℕ) (w w1 : World)
    → search_levels layout tables migration_type vnu nu is_virtual (suc fuel) (lvl + 1) order lvl w
      ≡ returns (item, level) w1
    → item ≢ null
    → level < lvl
    → (w1.item item).word1_0 ≡ null
    → forward_remove_group_sparse layout tables migration_type vnu nu is_virtual
        (suc fuel)
        unset
        lvl
        order
        w
      ≡ faults
unfolding forward_remove_group_sparse fetch
forward_remove_group_sparse-faults layout tables migration_type vnu nu is_virtual fuel unset item
      lvl order level w w1 found some' above leaf =
    let there : (item == null) ≡ false = ground arith in
    let other : (level == lvl) ≡ false = ground arith in
    let rounds : lvl - level ≡ suc (lvl - level - 1) = omega arith in
    rw (found, there, other, rounds) (unfold down_loop down_step in rw (there, leaf) refl)
