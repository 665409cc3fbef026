-- ===== src/Node/Failures.antt =====
-- Requests that the free lists of a node do not serve.
use new_explorer_aios.Prelude.{
  ℕ, zero, suc, ◌+◌, ◌<◌, ◌≡◌, refl, Bool, true, ◌||◌, arith, ◌==◌, if◌then◌else◌, Bool-cases, inl,
  inr,
}
use new_explorer_aios.Macros.{bit}
use new_explorer_aios.Errors.{err_invalid_args, err_no_memory}
use new_explorer_aios.Struct.Enums
use new_explorer_aios.Struct.Sizes
use new_explorer_aios.Struct.Node.{AllocPara}
use new_explorer_aios.Locate.{get_pnode_num}
use new_explorer_aios.Links.Memory.{Ptr, null}
use new_explorer_aios.Group.World.{World, returns, faults}
use new_explorer_aios.Group.Compound.{fetch}
use new_explorer_aios.Node.Replies.{error, reply}
use new_explorer_aios.Node.Shared.{Setting, Vtable, put_state}
use new_explorer_aios.Node.{
  dispatch_group, dispatch_status, dispatch_forward, dispatch_group_migration, forward_remove,
  migrate_group, lend_group, lend_loop,
}

module _ (setting : Setting) where
  -- A dispatch of the movable type on a node whose status is idle, forward or only forward, and whose
  -- groups have no block for it, fails and stays where the search for a block left it: with
  -- ERR_NO_MEMORY where the status is only forward, otherwise with ERR_INVALID_ARGS. The search at
  -- lower orders, for blocks to put together, is never begun.
  pub dispatch_group-movable :
      (vtable : Vtable) (node old : Ptr) (lvl order : ℕ) (para : AllocPara) (w w1 : World)
      → (w.attr node).status < Enums.group_backward
      → forward_remove setting node lvl Enums.migration_movable order (w.attr node).dim para w
        ≡ returns null w1
      → dispatch_group setting vtable node old lvl Enums.migration_movable order para w
        ≡ returns
            (error (
              if (w.attr node).status == Enums.group_only_forward
              then err_no_memory
              else err_invalid_args))
            w1
  unfolding dispatch_group dispatch_status dispatch_forward dispatch_group_migration
  dispatch_group-movable vtable node old lvl order para w w1 status empty =
      let known : ((w.attr node).status == 0
            || (w.attr node).status == 2
            || (w.attr node).status == 1)
          ≡ true =
        ground arith in
      elim (Bool-cases ((w.attr node).status == 2)) [
        | inl e ↦ rw (known, empty, e) refl
        | inr e ↦ rw (known, empty, e) refl
      ]

  lend_loop-empty :
      (vtable : Vtable) (rounds i type lvl nr_items : ℕ) (is_combined : Bool) (item_ptr : Ptr)
      (w : World)
      → ((p : Ptr) → (w.attr p).nr_freeitems ≡ 0)
      → lend_loop setting vtable rounds i type lvl nr_items is_combined item_ptr w
        ≡ returns (reply item_ptr) w
  unfolding lend_loop
  lend_loop-empty vtable zero i type lvl nr_items is_combined item_ptr w none = refl
  lend_loop-empty vtable (suc rounds) i type lvl nr_items is_combined item_ptr w none =
      elim (Bool-cases (nr_items == 0)) [
        | inl e ↦ rw e refl
        | inr e ↦
            rw (e, none (get_pnode_num setting.layout.arrays i))
              (lend_loop-empty vtable rounds (i + 1) type lvl nr_items is_combined item_ptr w none)
      ]

  -- Where no node has free items, `lend_group` returns NO_ERROR with NULL for an item, and the
  -- migration that asked it to lend goes through that NULL.
  migrate_group-nothing_to_lend :
      (vtable inner : Vtable) (node : Ptr) (order lvl : ℕ) (is_combined : Bool) (w : World)
      → ((p : Ptr) → (w.attr p).nr_freeitems ≡ 0)
      → vtable.lend Enums.migration_movable lvl order is_combined
        ≡ lend_group setting inner Enums.migration_movable lvl order is_combined
      → (lend_group setting inner Enums.migration_movable lvl order is_combined w
          ≡ returns (reply null) w)
        × (migrate_group setting vtable node order lvl Enums.migration_movable is_combined w
            ≡ faults)
  unfolding migrate_group lend_group put_state fetch
  migrate_group-nothing_to_lend vtable inner node order lvl is_combined w none same =
      let lent =
        lend_loop-empty inner Sizes.pnode_num 0 0 lvl
          (bit (order + Sizes.function_item_lvl Sizes.group_order_num_shift lvl)) is_combined null w
          none in
      (lent, rw (same, lent) refl)
