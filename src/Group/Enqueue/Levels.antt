-- ===== src/Group/Enqueue/Levels.antt =====
-- At which level `forward_remove_group_migration` takes a block.
use new_explorer_aios.Prelude.{
  ℕ, zero, suc, ◌-◌, ◌≤◌, ◌<◌, ◌≡◌, ◌≢◌, refl, true, false, ◌⊎◌, none, some, ltb, leb, arith, ◌==◌,
  Bool-cases, inl, inr,
}
use new_explorer_aios.Struct.Sizes
use new_explorer_aios.Links.Memory.{null}
use new_explorer_aios.Group.World.{World, Layout, returns}
use new_explorer_aios.Group.{group_budget}
use new_explorer_aios.Group.Sequence.{forward_group_budget}
use new_explorer_aios.Group.Remove.{current_node, remove_group_migration}
use new_explorer_aios.Group.Enqueue.{forward_remove_group_migration, forward_remove_loop}

module _ (layout : Layout) (type dim : ℕ) (w : World) where
  -- The budget that the search reads at a level.
  abbrev pub budget_at : ℕ → ℕ → ℕ
  budget_at lvl order =
      group_budget w.free_count (layout.group_lvl lvl (current_node layout dim)) lvl type order
        Sizes.max_item_order

  -- The first level of the node.
  abbrev pub first_level : ℕ
  first_level = layout.phy_group_lvl (current_node layout dim)

  found-here :
      (lvl order : ℕ)
      → first_level ≤ lvl
      → (budget_at lvl order == 0) ≡ false
      → forward_group_budget layout w.free_count
          (current_node layout dim)
          first_level
          lvl
          type
          order
        ≡ some lvl
  unfolding forward_group_budget
  found-here zero order h some' =
      let e : leb first_level 0 ≡ true = ground arith in rw (e, some') refl
  found-here (suc lvl) order h some' =
      let e : leb first_level (suc lvl) ≡ true = ground arith in rw (e, some') refl

  found-nowhere :
      (lvl order : ℕ)
      → budget_at lvl order ≡ 0
      → ((l : ℕ) → l < lvl → budget_at l 0 ≡ 0)
      → (forward_group_budget layout w.free_count
            (current_node layout dim)
            first_level
            lvl
            type
            order
          ≡ none)
        ⊎ ((l : ℕ) × (forward_group_budget layout w.free_count
                (current_node layout dim)
                first_level
                lvl
                type
                order
              ≡ some l)
            × (ltb l first_level ≡ true))
  unfolding forward_group_budget
  found-nowhere zero order e below = elim (Bool-cases (leb first_level 0)) [
    | inl h ↦ rw (h, e) (inl refl)
    | inr h ↦ rw h (inr (0, refl, ground arith))
  ]
  found-nowhere (suc lvl) order e below = elim (Bool-cases (leb first_level (suc lvl))) [
    | inl h ↦
        rw (h, e) (found-nowhere lvl 0 (below lvl (omega arith)) (λ l g. below l (omega arith)))
    | inr h ↦ rw h (inr (suc lvl, refl, ground arith))
  ]

  -- Where the budget of a level is not 0, the search asks that level at once.
  pub forward_remove_group_migration-here :
      (fuel lvl order : ℕ)
      → first_level ≤ lvl
      → budget_at lvl order ≢ 0
      → forward_remove_group_migration fuel layout lvl type order dim w
        ≡ remove_group_migration fuel layout
            (layout.group_lvl lvl (current_node layout dim))
            lvl
            order
            type
            false
            w
  unfolding forward_remove_group_migration forward_remove_loop
  forward_remove_group_migration-here fuel lvl order h some' =
      let zero_rounds : lvl - lvl ≡ 0 = omega arith in
      let inside : ltb lvl first_level ≡ false = ground arith in
      rw
        (
          forward_remove_group_migration,
          found-here lvl order h (ground arith),
          inside,
          zero_rounds,
          forward_remove_loop,
        )
        refl

  -- Where neither a level nor any level below has free items, a request gets NULL and nothing
  -- changes.
  pub forward_remove_group_migration-empty :
      (fuel lvl order : ℕ)
      → budget_at lvl order ≡ 0
      → ((l : ℕ) → l < lvl → budget_at l 0 ≡ 0)
      → forward_remove_group_migration fuel layout lvl type order dim w ≡ returns null w
  unfolding forward_remove_group_migration
  forward_remove_group_migration-empty fuel lvl order e below =
      elim (found-nowhere lvl order e below) [
        | inl h ↦ rw (forward_remove_group_migration, h) refl
        | inr (l, h, under) ↦ rw (forward_remove_group_migration, h, under) refl
      ]
