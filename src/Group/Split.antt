-- ===== src/Group/Split.antt =====
-- `split_group_migration` frees one half of the block for every order on the way down.
use new_explorer_aios.Prelude.{
  ℕ, zero, suc, ◌≤◌, ◌<◌, ◌≡◌, ◌≢◌, refl, List, ◌∷◌, false, true, arith, ◌==◌, ltb, leb, ◌&&◌,
  if◌then◌else◌, inl, inr, Bool-cases, ◌∙◌, eq_of_==, ==_self, ap,
}
use new_explorer_aios.Bits.Word.{add64}
use new_explorer_aios.Links.Memory.{Ptr, null}
use new_explorer_aios.Links.Chain.{◌∈◌, ◌∉◌, Ring}
use new_explorer_aios.Links.Insert.{apart}
use new_explorer_aios.Group.World.{World, Layout, returns, item_at}
use new_explorer_aios.Group.{
  split_loop, split_group_migration, half_size, freed, allocated, item_shift_of,
}
use new_explorer_aios.Group.Frame.{Stepped, split2-Stepped}

module _ (layout : Layout) (group : ℕ) (item : Ptr) (lvl type : ℕ) (xs : ℕ → List Ptr) where
  -- The free list of an order, with its head, and the half that a split to this order frees.
  abbrev pub nodes : ℕ → List Ptr
  nodes order = layout.free_cell group type order ∷ xs order

  abbrev pub half : ℕ → Ptr
  half order = item_at item (half_size type lvl order)

  -- The free lists of the orders from `low` up to below `high` are rings and share no node, and the
  -- halves are new to them and to each other.
  pub record Ready (w : World) (low high : ℕ) : Type 0 where
    pub rings : (o : ℕ) → low ≤ o → o < high → Ring w.links (layout.free_cell group type o) (xs o)
    pub separate :
        (o o' a : ℕ)
        → low ≤ o
        → o < high
        → low ≤ o'
        → o' < high
        → o ≢ o'
        → a ∈ nodes o
        → a ∉ nodes o'
    pub fresh : (o o' : ℕ) → low ≤ o → o < high → low ≤ o' → o' < high → half o ∉ nodes o'
    pub halves :
        (o o' : ℕ)
        → low ≤ o
        → o < high
        → low ≤ o'
        → o' < high
        → o ≢ o'
        → (half o == half o') ≡ false
    pub there : (o : ℕ) → low ≤ o → o < high → half o ≢ null

  -- What the loop leaves.
  pub record Freed (w w' : World) (low high : ℕ) : Type 0 where
    pub rings :
        (o : ℕ) → low ≤ o → o < high → Ring w'.links (layout.free_cell group type o) (half o ∷ xs o)
    pub kept :
        (other : Ptr) (ys : List Ptr)
        → Ring w.links other ys
        → ((o a : ℕ) → low ≤ o → o < high → a ∈ nodes o → a ∉ other ∷ ys)
        → ((o : ℕ) → low ≤ o → o < high → half o ∉ other ∷ ys)
        → Ring w'.links other ys
    pub counts :
        (o : ℕ)
        → w'.free_count group type o ≡ (
            if leb low o && ltb o high
            then add64 (w.free_count group type o) 1
            else w.free_count group type o)
    pub marked :
        (o : ℕ)
        → low ≤ o
        → o < high
        → w'.item (half o) ≡ freed (layout.node_id group) o lvl (w.item (half o))
    pub unmarked :
        (q : Ptr) → ((o : ℕ) → low ≤ o → o < high → (q == half o) ≡ false) → w'.item q ≡ w.item q

  module _ (low n : ℕ) (bound : low ≤ n) (w w1 : World) (ready : Ready w low (suc n))
      (step : Stepped layout group item (half_size type lvl n) n type lvl w (xs n) w1) where
    step-Ready : Ready w1 low n
    step-Ready = record {
      rings = λ o l h.
          step.kept (layout.free_cell group type o) (xs o) (ready.rings o l (omega arith))
            (λ a. ready.separate n o a bound (omega arith) l (omega arith) (λ e. omega arith))
            (ready.fresh n o bound (omega arith) l (omega arith));
      separate = λ o o' a l h l' h'. ready.separate o o' a l (omega arith) l' (omega arith);
      fresh = λ o o' l h l' h'. ready.fresh o o' l (omega arith) l' (omega arith);
      halves = λ o o' l h l' h'. ready.halves o o' l (omega arith) l' (omega arith);
      there = λ o l h. ready.there o l (omega arith);
    }

    -- What is not at the order `n` is below it.
    below : (o : ℕ) → o < suc n → (o == n) ≡ false → o < n
    below o h ne = ground arith

    top-Ring :
        (w' : World)
        → Freed w1 w' low n
        → Ring w'.links (layout.free_cell group type n) (half n ∷ xs n)
    top-Ring w' rest =
        rest.kept (layout.free_cell group type n) (half n ∷ xs n) step.ring
          (λ o a l h i.
            let old =
              ready.separate o n a l (omega arith) bound (omega arith) (λ e. omega arith) i in
            let ne =
              apart (half n) a (nodes o) (ready.fresh n o bound (omega arith) l (omega arith)) i in
            ground arith)
          (λ o l h.
            let old = ready.fresh o n l (omega arith) bound (omega arith) in
            let ne = ready.halves o n l (omega arith) bound (omega arith) (λ e. omega arith) in
            ground arith)

    step-Freed : (w' : World) → Freed w1 w' low n → Freed w w' low (suc n)
    step-Freed w' rest = record {
      rings = λ o l h. elim (Bool-cases (o == n)) [
        | inl e ↦ rw (eq_of_== o n e) (top-Ring w' rest)
        | inr ne ↦ rest.rings o l (below o h ne)
      ];
      kept = λ other ys ring apart out.
          rest.kept other ys
            (step.kept other ys ring (λ a. apart n a bound (omega arith))
              (out n bound (omega arith)))
            (λ o a l h. apart o a l (omega arith)) (λ o l h. out o l (omega arith));
      counts = λ o. rw (rest.counts o, step.counts) (ground arith);
      marked = λ o l h. elim (Bool-cases (o == n)) [
        | inl e ↦ rw (eq_of_== o n e) (
            rest.unmarked (half n) (λ o' l' h'.
              ready.halves n o' bound (omega arith) l' (omega arith) (λ z. omega arith))
            ∙ step.marked)
        | inr ne ↦
            rest.marked o l (below o h ne)
            ∙ ap (freed (layout.node_id group) o lvl) (
                step.unmarked (half o)
                  (ready.halves o n l h bound (omega arith) (λ z. ground arith)))
      ];
      unmarked = λ q ne.
          rest.unmarked q (λ o l h. ne o l (omega arith))
          ∙ step.unmarked q (ne n bound (omega arith));
    }

  pub split_loop-Freed :
      (low high : ℕ) (w : World)
      → Ready w low high
      → (w' : World) × (split_loop layout group item lvl low high type w ≡ returns tt w')
        × Freed w w' low high
  unfolding split_loop
  split_loop-Freed low zero w ready = (
    w,
    refl,
    record {
      rings = λ o l h. absurd (omega arith);
      kept = λ other ys r s f. r;
      counts = λ o. ground arith;
      marked = λ o l h. absurd (omega arith);
      unmarked = λ q ne. refl;
    },
  )
  split_loop-Freed low (suc n) w ready = elim (Bool-cases (ltb low (suc n))) [
    | inr stop ↦ (
      w,
      rw stop refl,
      record {
        rings = λ o l h. absurd (ground arith);
        kept = λ other ys r s f. r;
        counts = λ o. ground arith;
        marked = λ o l h. absurd (ground arith);
        unmarked = λ q ne. refl;
      },
    )
    | inl go ↦
        let bound : low ≤ n = ground arith in
        let (w1, step) =
          split2-Stepped layout group item (half_size type lvl n) n type lvl w (xs n)
            (ready.rings n bound (omega arith))
            (ready.fresh n n bound (omega arith) bound (omega arith))
            (ready.there n bound (omega arith)) in
        let (w', run, rest) = split_loop-Freed low n w1 (step-Ready low n bound w w1 ready step) in
        (w', rw (go, step.run) run, step-Freed low n bound w w1 ready step w' rest)
  ]

  -- The split is its loop and the marks of the block that is handed out.
  pub split_group_migration-Freed :
      (low high : ℕ) (w : World)
      → Ready w low high
      → (w1 : World) × (split_group_migration layout group item lvl low high type w
          ≡ returns tt (record w1 {
            item = λ q.
                if q == item
                then allocated
                    (layout.node_id group)
                    (if ltb low high then low else high)
                    lvl
                    (item_shift_of type)
                    (layout.dim group)
                    (w1.item q)
                else w1.item q;
          }))
        × Freed w w1 low high
  unfolding split_group_migration
  split_group_migration-Freed low high w ready =
      let (w1, run, rest) = split_loop-Freed low high w ready in (w1, rw run refl, rest)

  -- `split_group_migration` of a block from the order `high` down to `low` returns: for every order
  -- from `low` up to below `high` the upper half of that order stands first in its free list, the
  -- rest of the list is as before, the count of the list has gone up by one, and the half has the
  -- marks of a free block. The block itself has the marks of an allocated one. The free lists of
  -- these orders are rings without a common node, and the halves and the block are different and
  -- in none of them.
  pub split_group_migration-Ring :
      (low high : ℕ) (w : World)
      → Ready w low high
      → ((o : ℕ) → low ≤ o → o < high → (item == half o) ≡ false)
      → (o : ℕ) → low ≤ o
      → o < high
      → (w' : World) × (split_group_migration layout group item lvl low high type w ≡ returns tt w')
        × Ring w'.links (layout.free_cell group type o) (half o ∷ xs o)
        × (w'.free_count group type o ≡ add64 (w.free_count group type o) 1)
        × (w'.item (half o) ≡ freed (layout.node_id group) o lvl (w.item (half o)))
        × (w'.item item
            ≡ allocated
                (layout.node_id group)
                low
                lvl
                (item_shift_of type)
                (layout.dim group)
                (w.item item))
  unfolding split_group_migration
  split_group_migration-Ring low high w ready outside o l h =
      let (w', run, rest) = split_loop-Freed low high w ready in
      let lt : ltb low high ≡ true = ground arith in
      let inside : (leb low o && ltb o high) ≡ true = ground arith in
      let ne : (half o == item) ≡ false = ground (arith, outside o l h) in
      (
        record w' {
          item = λ q.
              if q == item
              then allocated (layout.node_id group) (if ltb low high then low else high) lvl
                  (item_shift_of type) (layout.dim group) (w'.item q)
              else w'.item q;
        },
        rw run refl,
        rest.rings o l h,
        rw (rest.counts o, inside) refl,
        rw ne (rest.marked o l h),
        rw (==_self item, lt, rest.unmarked item outside) refl,
      )
