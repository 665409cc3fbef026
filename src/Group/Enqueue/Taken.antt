-- ===== src/Group/Enqueue/Taken.antt =====
-- What `forward_remove_group_migration` hands out at a level that has a block.
use new_explorer_aios.Prelude.{
  ℕ, zero, suc, ◌+◌, ◌-◌, ◌*◌, ◌^◌, ◌≤◌, ◌<◌, ◌≡◌, ◌≢◌, ◌∙◌, false, true, List, [], ◌∷◌, length,
  arith, one-le-pow, ◌==◌, Bool-cases, inl, inr, eq_of_==,
}
use new_explorer_aios.Bits.Word.{word_mod}
use new_explorer_aios.Struct.Sizes
use new_explorer_aios.Links.Memory.{Ptr}
use new_explorer_aios.Group.World.{World, Layout, returns}
use new_explorer_aios.Group.{group_budget, allocated, item_shift_of}
use new_explorer_aios.Group.Budget.{total, total-same, budget_loop_lem}
use new_explorer_aios.Group.Conserve.{unit_of}
use new_explorer_aios.Group.Remove.{current_node, is_taken, is_misaligned, max_order_of}
use new_explorer_aios.Group.Remove.Cell.{FreeLists, IsWhole, left}
use new_explorer_aios.Group.Remove.Lists.{remove_group_migration-FreeLists}
use new_explorer_aios.Group.Enqueue.{forward_remove_group_migration}
use new_explorer_aios.Group.Enqueue.Levels.{
  first_level, budget_at, forward_remove_group_migration-here,
}

-- The items of the orders from `index + d` on are among those from `index` on.
total-part :
    (counts : ℕ → ℕ) (unit d rounds index : ℕ)
    → total rounds counts unit (index + d) ≤ total (d + rounds) counts unit index
unfolding total
total-part counts unit zero rounds index =
    let here : index + 0 ≡ index = omega arith in
    let all : 0 + rounds ≡ rounds = omega arith in rw (here, all) (omega arith)
total-part counts unit (suc d) rounds index =
    let next : index + suc d ≡ index + 1 + d = omega arith in
    let one_more : suc d + rounds ≡ suc (d + rounds) = omega arith in
    rw (next, one_more) (omega (arith, total-part counts unit d rounds (index + 1)))

one-le-product : (a b c : ℕ) → 1 ≤ a → 1 ≤ b → 1 ≤ c → 1 ≤ a * b * c
one-le-product zero b c ha hb hc = absurd (omega arith)
one-le-product (suc a) zero c ha hb hc = absurd (omega arith)
one-le-product (suc a) (suc b) zero ha hb hc = absurd (omega arith)
one-le-product (suc a) (suc b) (suc c) ha hb hc = omega arith

-- A list with a node has items.
total-some :
    (counts : ℕ → ℕ) (unit k rounds index : ℕ)
    → index ≤ k
    → k < index + rounds
    → 1 ≤ counts k
    → 1 ≤ unit
    → 1 ≤ total rounds counts unit index
unfolding total
total-some counts unit k zero index low high some' u = absurd (omega arith)
total-some counts unit k (suc rounds) index low high some' u = elim (Bool-cases (index == k)) [
  | inl same ↦
      let e = eq_of_== index k same in
      omega (
        arith,
        one-le-product (counts index) (2 ^ index) unit (rw e some')
            (one-le-pow index 2 (omega arith)) u,
      )
  | inr ne ↦
      let past : index + 1 ≤ k = ground arith in
      omega (arith, total-some counts unit k rounds (index + 1) past (omega arith) some' u)
]

module _ (layout : Layout) (lvl type dim : ℕ) (xs : ℕ → List Ptr) (low k : ℕ) (x : Ptr)
    (rest : List Ptr) where
  -- The group of the level in the current node of the dimension.
  abbrev pub group_here : ℕ
  group_here = layout.group_lvl lvl (current_node layout dim)

  budget-some :
      (w : World)
      → FreeLists layout group_here type w xs
      → xs k ≡ x ∷ rest
      → k < 9
      → low ≤ k
      → ((o : ℕ) → length (xs o) + 1 < 2 ^ 31)
      → total 9 (λ o. length (xs o)) (unit_of lvl) 0 < word_mod
      → budget_at layout type dim w lvl low ≢ 0
  unfolding group_budget
  budget-some w lists first top order small fits e =
      let counts = w.free_count group_here type in
      let same =
        total-same 9 counts (λ o. length (xs o)) (unit_of lvl) 0 (λ o h. lists.counts o h) in
      let rounds : low + (9 - low) ≡ 9 = omega arith in
      let from : 0 + low ≡ low = omega arith in
      let part : total (9 - low) counts (unit_of lvl) low ≤ total 9 counts (unit_of lvl) 0 =
        rw (from, rounds) at (total-part counts (unit_of lvl) low (9 - low) 0) in
      let one : 1 ≤ counts k = rw (lists.counts k top, first) (omega arith) in
      let more =
        total-some counts (unit_of lvl) k (9 - low) low order (omega arith) one
          (one-le-pow (Sizes.function_item_lvl Sizes.group_order_num_shift lvl) 2 (omega arith)) in
      let sum =
        budget_loop_lem (9 - low) counts (Sizes.function_item_lvl Sizes.group_order_num_shift lvl)
          low 0 (omega arith) (λ o h. rw (lists.counts o (omega arith)) (omega (arith, small o)))
          (omega arith) (omega (arith, part, same, fits)) in
      omega (arith, more, sum, e)

  -- A level of the current node, at or above the first one, serves a request of order `low` whose
  -- lists from `low` up to below `k` are empty and whose list of order `k` starts with a block that
  -- is taken: `forward_remove_group_migration` returns that block, marked as one of order `low`;
  -- the list of `k` loses it, each list from `low` up to below `k` gets one of its halves in front,
  -- the other lists of the group stay, the counts stay the lengths of the lists, and the budget of
  -- the group goes down by the items of a block of order `low`. The order `k` is at most 8 and
  -- below the orders in use at the level; before, the lists are disjoint rings with their lengths
  -- as counts, below 2^31 - 1, and items below 2^64 in all; the upper halves of the block are not
  -- NULL, differ from each other and are neither in a list nor a head; the block passes the tests
  -- of `is_taken` and of its alignment. Any positive fuel is enough.
  pub forward_remove_group_migration-FreeLists :
      (w : World)
      → first_level layout type dim w ≤ lvl
      → FreeLists layout group_here type w xs
      → xs k ≡ x ∷ rest
      → k < 9
      → low ≤ k
      → IsWhole layout group_here lvl type xs low k x rest
      → ((o : ℕ) → length (xs o) + 1 < 2 ^ 31)
      → total 9 (λ o. length (xs o)) (unit_of lvl) 0 < word_mod
      → k < max_order_of layout group_here lvl type
      → ((o : ℕ) → low ≤ o → o < k → xs o ≡ [])
      → is_taken type k (w.item x) ≡ true
      → is_misaligned layout lvl type x w ≡ false
      → (fuel : ℕ)
      → (w' : World) × (forward_remove_group_migration (suc fuel) layout lvl type low dim w
          ≡ returns x w')
        × FreeLists layout group_here type w' (left layout group_here lvl type xs low k x rest)
        × (w'.item x
            ≡ allocated
                (layout.node_id group_here)
                low
                lvl
                (item_shift_of type)
                (layout.dim group_here)
                (w.item x))
        × (group_budget w'.free_count group_here lvl type 0 Sizes.max_item_order
              + 2 ^ low * unit_of lvl
            ≡ group_budget w.free_count group_here lvl type 0 Sizes.max_item_order)
  forward_remove_group_migration-FreeLists w here lists first top order whole small fits reach none
        taken aligned fuel =
      let (w', run, lists', marked, budget) =
        remove_group_migration-FreeLists layout group_here lvl type xs low k x rest w lists first
          top order whole small fits reach none taken aligned fuel in
      let search =
        forward_remove_group_migration-here layout type dim w (suc fuel) lvl low here
          (budget-some w lists first top order small fits) in
      (w', search ∙ run, lists', marked, budget)
