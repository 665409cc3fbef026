-- ===== src/Group/Remove/Lists.antt =====
-- The search of `remove_group_migration` through the free lists.
use new_explorer_aios.Prelude.{
  ℕ, zero, suc, ◌+◌, ◌-◌, ◌*◌, ◌^◌, ◌≤◌, ◌<◌, ◌≡◌, ◌∙◌, refl, true, false, ◌&&◌, List, [], ◌∷◌,
  length, arith, ltb, leb, ◌==◌, Bool-cases, inl, inr, eq_of_==,
}
use new_explorer_aios.Bits.Word.{word_mod}
use new_explorer_aios.Links.Memory.{Ptr, null, done}
use new_explorer_aios.Links.Chain.{Ring}
use new_explorer_aios.Links.Insert.{not_null}
use new_explorer_aios.Links.Walk.{list_peek_lem}
use new_explorer_aios.Struct.Enums
use new_explorer_aios.Struct.Sizes
use new_explorer_aios.Links.{list_peek_head}
use new_explorer_aios.Group.World.{World, Layout, returns}
use new_explorer_aios.Group.{allocated, item_shift_of, group_budget}
use new_explorer_aios.Group.Budget.{total, grown, dropped, total-same, total-grown, total-dropped}
use new_explorer_aios.Group.Conserve.{unit_of, group_budget_lem}
use new_explorer_aios.Group.Remove.{
  take_entry, is_misaligned, entry_loop, remove_loop, remove_group_migration, is_taken,
  max_order_of,
}
use new_explorer_aios.Group.Remove.Cell.{FreeLists, IsWhole, left, take_entry-FreeLists}

module _ (layout : Layout) (group lvl type : ℕ) (xs : ℕ → List Ptr) (w : World)
    (lists : FreeLists layout group type w xs) where
  peek-empty :
      (o : ℕ)
      → o < 9
      → xs o ≡ []
      → list_peek_head (layout.free_cell group type o) w.links ≡ done null w.links
  peek-empty o h e =
      (list_peek_lem w.links (layout.free_cell group type o) [] (rw (← e) (lists.rings o h))).0

  peek-first :
      (o : ℕ) (x : Ptr) (rest : List Ptr)
      → o < 9
      → xs o ≡ x ∷ rest
      → (list_peek_head (layout.free_cell group type o) w.links ≡ done x w.links)
        × ((x == null) ≡ false)
  peek-first o x rest h e =
      let ring : Ring w.links (layout.free_cell group type o) (x ∷ rest) =
        rw (← e) (lists.rings o h) in
      (
        (list_peek_lem w.links (layout.free_cell group type o) (x ∷ rest) ring).0,
        not_null x (layout.free_cell group type o ∷ x ∷ rest) (ground arith) ring.no_null,
      )

  -- No entry is passed over for being of order 0: this is not a search for a table.
  no_skip : (i : ℕ) → (type == Enums.migration_sparse_movable && false && i == 0) ≡ false
  no_skip i = ground arith

  -- Where all lists from an order on are empty, the search returns NULL.
  remove_loop-empty :
      (rounds fuel low i : ℕ)
      → i + rounds ≤ 9
      → ((o : ℕ) → i ≤ o → o < i + rounds → xs o ≡ [])
      → remove_loop rounds (suc fuel) layout group lvl low i type false w ≡ returns null w
  unfolding remove_loop entry_loop
  remove_loop-empty zero fuel low i h none = refl
  remove_loop-empty (suc rounds) fuel low i h none =
      rw (no_skip i, peek-empty i (omega arith) (none i (omega arith) (omega arith)))
        (remove_loop-empty rounds fuel low (i + 1) (omega arith)
          (λ o l g. none o (omega arith) (omega arith)))

  module _ (low k : ℕ) (x : Ptr) (rest : List Ptr) (first : xs k ≡ x ∷ rest) (top : k < 9)
      (taken : is_taken type k (w.item x) ≡ true) where
    remove_loop_lem :
        (d rounds fuel i : ℕ)
        → i + d ≡ k
        → d < rounds
        → ((o : ℕ) → i ≤ o → o < k → xs o ≡ [])
        → remove_loop rounds (suc fuel) layout group lvl low i type false w
          ≡ take_entry layout group x lvl low k type w
    unfolding remove_loop entry_loop
    remove_loop_lem d zero fuel i e enough none = absurd (omega arith)
    remove_loop_lem zero (suc rounds) fuel i e enough none =
        let same : i ≡ k = omega arith in
        let (peek, there) = peek-first k x rest top first in
        rw (same, no_skip k, peek, there, taken) (rw there refl)
    remove_loop_lem (suc d) (suc rounds) fuel i e enough none =
        rw (no_skip i, peek-empty i (omega arith) (none i (omega arith) (omega arith)))
          (remove_loop_lem d rounds fuel (i + 1) (omega arith) (omega arith)
            (λ o l g. none o (omega arith) g))

  -- Where a level has no block of an order from `low` up to below its last, the search for one
  -- returns NULL and changes nothing.
  remove_group_migration-empty :
      (low fuel : ℕ)
      → max_order_of layout group lvl type ≤ 9
      → ((o : ℕ) → low ≤ o → o < max_order_of layout group lvl type → xs o ≡ [])
      → remove_group_migration (suc fuel) layout group lvl low type false w ≡ returns null w
  unfolding remove_group_migration
  remove_group_migration-empty low fuel h none = elim (Bool-cases (leb low 9)) [
    | inl l ↦
        remove_loop-empty (max_order_of layout group lvl type - low) fuel low low (ground arith)
          (λ o l g. none o l (omega arith))
    | inr over ↦
        let zero_rounds : max_order_of layout group lvl type - low ≡ 0 = ground arith in
        rw zero_rounds (unfold remove_loop in refl)
  ]

module _ (layout : Layout) (group lvl type : ℕ) (xs : ℕ → List Ptr) (low k : ℕ) (x : Ptr)
    (rest : List Ptr) where
  left_small :
      xs k ≡ x ∷ rest
      → ((o : ℕ) → length (xs o) + 1 < 2 ^ 31)
      → (o : ℕ) → length (left layout group lvl type xs low k x rest o) < 2 ^ 31
  left_small first small o = elim (Bool-cases (o == k)) [
    | inl e ↦ let s = small k in let s1 = rw first at s in rw e (ground (arith, s1))
    | inr ne ↦ rw ne (ground (arith, small o))
  ]

  -- The items in the free lists before, and after the block has been taken, with what is handed out.
  left-total :
      xs k ≡ x ∷ rest
      → low ≤ k
      → k < 9
      → (unit : ℕ)
      → total 9 (λ o. length (left layout group lvl type xs low k x rest o)) unit 0 + 2 ^ low * unit
        ≡ total 9 (λ o. length (xs o)) unit 0
  left-total first order top unit =
      let counts : ℕ → ℕ = λ o. length (xs o) in
      let one : 1 ≤ length (xs k) = rw first (omega arith) in
      let a =
        total-same 9 (λ o. length (left layout group lvl type xs low k x rest o))
          (grown low k (dropped k counts)) unit 0 (λ o h. left_length o) in
      let b = total-grown 9 low k (dropped k counts) unit 0 (omega arith) order (omega arith) in
      let c = total-dropped 9 k counts unit 0 one (omega arith) (omega arith) in
      omega (arith, a, b, c)
    where
      left_length :
          (o : ℕ)
          → length (left layout group lvl type xs low k x rest o)
            ≡ grown low k (dropped k (λ o'. length (xs o'))) o
      left_length o = elim (Bool-cases (o == k)) [
        | inl e ↦
            let same = eq_of_== o k e in
            let out : (leb low o && ltb o k) ≡ false = ground arith in
            rw (e, out, same, first) (omega arith)
        | inr ne ↦ rw ne (ground arith)
      ]

  -- `remove_group_migration` for a block of order `low`, with `is_table` false, where the lists
  -- from `low` up to below `k` are empty and the first block of order `k` is taken: it returns that
  -- block, marked as one of order `low`; the list of `k` loses it, each list from `low` up to below
  -- `k` gets one of its halves in front, the other lists stay, the counts stay the lengths of the
  -- lists, and the budget of the group goes down by the items of a block of order `low`. Before,
  -- the nine lists are rings without a common node, with their lengths as counts, below 2^31 - 1,
  -- and items below 2^64 in all; the order `k` is at most 8, below the orders in use and not below
  -- `low`; the upper halves of the block are not NULL, differ from each other and are neither in a
  -- list nor a head; the block passes the test of `is_taken` and that of its alignment. Any
  -- positive fuel is enough.
  pub remove_group_migration-FreeLists :
      (w : World)
      → FreeLists layout group type w xs
      → xs k ≡ x ∷ rest
      → k < 9
      → low ≤ k
      → IsWhole layout group lvl type xs low k x rest
      → ((o : ℕ) → length (xs o) + 1 < 2 ^ 31)
      → total 9 (λ o. length (xs o)) (unit_of lvl) 0 < word_mod
      → k < max_order_of layout group lvl type
      → ((o : ℕ) → low ≤ o → o < k → xs o ≡ [])
      → is_taken type k (w.item x) ≡ true
      → is_misaligned layout lvl type x w ≡ false
      → (fuel : ℕ)
      → (w' : World) × (remove_group_migration (suc fuel) layout group lvl low type false w
          ≡ returns x w')
        × FreeLists layout group type w' (left layout group lvl type xs low k x rest)
        × (w'.item x
            ≡ allocated
                (layout.node_id group)
                low
                lvl
                (item_shift_of type)
                (layout.dim group)
                (w.item x))
        × (group_budget w'.free_count group lvl type 0 Sizes.max_item_order + 2 ^ low * unit_of lvl
            ≡ group_budget w.free_count group lvl type 0 Sizes.max_item_order)
  unfolding remove_group_migration
  remove_group_migration-FreeLists w lists first top order whole small fits reach none taken aligned
        fuel =
      let (w', run, lists', marked) =
        take_entry-FreeLists layout group lvl type xs low k x rest w lists first top order whole
          small aligned in
      let search =
        remove_loop_lem layout group lvl type xs w lists low k x rest first top taken (k - low)
          (max_order_of layout group lvl type - low) fuel low (omega arith) (omega arith) none in
      let sum = left-total first order top (unit_of lvl) in
      let before =
        total-same 9 (w.free_count group type) (λ o. length (xs o)) (unit_of lvl) 0
          (λ o h. lists.counts o h) in
      let after =
        total-same 9 (w'.free_count group type)
          (λ o. length (left layout group lvl type xs low k x rest o)) (unit_of lvl) 0
          (λ o h. lists'.counts o h) in
      let budget =
        group_budget_lem w.free_count group lvl type
          (λ o h. rw (lists.counts o h) (omega (arith, small o))) (omega arith) in
      let budget' =
        group_budget_lem w'.free_count group lvl type
          (λ o h. rw (lists'.counts o h) (left_small first small o)) (omega arith) in
      (w', search ∙ run, lists', marked, omega (arith, sum, before, after, budget, budget'))
