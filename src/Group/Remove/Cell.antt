-- ===== src/Group/Remove/Cell.antt =====
-- Taking one entry out of a free list: what becomes of all the free lists of a migration type.
use new_explorer_aios.Prelude.{
  ℕ, ◌+◌, ◌^◌, ◌≤◌, ◌<◌, ◌≡◌, ◌≢◌, ◌⊎◌, inl, inr, refl, sym, false, ◌&&◌, List, [], ◌∷◌, ◌++◌,
  length, arith, ltb, leb, ◌==◌, if◌then◌else◌, Bool-cases, eq_of_==, ==_self,
}
use new_explorer_aios.Links.Memory.{Ptr, null, Memory, done}
use new_explorer_aios.Links.Chain.{◌∈◌, ◌∉◌, Ring}
use new_explorer_aios.Links.Insert.{apart}
use new_explorer_aios.Links.Remove.{list_del-frame}
use new_explorer_aios.Links.{list_del}
use new_explorer_aios.Group.World.{World, Layout, returns, item_at, count_down}
use new_explorer_aios.Group.{half_size, allocated, item_shift_of}
use new_explorer_aios.Group.Split.{Ready, Freed, split_group_migration-Freed}
use new_explorer_aios.Group.Remove.{take_entry, is_misaligned}

moved : (a b : Ptr) (ys : List Ptr) → a ≡ b → b ∉ ys → a ∉ ys
moved a b ys e out = rw e out

out_second : (a c h : Ptr) (ys : List Ptr) → a ∉ c ∷ ys → (a == h) ≡ false → a ∉ c ∷ h ∷ ys
out_second a c h ys out ne = ground arith

moved_test : (a b c : Ptr) → a ≡ b → (b == c) ≡ false → (a == c) ≡ false
moved_test a b c e out = rw e out

module _ (layout : Layout) (group type : ℕ) where
  -- The nine free lists of a migration type: they are rings without a common node, and each count
  -- is the length of its list.
  pub record FreeLists (w : World) (xs : ℕ → List Ptr) : Type 0 where
    pub rings : (o : ℕ) → o < 9 → Ring w.links (layout.free_cell group type o) (xs o)
    pub counts : (o : ℕ) → o < 9 → w.free_count group type o ≡ length (xs o)
    pub separate :
        (o o' a : ℕ)
        → o < 9
        → o' < 9
        → o ≢ o'
        → a ∈ layout.free_cell group type o ∷ xs o
        → a ∉ layout.free_cell group type o' ∷ xs o'

module _ (layout : Layout) (group lvl type : ℕ) (xs : ℕ → List Ptr) (low k : ℕ) (x : Ptr)
    (rest : List Ptr) where
  abbrev pub half : ℕ → Ptr
  half o = item_at x (half_size type lvl o)

  abbrev pub nodes : ℕ → List Ptr
  nodes o = layout.free_cell group type o ∷ xs o

  -- The upper halves of the block at `x` are in no free list and different from each other.
  pub record IsWhole : Type 0 where
    pub fresh : (o o' : ℕ) → low ≤ o → o < k → o' < 9 → half o ∉ nodes o'
    pub halves :
        (o o' : ℕ) → low ≤ o → o < k → low ≤ o' → o' < k → o ≢ o' → (half o == half o') ≡ false
    pub there : (o : ℕ) → low ≤ o → o < k → half o ≢ null

  -- The free lists after the block `x`, first in the list of order `k`, has been split down to `low`.
  abbrev pub left : ℕ → List Ptr
  left o = if o == k then rest else if leb low o && ltb o k then half o ∷ xs o else xs o

  module _ (w : World) (lists : FreeLists layout group type w xs) (first : xs k ≡ x ∷ rest)
      (top : k < 9) (order : low ≤ k) (whole : IsWhole)
      (small : (o : ℕ) → length (xs o) + 1 < 2 ^ 31) where
    x-mem : x ∈ nodes k
    x-mem = rw first (ground arith)

    x_ne : (o : ℕ) → low ≤ o → o < k → (x == half o) ≡ false
    x_ne o l h = ground (arith, apart (half o) x (nodes k) (whole.fresh o k l h top) x-mem)

    rest_sub : (a : Ptr) → a ∈ layout.free_cell group type k ∷ rest → a ∈ nodes k
    rest_sub a i = rw first (ground arith)

    in_left :
        (a o : ℕ)
        → o < 9
        → a ∈ layout.free_cell group type o ∷ left o
        → (a ∈ nodes o) ⊎ ((low ≤ o) × (o < k) × (a ≡ half o))
    in_left a o h i = elim (Bool-cases (o == k)) [
      | inl e ↦
          let same = eq_of_== o k e in
          let i1 = rw e at i in let i2 = rw same at i1 in inl (rw same (rest_sub a i2))
      | inr ne ↦ elim (Bool-cases (leb low o && ltb o k)) [
        | inl e ↦
            let i1 = rw (ne, e) at i in
            elim (Bool-cases (a == half o)) [
              | inl hit ↦ inr (ground arith, ground arith, eq_of_== a (half o) hit)
              | inr miss ↦ inl (ground arith)
            ]
        | inr out ↦ let i1 = rw (ne, out) at i in inl i1
      ]
    ]

    not_in_left :
        (a o : ℕ)
        → a ∉ nodes o
        → (low ≤ o → o < k → (a == half o) ≡ false)
        → a ∉ layout.free_cell group type o ∷ left o
    not_in_left a o out apart' = elim (Bool-cases (o == k)) [
      | inl e ↦
          let same = eq_of_== o k e in
          let out1 = rw same at out in rw (e, same) (let out2 = rw first at out1 in ground arith)
      | inr ne ↦ elim (Bool-cases (leb low o && ltb o k)) [
        | inl e ↦
            let apart1 = apart' (ground arith) (ground arith) in
            rw (ne, e) (out_second a (layout.free_cell group type o) (half o) (xs o) out apart1)
        | inr below ↦ rw (ne, below) out
      ]
    ]

    left-separate :
        (o o' a : ℕ)
        → o < 9
        → o' < 9
        → o ≢ o'
        → a ∈ layout.free_cell group type o ∷ left o
        → a ∉ layout.free_cell group type o' ∷ left o'
    left-separate o o' a h h' ne i = elim (in_left a o h i) [
      | inl old ↦
          not_in_left a o' (lists.separate o o' a h h' ne old)
            (λ l g. ground (arith, apart (half o') a (nodes o) (whole.fresh o' o l g h) old))
      | inr (l, g, e) ↦
          not_in_left a o' (moved a (half o) (nodes o') e (whole.fresh o o' l g h'))
            (λ l' g'. moved_test a (half o) (half o') e (whole.halves o o' l g l' g' ne))
    ]

    -- `Ready` for the split, on any world whose links keep the rings below `k`.
    before-Ready :
        (w1 : World)
        → ((o : ℕ) → o < k → Ring w1.links (layout.free_cell group type o) (xs o))
        → Ready layout group x lvl type xs w1 low k
    before-Ready w1 kept = record {
      rings = λ o l h. kept o h;
      separate = λ o o' a l h l' h' ne. lists.separate o o' a (omega arith) (omega arith) ne;
      fresh = λ o o' l h l' h'. whole.fresh o o' l h (omega arith);
      halves = whole.halves;
      there = whole.there;
    }

    rest_nodes : (a : Ptr) → a ∈ layout.free_cell group type k ∷ [] ++ x ∷ rest → a ∈ nodes k
    rest_nodes a i = rw first i

    first-Ring : Ring w.links (layout.free_cell group type k) ([] ++ x ∷ rest)
    first-Ring = rw (← first) (lists.rings k top)

    -- What `take_entry` leaves of the links before the split.
    record Unlinked (m1 : Memory) : Type 0 where
      run : list_del x w.links ≡ done tt m1
      ring : Ring m1 (layout.free_cell group type k) rest
      kept : (o : ℕ) → o < 9 → o ≢ k → Ring m1 (layout.free_cell group type o) (xs o)

    entry-Unlinked : (m1 : Memory) × Unlinked m1
    entry-Unlinked =
        let (m1, run, removed, other) =
          list_del-frame w.links (layout.free_cell group type k) [] x rest first-Ring in
        (
          m1,
          record {
            run = run;
            ring = removed.0;
            kept = λ o h ne.
                other (layout.free_cell group type o) (xs o) (lists.rings o h)
                  (λ a i. lists.separate k o a top h (λ e. ne (sym e)) (rest_nodes a i));
          },
        )

    module _ (m1 : Memory) (un : Unlinked m1) where
      abbrev before_split : World
      before_split = record w { links = m1; free_count = count_down group type k w.free_count }

      module _ (w1 : World) (after : Freed layout group x lvl type xs before_split w1 low k) where
        top_left : Ring w1.links (layout.free_cell group type k) rest
        top_left =
            after.kept (layout.free_cell group type k) rest un.ring
              (λ o a l h i.
                let old = lists.separate o k a (omega arith) top (λ e. omega arith) i in
                not_rest a old)
              (λ o l h. not_rest (half o) (whole.fresh o k l h top))
          where
            not_rest : (a : Ptr) → a ∉ nodes k → a ∉ layout.free_cell group type k ∷ rest
            not_rest a out = let out1 = rw first at out in ground arith

        other_left :
            (o : ℕ)
            → o < 9
            → o ≢ k
            → (leb low o && ltb o k) ≡ false
            → Ring w1.links (layout.free_cell group type o) (xs o)
        other_left o h ne out =
            after.kept (layout.free_cell group type o) (xs o) (un.kept o h ne)
              (λ o' a l' h'. lists.separate o' o a (omega arith) h (λ e. ground arith))
              (λ o' l' h'. whole.fresh o' o l' h' h)

        left-Ring : (o : ℕ) → o < 9 → Ring w1.links (layout.free_cell group type o) (left o)
        left-Ring o h = elim (Bool-cases (o == k)) [
          | inl e ↦ rw (e, eq_of_== o k e) top_left
          | inr ne ↦ elim (Bool-cases (leb low o && ltb o k)) [
            | inl e ↦ rw (ne, e) (after.rings o (ground arith) (ground arith))
            | inr out ↦ rw (ne, out) (other_left o h (λ e. ground arith) out)
          ]
        ]

        left_count : (o : ℕ) → o < 9 → w1.free_count group type o ≡ length (left o)
        left_count o h = elim (Bool-cases (o == k)) [
          | inl e ↦
              let same = eq_of_== o k e in
              let c = lists.counts k top in
              let c1 = rw first at c in
              let s = small k in
              let s1 = rw first at s in rw (after.counts o, e, same) (ground (arith, c1, s1))
          | inr ne ↦ elim (Bool-cases (leb low o && ltb o k)) [
            | inl e ↦ rw (after.counts o, ne, e) (ground (arith, lists.counts o h, small o))
            | inr out ↦ rw (after.counts o, ne, out) (ground (arith, lists.counts o h))
          ]
        ]

    -- `take_entry` on the block `x`, first in its list, returns it: its list loses it, the list of
    -- every order from `low` up to below `k` gains a half, and the other lists stay.
    pub take_entry-FreeLists :
        is_misaligned layout lvl type x w ≡ false
        → (w' : World) × (take_entry layout group x lvl low k type w ≡ returns x w')
          × FreeLists layout group type w' left
          × (w'.item x
              ≡ allocated
                  (layout.node_id group)
                  low
                  lvl
                  (item_shift_of type)
                  (layout.dim group)
                  (w.item x))
    unfolding take_entry
    take_entry-FreeLists whole_block =
        let (m1, un) = entry-Unlinked in
        let (w1, run, after) =
          split_group_migration-Freed layout group x lvl type xs low k (before_split m1 un) (
            before-Ready (before_split m1 un)
              (λ o h. un.kept o (omega arith) (λ e. omega arith))) in
        let same : (if ltb low k then low else k) ≡ low = ground arith in
        (
          record w1 {
            item = λ q.
                if q == x
                then allocated (layout.node_id group) (if ltb low k then low else k) lvl
                    (item_shift_of type) (layout.dim group) (w1.item q)
                else w1.item q;
          },
          rw (whole_block, un.run, run) refl,
          record {
            rings = left-Ring m1 un w1 after;
            counts = left_count m1 un w1 after;
            separate = left-separate;
          },
          rw (==_self x, same, after.unmarked x x_ne) refl,
        )
