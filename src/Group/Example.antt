-- ===== src/Group/Example.antt =====
-- A split at a concrete group: the block at 10000, of order 2 in level 3, and empty free lists.
use new_explorer_aios.Prelude.{
  ℕ, zero, suc, ◌+◌, ◌-◌, ◌*◌, ◌%◌, ◌^◌, ◌≤◌, ◌<◌, ◌≡◌, refl, List, ◌∷◌, [], length, arith, true,
  false, ◌==◌, if◌then◌else◌, Bool-cases, inl, inr, eq_of_==,
}
use new_explorer_aios.Bits.Word.{word_mod, add64}
use new_explorer_aios.Convert.{range_to_idx}
use new_explorer_aios.Locate.{item_to_idx}
use new_explorer_aios.Links.Memory.{Ptr}
use new_explorer_aios.Links.Chain.{Ring}
use new_explorer_aios.Group.World.{World, returns, item_at, as_int}
use new_explorer_aios.Group.{
  split_group_migration, group_budget, budget_loop, half_size, freed, allocated, item_shift_of,
}
use new_explorer_aios.Group.Budget.{total}
use new_explorer_aios.Group.Conserve.{unit_of, split_group_migration-budget}
use new_explorer_aios.Group.Remove.{max_order_of, is_misaligned, is_taken, remove_group_migration}
use new_explorer_aios.Group.Remove.Cell.{FreeLists, IsWhole, left}
use new_explorer_aios.Group.Remove.Lists.{remove_group_migration-FreeLists}
use new_explorer_aios.Macros.{bit}
use new_explorer_aios.Group.Enqueue.{forward_remove_group_migration}
use new_explorer_aios.Group.Enqueue.Taken.{forward_remove_group_migration-FreeLists}
use new_explorer_aios.Group.Enqueue.Levels.{budget_at, forward_remove_group_migration-empty}
use new_explorer_aios.Group.Free.{free_group_migration}
use new_explorer_aios.Group.Ensures.{Ensures}
use new_explorer_aios.Group.Free.Merge.{IsFree}
use new_explorer_aios.Group.Free.Never.{Never, free_group_migration-Never}
use new_explorer_aios.Group.Sample.{cells, no_item, empty_world, missing}
use new_explorer_aios.Group.Split.{Ready, split_group_migration-Ring}

abbrev no_nodes : ℕ → List Ptr
no_nodes o = []

half_lem : (o : ℕ) → o < 2 → item_at 10000 (half_size 1 3 o) ≡ 10072 + 72 * o
unfolding half_size item_at as_int
half_lem zero h = refl
half_lem (suc zero) h = refl
half_lem (suc (suc o)) h = absurd (omega arith)

empty_world-Ready : Ready cells 0 10000 3 1 no_nodes empty_world 0 2
empty_world-Ready = record {
  rings = λ o l h. record { chain = (refl, refl); distinct = (refl, tt); no_null = ground arith };
  separate = λ o o' a l h l' h' ne i. ground arith;
  fresh = λ o o' l h l' h'. rw (half_lem o h) (ground arith);
  halves = λ o o' l h l' h' ne. rw (half_lem o h, half_lem o' h') (ground arith);
  there = λ o l h. rw (half_lem o h) (λ e. omega arith);
}

split_group_migration-Ring_example :
    (w' : World) × (split_group_migration cells 0 10000 3 0 2 1 empty_world ≡ returns tt w')
    × Ring w'.links 101 (item_at 10000 (half_size 1 3 1) ∷ [])
    × (w'.free_count 0 1 1 ≡ add64 0 1)
    × (w'.item (item_at 10000 (half_size 1 3 1)) ≡ freed 0 1 3 no_item)
    × (w'.item 10000 ≡ allocated 0 0 3 (item_shift_of 1) 1 no_item)
split_group_migration-Ring_example =
    split_group_migration-Ring cells 0 10000 3 1 no_nodes 0 2 empty_world empty_world-Ready
      (λ o l h. rw (half_lem o h) (ground arith)) 1 (omega arith) (omega arith)

no_items : total 9 (empty_world.free_count 0 1) (unit_of 3) 0 ≡ 0
unfolding total
no_items = refl

split_group_migration-budget_example :
    (w' : World) × (split_group_migration cells 0 10000 3 0 2 1 empty_world ≡ returns tt w')
    × (group_budget w'.free_count 0 3 1 0 8 + 1 ≡ group_budget empty_world.free_count 0 3 1 0 8 + 4)
split_group_migration-budget_example =
    split_group_migration-budget cells 0 10000 3 1 no_nodes 0 2 empty_world empty_world-Ready
      (omega arith) (omega arith) (λ o. omega arith) (omega (arith, no_items))

-- A level whose only free block is the one at 10000, of order 2.
abbrev one_block : ℕ → List Ptr
one_block o = if o == 2 then 10000 ∷ [] else []

abbrev one_block_world : World
one_block_world = record empty_world {
  links = record {
    prev = λ p. if p == 102 then 10000 else if p == 10000 then 102 else p;
    next = λ p. if p == 102 then 10000 else if p == 10000 then 102 else p;
  };
  free_count = λ g t o. if o == 2 then 1 else 0;
}

one_block-FreeLists : (g : ℕ) → FreeLists cells g 1 one_block_world one_block
one_block-FreeLists g = record {
  rings = λ o h. elim (Bool-cases (o == 2)) [
    | inl e ↦
        rw (e, eq_of_== o 2 e)
          record {
            chain = (refl, refl, (refl, refl));
            distinct = (refl, (refl, tt));
            no_null = refl;
          }
    | inr ne ↦ rw ne record {
      chain = (ground arith, ground arith);
      distinct = (refl, tt);
      no_null = ground arith;
    }
  ];
  counts = λ o h. elim (Bool-cases (o == 2)) [ inl e ↦ rw e refl | inr ne ↦ rw ne refl ];
  separate = λ o o' a h h' ne i. elim (Bool-cases (o == 2)) [
    | inl e ↦
        let other : (o' == 2) ≡ false = ground arith in
        let i1 = rw e at i in rw other (ground arith)
    | inr e ↦
        let i1 = rw e at i in
        elim (Bool-cases (o' == 2)) [
          | inl e' ↦ rw e' (ground arith)
          | inr e' ↦ rw e' (ground arith)
        ]
  ];
}

one_block-IsWhole : (g : ℕ) → IsWhole cells g 3 1 one_block 0 2 10000 []
one_block-IsWhole g = record {
  fresh = λ o o' l h g. elim (Bool-cases (o' == 2)) [
    | inl e ↦ rw (e, half_lem o h) (ground arith)
    | inr e ↦ rw (e, half_lem o h) (ground arith)
  ];
  halves = λ o o' l h l' h' ne. rw (half_lem o h, half_lem o' h') (ground arith);
  there = λ o l h. rw (half_lem o h) (λ e. omega arith);
}

one_block_aligned : is_misaligned cells 3 1 10000 one_block_world ≡ false
unfolding is_misaligned item_to_idx range_to_idx
one_block_aligned = refl

one_block_top : (g : ℕ) → 2 < max_order_of cells g 3 1
unfolding max_order_of
one_block_top g = omega arith

one_block_taken : is_taken 1 2 (one_block_world.item 10000) ≡ true
unfolding is_taken
one_block_taken = refl

one_block_total : total 9 (λ o. length (one_block o)) (unit_of 3) 0 ≡ 4
unfolding total
one_block_total = refl

one_block_small : (o : ℕ) → length (one_block o) + 1 < 2 ^ 31
one_block_small o = elim (Bool-cases (o == 2)) [
  | inl e ↦ rw e (omega arith)
  | inr e ↦ rw e (omega arith)
]

one_block_first : (o : ℕ) → 0 ≤ o → o < 2 → one_block o ≡ []
one_block_first o l h = ground arith

-- A request for one item.
remove_group_migration-FreeLists_example :
    (w' : World) × (remove_group_migration 1 cells 0 3 0 1 false one_block_world ≡ returns 10000 w')
    × FreeLists cells 0 1 w' (left cells 0 3 1 one_block 0 2 10000 [])
    × (w'.item 10000 ≡ allocated 0 0 3 (item_shift_of 1) 1 no_item)
    × (group_budget w'.free_count 0 3 1 0 8 + 2 ^ 0 * unit_of 3
        ≡ group_budget one_block_world.free_count 0 3 1 0 8)
remove_group_migration-FreeLists_example =
    remove_group_migration-FreeLists cells 0 3 1 one_block 0 2 10000 [] one_block_world
      (one_block-FreeLists 0) refl (omega arith) (omega arith) (one_block-IsWhole 0) one_block_small
      (omega (arith, one_block_total)) (one_block_top 0) one_block_first one_block_taken
      one_block_aligned 0

-- A block that is in no list.
abbrev loose_world : World
loose_world = record empty_world { links = record { prev = λ p. 0; next = λ p. 0 } }

-- The same request at the level of the node.
forward_remove_group_migration-FreeLists_example :
    (w' : World) × (forward_remove_group_migration 1 cells 3 1 0 1 one_block_world
      ≡ returns 10000 w')
    × FreeLists cells 3 1 w' (left cells 3 3 1 one_block 0 2 10000 [])
    × (w'.item 10000 ≡ allocated 0 0 3 (item_shift_of 1) 1 no_item)
    × (group_budget w'.free_count 3 3 1 0 8 + 2 ^ 0 * unit_of 3
        ≡ group_budget one_block_world.free_count 3 3 1 0 8)
forward_remove_group_migration-FreeLists_example =
    forward_remove_group_migration-FreeLists cells 3 1 1 one_block 0 2 10000 [] one_block_world
      (omega arith) (one_block-FreeLists 3) refl (omega arith) (omega arith) (one_block-IsWhole 3)
      one_block_small (omega (arith, one_block_total)) (one_block_top 3) one_block_first
      one_block_taken one_block_aligned 0

no_summand : (p q : ℕ) → add64 0 (0 * p % word_mod * q % word_mod) ≡ 0
no_summand p q = let e : 0 * p % word_mod ≡ 0 = omega arith in rw e (omega arith)

no_budget : (rounds b i : ℕ) → budget_loop rounds (λ o. 0) b i 0 ≡ 0
unfolding budget_loop as_int
no_budget zero b i = refl
no_budget (suc rounds) b i = rw (no_summand (bit i) (bit b)) (no_budget rounds b (i + 1))

empty_budget : (l o : ℕ) → budget_at cells 1 1 empty_world l o ≡ 0
unfolding group_budget as_int
empty_budget l o = no_budget (9 - o) ((4 - l) * 9 + 3 - 12) o

forward_remove_group_migration-empty_example :
    forward_remove_group_migration 1 cells 3 1 0 1 empty_world ≡ returns 0 empty_world
forward_remove_group_migration-empty_example =
    forward_remove_group_migration-empty cells 1 1 empty_world 1 3 0 (empty_budget 3 0)
      (λ l h. empty_budget l 0)

loose-IsFree : IsFree 10000 loose_world
loose-IsFree = record {
  linked = record { after = λ q ok h. absurd (h refl); before = λ q ok h. absurd (h refl) };
  loose = (refl, refl);
  small = omega arith;
}

free_group_migration-Never_example :
    Ensures Never (free_group_migration 5 missing cells 10000 0 3 0 0 loose_world)
free_group_migration-Never_example =
    free_group_migration-Never 5 missing cells 10000 0 3 0 0 loose_world loose-IsFree
