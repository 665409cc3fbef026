-- ===== src/Group/Conserve.antt =====
-- A split loses no item: what the budget of the group gains and what is handed out add up to the
-- block.
use mathlib.Core.Path.{fun_ext}
use new_explorer_aios.Prelude.{
  ℕ, ◌+◌, ◌*◌, ◌^◌, ◌≤◌, ◌<◌, ◌≡◌, ◌∙◌, refl, arith, List, ltb, ◌==◌, if◌then◌else◌,
}
use new_explorer_aios.Bits.Word.{word_mod}
use new_explorer_aios.Struct.Sizes
use new_explorer_aios.Links.Memory.{Ptr}
use new_explorer_aios.Group.World.{World, Layout, returns}
use new_explorer_aios.Group.{split_group_migration, allocated, item_shift_of, group_budget}
use new_explorer_aios.Group.Split.{Ready, split_loop-Freed}
use new_explorer_aios.Group.Budget.{total, grown, budget_loop_lem, total-grown}

-- The items of a block of order 0 at a level.
abbrev pub unit_of : ℕ → ℕ
unit_of lvl = 2 ^ Sizes.function_item_lvl Sizes.group_order_num_shift lvl

pub group_budget_lem :
    (free_count : ℕ → ℕ → ℕ → ℕ) (group lvl type : ℕ)
    → ((o : ℕ) → o < 9 → free_count group type o < 2 ^ 31)
    → total 9 (free_count group type) (unit_of lvl) 0 < word_mod
    → group_budget free_count group lvl type 0 Sizes.max_item_order
      ≡ total 9 (free_count group type) (unit_of lvl) 0
unfolding group_budget
group_budget_lem free_count group lvl type small fits = omega (
  arith,
  budget_loop_lem 9 (free_count group type)
      (Sizes.function_item_lvl Sizes.group_order_num_shift lvl) 0 0 (omega arith) small
      (omega arith) (omega (arith, fits)),
)

-- `split_group_migration` of a block from the order `high`, of at most 9, down to `low` returns,
-- and the budget of the group with the items of the part handed out is the budget before with the
-- items of the whole block. The free lists and the halves are as a split needs them, and neither
-- the counts outgrow an `int` nor the items a word.
pub split_group_migration-budget :
    (layout : Layout) (group : ℕ) (item : Ptr) (lvl type : ℕ) (xs : ℕ → List Ptr) (low high : ℕ)
    (w : World)
    → Ready layout group item lvl type xs w low high
    → low ≤ high
    → high ≤ 9
    → ((o : ℕ) → w.free_count group type o + 1 < 2 ^ 31)
    → total 9 (w.free_count group type) (unit_of lvl) 0 + 2 ^ high * unit_of lvl < word_mod
    → (w' : World) × (split_group_migration layout group item lvl low high type w ≡ returns tt w')
      × (group_budget w'.free_count group lvl type 0 Sizes.max_item_order + 2 ^ low * unit_of lvl
          ≡ group_budget w.free_count group lvl type 0 Sizes.max_item_order
            + 2 ^ high * unit_of lvl)
unfolding split_group_migration
split_group_migration-budget layout group item lvl type xs low high w ready order top small fits =
    let (w', run, rest) = split_loop-Freed layout group item lvl type xs low high w ready in
    let same : w'.free_count group type ≡ grown low high (w.free_count group type) =
      fun_ext (λ o. rest.counts o ∙ ground (arith, small o)) in
    let sum =
      total-grown 9 low high (w.free_count group type) (unit_of lvl) 0 (omega arith) order
        (omega arith) in
    let before =
      group_budget_lem w.free_count group lvl type (λ o h. omega (arith, small o)) (omega arith) in
    let after =
      group_budget_lem w'.free_count group lvl type
        (λ o h. rw (rest.counts o) (ground (arith, small o))) (rw same (omega (arith, sum))) in
    (
      record w' {
        item = λ q.
            if q == item
            then allocated (layout.node_id group) (if ltb low high then low else high) lvl
                (item_shift_of type) (layout.dim group) (w'.item q)
            else w'.item q;
      },
      rw run refl,
      rw (after, before, same) sum,
    )
