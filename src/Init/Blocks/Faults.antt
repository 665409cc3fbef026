-- ===== src/Init/Blocks/Faults.antt =====
-- The first block of a node.
use native.Mathlib.Nat.{div-eq-sub-div}
use new_explorer_aios.Prelude.{
  ℕ, zero, suc, ◌≡◌, refl, false, ◌-◌, ◌*◌, ◌/◌, arith, ◌==◌, Bool-cases, inl, inr, ◌≤◌, ◌<◌, ◌^◌,
  bit_and, leb, ltb,
}
use new_explorer_aios.Bits.Word.{word_mod, sub64, add64}
use new_explorer_aios.Macros.{bit}
use new_explorer_aios.Bits.Split.{and-zero}
use new_explorer_aios.Struct.Enums
use new_explorer_aios.Struct.Sizes
use new_explorer_aios.Convert.{range_to_idx}
use new_explorer_aios.Links.Memory.{Ptr, null}
use new_explorer_aios.Links.Loose.{list_add_tail-null}
use new_explorer_aios.Group.World.{World, Layout, faults, as_int}
use new_explorer_aios.Group.Free.{item_plus}
use new_explorer_aios.Init.Blocks.{
  Filling, block_shift, blocks_size, place_block, place_blocks, fill_orders, fill_level,
  fill_levels, init_pnode_item,
}

-- One block of order 0 fits where its size does.
a_block_fits : (size left : ℕ) → 1 ≤ size → size ≤ left → (left / (size * bit 0) == 0) ≡ false
unfolding bit
a_block_fits size left positive fits =
    let one_block : size * bit 0 ≡ size = omega arith in
    rw (one_block, div-eq-sub-div positive fits) (ground arith)

module _ (layout : Layout) (pid group block_size : ℕ) (w : World) where
  -- The first of some blocks faults where the item it starts at is in no list.
  pub place_blocks-faults :
      (blocks order : ℕ) (start item : Ptr)
      → (blocks == 0) ≡ false
      → ((k : ℕ) → w.links.prev (item_plus start k) ≡ null)
      → place_blocks layout pid blocks group block_size order start item w ≡ faults
  unfolding place_blocks place_block
  place_blocks-faults zero order start item some_block empty = ground arith
  place_blocks-faults (suc i) order start item some_block empty =
      rw
        (list_add_tail-null w.links
          (item_plus start (sub64 0 (blocks_size block_size order (suc i))))
          (layout.free_cell group Enums.migration_movable order)
          (empty (sub64 0 (blocks_size block_size order (suc i)))))
        refl

  -- The loop over the orders places a block where the size of one is left, and goes through NULL where
  -- no item before the end of the array is in a list.
  pub fill_orders-faults :
      (order lvl : ℕ) (f : Filling)
      → 1 ≤ block_size
      → block_size ≤ f.left
      → ((k : ℕ) → w.links.prev (item_plus f.start k) ≡ null)
      → fill_orders layout pid (suc order) group lvl block_size f w ≡ faults
  unfolding fill_orders
  fill_orders-faults zero lvl f positive fits empty =
      rw
        (
          a_block_fits block_size f.left positive fits,
          place_blocks-faults (f.left / (block_size * bit 0)) 0 f.start f.start
              (a_block_fits block_size f.left positive fits) empty,
        )
        refl
  fill_orders-faults (suc order) lvl f positive fits empty =
      elim (Bool-cases (f.left / (block_size * bit (suc order)) == 0)) [
        | inl none_left ↦ rw none_left (fill_orders-faults order lvl f positive fits empty)
        | inr some_block ↦
            rw
              (
                some_block,
                place_blocks-faults (f.left / (block_size * bit (suc order))) (suc order) f.start
                    f.start some_block empty,
              )
              refl
      ]

module _ (layout : Layout) (pid : ℕ) (w : World) where
  fill_level-faults :
      (lvl : ℕ) (f : Filling)
      → 1 ≤ as_int (bit (block_shift lvl))
      → as_int (bit (block_shift lvl)) ≤ f.left
      → ((k : ℕ) → w.links.prev (item_plus f.start k) ≡ null)
      → fill_level layout pid lvl f w ≡ faults
  unfolding fill_level
  fill_level-faults lvl f positive fits empty =
      fill_orders-faults layout pid (layout.group_lvl lvl pid) (as_int (bit (block_shift lvl))) w 8
        lvl f positive fits empty

  -- From a level on, `rounds` levels go through NULL for every number of items that are left.
  abbrev FaultsFrom : (rounds offset lvl : ℕ) → Type 0
  FaultsFrom rounds offset lvl =
      (f : Filling)
      → 1 ≤ f.left
      → f.left < 2 ^ 31
      → ((k : ℕ) → w.links.prev (item_plus f.start k) ≡ null)
      → fill_levels layout pid rounds offset lvl f w ≡ faults

  level_step :
      (rounds offset lvl : ℕ)
      → 1 ≤ as_int (bit (block_shift lvl))
      → FaultsFrom rounds offset (add64 lvl 1)
      → FaultsFrom (suc rounds) offset lvl
  unfolding fill_levels
  level_step rounds offset lvl positive below f some_left small empty =
      let size = as_int (bit (block_shift lvl)) in
      let no_sign : leb (2 ^ 63) f.left ≡ false = ground arith in
      elim (Bool-cases (ltb f.left size)) [
        | inl short ↦ rw (no_sign, short) (below f some_left small empty)
        | inr long ↦
            let fits : size ≤ f.left = ground arith in
            let not_zero : (size == 0) ≡ false = ground arith in
            elim (Bool-cases (bit_and (range_to_idx offset) (sub64 size 1) == 0)) [
              | inl aligned ↦
                  rw (no_sign, long, aligned, not_zero, fill_level-faults lvl f positive fits empty)
                    refl
              | inr apart ↦
                  rw (no_sign, long, apart)
                    (below (record f { first_lvl = add64 f.first_lvl 1 }) some_left small empty)
            ]
      ]

  -- The last level, whose blocks have one item.
  last_level : (offset : ℕ) → FaultsFrom 1 offset 3
  unfolding fill_levels block_shift bit as_int
  last_level offset f positive small empty =
      let no_sign : leb (2 ^ 63) f.left ≡ false = ground arith in
      let long : ltb f.left 1 ≡ false = ground arith in
      rw
        (
          no_sign,
          long,
          and-zero (range_to_idx offset),
          fill_level-faults 3 f (omega arith) positive empty,
        )
        refl

  second_level : (offset : ℕ) → FaultsFrom 2 offset 2
  unfolding block_shift bit as_int
  second_level offset = level_step 1 offset 2 (omega arith) (last_level offset)

  first_level : (offset : ℕ) → FaultsFrom 3 offset 1
  unfolding block_shift bit as_int
  first_level offset = level_step 2 offset 1 (omega arith) (second_level offset)

  -- The four levels that a node can start at.
  fill_levels-faults : (lvl offset : ℕ) → lvl ≤ 3 → FaultsFrom (4 - lvl) offset lvl
  unfolding block_shift bit as_int
  fill_levels-faults zero offset bound = level_step 3 offset 0 (omega arith) (first_level offset)
  fill_levels-faults (suc zero) offset bound = first_level offset
  fill_levels-faults (suc (suc zero)) offset bound = second_level offset
  fill_levels-faults (suc (suc (suc zero))) offset bound = last_level offset
  fill_levels-faults (suc (suc (suc (suc more)))) offset bound = absurd (omega arith)

-- The set-up of the blocks of a node goes through NULL whenever its first level is one of the four,
-- it has at least 1 and fewer than 2^31 items, and the link to the node before is NULL at every
-- address that whole items separate from the end of the array: the first block that it places is
-- given for the list.
pub init_pnode_item-faults :
    (layout : Layout) (pid offset base_size first_lvl first_order : ℕ) (item_end : Ptr) (w : World)
    → first_lvl ≤ 3
    → 1 ≤ base_size / Sizes.fixed_item_size
    → base_size / Sizes.fixed_item_size < 2 ^ 31
    → ((k : ℕ) → w.links.prev (item_plus item_end k) ≡ null)
    → init_pnode_item layout pid offset base_size first_lvl first_order item_end w ≡ faults
unfolding init_pnode_item as_int
init_pnode_item-faults layout pid offset base_size first_lvl first_order item_end w bound some_items
      small empty =
    let n = base_size / Sizes.fixed_item_size in
    let whole : as_int n ≡ n = ground arith in
    let has_level : (first_lvl == word_mod - 1) ≡ false = ground arith in
    rw (has_level, whole)
      (fill_levels-faults layout pid w first_lvl offset bound
        (record { first_lvl = first_lvl; first_order = first_order; left = n; start = item_end })
        some_items small empty)
