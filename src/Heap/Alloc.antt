-- ===== src/Heap/Alloc.antt =====
-- `heap_alloc` on a slice with an item in its free list.
use new_explorer_aios.Prelude.{
  ℕ, ◌+◌, ◌*◌, ◌/◌, ◌%◌, ◌^◌, ◌≤◌, ◌<◌, ◌≡◌, refl, true, false, arith, ◌==◌, ltb, ==_self,
  if◌then◌else◌,
}
use new_explorer_aios.Bits.Word.{word_mod, add64}
use new_explorer_aios.Types.{set_bit, find_first_zero_bit}
use new_explorer_aios.Request.{Class}
use new_explorer_aios.Flags.{get_item_node}
use new_explorer_aios.Locate.{item_to_range, item_to_idx}
use new_explorer_aios.Links.Memory.{Ptr, null, done}
use new_explorer_aios.Links.{list_peek_head}
use new_explorer_aios.Group.World.{World, returns}
use new_explorer_aios.Group.Compound.{fetch}
use new_explorer_aios.Group.Remove.{live_arrays}
use new_explorer_aios.Node.Replies.{reply, lift}
use new_explorer_aios.Node.Shared.{Setting, Vtable}
use new_explorer_aios.Heap.{
  slice_stat, slice_free, slice_empty, slice_bits, slice_size, becomes_full, fetch_slice, range_of,
  take_block, heap_alloc,
}
use new_explorer_aios.Heap.Blocks.{first_block-free}

-- The world with one more block of an item in use.
abbrev pub used : (item : Ptr) → (idx : ℕ) → World → World
used item idx w = record w {
  item = λ q.
      if q == item
      then record (w.item q) { slice_ref = set_bit idx (slice_bits (w.item q)) 0 }
      else w.item q;
}

pub fetch_slice-ok :
    (slice : Ptr) (w : World)
    → (slice == null) ≡ false
    → fetch_slice slice w ≡ returns (reply (w.slice slice)) w
unfolding fetch_slice
fetch_slice-ok slice w some_slice = rw some_slice refl

module _ (setting : Setting) (slice item : Ptr) (w : World) (some_slice : (slice == null) ≡ false)
    (some_item : (item == null) ≡ false) (idx : ℕ) where
  used_range :
      item_to_range (live_arrays setting.layout (used item idx w)) (used item idx w).item item
      ≡ item_to_range (live_arrays setting.layout w) w.item item
  unfolding item_to_range item_to_idx live_arrays get_item_node
  used_range = rw (==_self item) refl

  pub fetch_item : (v : World) → lift (fetch item) v ≡ returns (reply (v.item item)) v
  unfolding fetch
  fetch_item v = rw some_item refl

  -- The block is marked, and the item stays in its list.
  take_block_lem :
      find_first_zero_bit (slice_bits (w.item item)) (slice_size (w.slice slice)) ≡ idx
      → idx < slice_size (w.slice slice)
      → slice_stat (w.item item) ≡ slice_free
      → becomes_full ((used item idx w).item item) (slice_size (w.slice slice)) ≡ false
      → take_block setting slice item w
        ≡ returns
            (reply (
              add64
                (item_to_range (live_arrays setting.layout w) w.item item)
                (idx * (w.slice slice).bsize)))
            (used item idx w)
  unfolding take_block fetch_slice range_of
  take_block_lem found below in_use stays =
      let within : ltb idx (slice_size (w.slice slice)) ≡ true = ground arith in
      let cut : (slice_stat (w.item item) == slice_empty) ≡ false = rw in_use refl in
      rw
        (
          some_slice,
          fetch_item w,
          found,
          within,
          cut,
          used_range,
          fetch_item (used item idx w),
          stays,
        )
        refl

-- The first block of an item that is not in use, by the bitmap.
abbrev pub next_block : (slice item : Ptr) → World → ℕ
next_block slice item w =
    find_first_zero_bit (slice_bits (w.item item)) (slice_size (w.slice slice))

module _ (setting : Setting) (vtable : Vtable) (before : Class) (slice item : Ptr) (w : World) where
  -- Where a slice counts items in its free list, of which the first has at most 64 blocks, one of them
  -- free, and does not become full, `heap_alloc` returns the range of the first free block of that item: all
  -- blocks before it are in use. Only the bitmap of the item changes, by the digit of the block, which goes
  -- from 0 to 1.
  pub heap_alloc_lem :
      (i : ℕ)
      → (slice == null) ≡ false
      → (item == null) ≡ false
      → ((w.slice slice).free_count == 0) ≡ false
      → list_peek_head (w.slice slice).free_list w.links ≡ done item w.links
      → slice_stat (w.item item) ≡ slice_free
      → (w.item item).slice_ref < word_mod
      → slice_size (w.slice slice) ≤ 64
      → i < slice_size (w.slice slice)
      → (w.item item).slice_ref / 2 ^ i % 2 ≡ 0
      → becomes_full
          ((used item (next_block slice item w) w).item item)
          (slice_size (w.slice slice))
        ≡ false
      → (heap_alloc setting vtable before slice w
          ≡ returns
              (reply (
                add64
                  (item_to_range (live_arrays setting.layout w) w.item item)
                  ((next_block slice item w) * (w.slice slice).bsize)))
              (used item (next_block slice item w) w))
        × ((next_block slice item w) < slice_size (w.slice slice))
        × ((w.item item).slice_ref / 2 ^ (next_block slice item w) % 2 ≡ 0)
        × ((j : ℕ) → j < (next_block slice item w) → (w.item item).slice_ref / 2 ^ j % 2 ≡ 1)
        × (((used item (next_block slice item w) w).item item).slice_ref
            ≡ (w.item item).slice_ref + 2 ^ (next_block slice item w))
  unfolding heap_alloc
  heap_alloc_lem i some_slice some_item counted first in_use word few within free stays =
      let (below, clear, before_it, marked) =
        first_block-free (w.item item) (slice_size (w.slice slice)) word few i within free in
      (
        rw (fetch_slice-ok slice w some_slice, counted, first)
            (take_block_lem setting slice item w some_slice some_item (next_block slice item w) refl
              below in_use stays),
        below,
        clear,
        before_it,
        rw (==_self item) marked,
      )
