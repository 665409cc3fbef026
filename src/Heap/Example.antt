-- ===== src/Heap/Example.antt =====
-- A slice of blocks of 64 bytes at address 900, with one item, of which the blocks 0 and 2 are in use.
use new_explorer_aios.Prelude.{
  ℕ, ◌+◌, ◌*◌, ◌/◌, ◌%◌, ◌^◌, ◌<◌, ◌≡◌, refl, false, arith, ◌==◌, if◌then◌else◌,
}
use new_explorer_aios.Bits.Word.{add64}
use new_explorer_aios.Types.{
  find_first_bit, first_bit_loop, find_first_zero_bit, first_zero_bit_loop, ffz, ffs_word, drop_low,
  min_of, set_bit, store,
}
use new_explorer_aios.Locate.{item_to_range, range_to_item}
use new_explorer_aios.Convert.{idx_to_rel_idx}
use new_explorer_aios.Links.Memory.{done, get_next}
use new_explorer_aios.Links.{list_peek_head}
use new_explorer_aios.Group.World.{World, returns}
use new_explorer_aios.Group.Sample.{cells, no_attr, no_item, empty_world}
use new_explorer_aios.Group.Remove.{live_arrays}
use new_explorer_aios.Node.Replies.{reply}
use new_explorer_aios.Node.Example.{setting, fresh_class, node_calls}
use new_explorer_aios.Heap.{
  slice_stat, slice_free, slice_bits, slice_size, becomes_full, becomes_empty, heap_alloc,
  heap_free,
}
use new_explorer_aios.Heap.Alloc.{used, next_block, heap_alloc_lem}
use new_explorer_aios.Heap.Back.{heap_free-used}

abbrev sliced_world : World
sliced_world = record empty_world {
  links = record {
    prev = λ p. if p == 400 then 10072 else 400;
    next = λ p. if p == 400 then 10072 else 400;
  };
  item = λ p. record no_item { word1_0 = 900; word1_1 = 1; slice_ref = 5 };
  slice = λ p. record (empty_world.slice p) { free_count = 1 };
}

free_state : slice_stat (sliced_world.item 10072) ≡ slice_free
unfolding slice_stat
free_state = refl

first_item : list_peek_head 400 sliced_world.links ≡ done 10072 sliced_world.links
unfolding list_peek_head get_next
first_item = refl

blocks : slice_size (sliced_world.slice 900) ≡ 64
unfolding slice_size
blocks = refl

second_block : next_block 900 10072 sliced_world ≡ 1
unfolding slice_bits slice_size find_first_zero_bit first_zero_bit_loop ffz ffs_word drop_low min_of
second_block = refl

not_full :
    becomes_full
      ((used 10072 (next_block 900 10072 sliced_world) sliced_world).item 10072)
      (slice_size (sliced_world.slice 900))
    ≡ false
unfolding becomes_full slice_stat slice_bits slice_size find_first_zero_bit first_zero_bit_loop ffz
    ffs_word drop_low min_of set_bit store
not_full = refl

heap_alloc_lem_example :
    (heap_alloc setting (node_calls 2) fresh_class 900 sliced_world
      ≡ returns
          (reply (
            add64
              (item_to_range (live_arrays cells sliced_world) sliced_world.item 10072)
              (next_block 900 10072 sliced_world * 64)))
          (used 10072 (next_block 900 10072 sliced_world) sliced_world))
    × (next_block 900 10072 sliced_world < slice_size (sliced_world.slice 900))
    × (5 / 2 ^ next_block 900 10072 sliced_world % 2 ≡ 0)
    × ((j : ℕ) → j < next_block 900 10072 sliced_world → 5 / 2 ^ j % 2 ≡ 1)
    × (((used 10072 (next_block 900 10072 sliced_world) sliced_world).item 10072).slice_ref
        ≡ 5 + 2 ^ next_block 900 10072 sliced_world)
heap_alloc_lem_example =
    heap_alloc_lem setting (node_calls 2) fresh_class 900 10072 sliced_world 1 refl refl refl
      first_item free_state (omega arith) (omega (arith, blocks)) (omega (arith, blocks)) refl
      not_full

-- The same slice in a node of 256 items, where only block 2 is in use.
abbrev third_used : World
third_used = record sliced_world {
  item = λ p. record no_item { word1_0 = 900; word1_1 = 1; slice_ref = 4 };
  attr = λ p. record no_attr { size = 1048576 };
}

leads : range_to_item (live_arrays cells third_used) 4096 1 ≡ 10072
unfolding range_to_item live_arrays idx_to_rel_idx
leads = refl

third_free : slice_stat (third_used.item 10072) ≡ slice_free
unfolding slice_stat
third_free = refl

not_empty : becomes_empty (third_used.item 10072) (slice_size (third_used.slice 900)) ≡ false
unfolding becomes_empty slice_stat slice_bits slice_size find_first_bit first_bit_loop ffs_word
    drop_low min_of
not_empty = refl

heap_free-used_example :
    heap_free setting 4096 (used 10072 0 third_used) ≡ returns (reply tt) third_used
heap_free-used_example =
    heap_free-used setting 900 10072 0 third_used (omega arith) (omega arith) refl 4096 refl refl
      leads refl refl third_free not_empty
