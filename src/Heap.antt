-- ===== src/Heap.antt =====
-- The slices of items, source/tensor.c lines 2230 to 2353: `heap_alloc` and `heap_free` cut an item into
-- blocks of one size, whose use a bitmap in the item keeps. The bit of a new block is set in
-- `slice->ref`, a field that there is not: it is read as the bitmap of the item, in which the block
-- was found. The range that `heap_alloc` gets for a new item has the name of its parameter and is
-- read as another variable.
pub mod Empty
pub mod Blocks
pub mod Alloc
pub mod Back
mod Example
pub mod Objects
use new_explorer_aios.Prelude.{
  ℕ, ◌+◌, ◌-◌, ◌*◌, ◌/◌, ◌%◌, Bool, true, false, not, ◌&&◌, Option, none, some, ltb, ◌==◌,
  if◌then◌else◌,
}
use new_explorer_aios.Bits.Word.{add64, sub64}
use new_explorer_aios.Errors.{err_invalid_args, err_no_memory}
use new_explorer_aios.Types.{
  Bitmap, set_bit, clear_bit, is_set_bit, find_first_bit, find_first_zero_bit,
}
use new_explorer_aios.Struct.Sizes
use new_explorer_aios.Struct.Enums
use new_explorer_aios.Struct.Item.{ItemStruct}
use new_explorer_aios.Struct.Node.{SliceStruct}
use new_explorer_aios.Flags.{get_item_node}
use new_explorer_aios.Request.{Class}
use new_explorer_aios.Init.{init_item}
use new_explorer_aios.Locate.{item_to_range, range_to_item}
use new_explorer_aios.Links.Memory.{Ptr, null}
use new_explorer_aios.Links.{list_add_tail, list_clear_node, list_del, list_peek_head}
use new_explorer_aios.Group.World.{World, Command, returns, faults, on_links, edit}
use new_explorer_aios.Group.Compound.{fetch}
use new_explorer_aios.Group.Remove.{live_arrays}
use new_explorer_aios.Node.Replies.{Fallible, succeed, fail, lift, look, handle, ◌>>=◌, ◌>>◌}
use new_explorer_aios.Node.Shared.{Setting, Vtable, get_current_pnode}
use new_explorer_aios.Node.Post.{dim_memory}
use new_explorer_aios.Node.Alloc.{node_struct_alloc, node_struct_free}

-- The states of an item that is cut into blocks.
abbrev pub slice_empty : ℕ
slice_empty = 0

abbrev pub slice_free : ℕ
slice_free = 1

abbrev pub slice_full : ℕ
slice_full = 2

-- `slice_stat`, the two lowest digits of its word.
unfoldable pub slice_stat : ItemStruct → ℕ
slice_stat item = item.word1_1 % 4

unfoldable pub with_stat : ℕ → ItemStruct → ItemStruct
with_stat stat item = record item { word1_1 = item.word1_1 / 4 * 4 + stat }

-- The bitmap of an item, a word: an item has at most as many blocks as a word has digits.
unfoldable pub slice_bits : ItemStruct → Bitmap
slice_bits item i = if i == 0 then item.slice_ref else 0

-- The blocks of an item.
unfoldable pub slice_size : SliceStruct → ℕ
slice_size slice = Sizes.fixed_item_size / slice.bsize

-- Whether `heap_alloc` takes an item for full, and `heap_free` for empty.
unfoldable pub becomes_full : ItemStruct → ℕ → Bool
unfolding slice_stat slice_bits
becomes_full item size =
    slice_stat item == slice_free && find_first_zero_bit (slice_bits item) size == size

unfoldable pub becomes_empty : ItemStruct → ℕ → Bool
unfolding slice_stat slice_bits
becomes_empty item size =
    slice_stat item == slice_free && find_first_bit (slice_bits item) size == 0

-- A change of a slice.
unfoldable pub edit_slice : Ptr → (SliceStruct → SliceStruct) → Fallible (Unit {0})
edit_slice slice f =
    lift
      (λ w. returns tt (record w { slice = λ p. if p == slice then f (w.slice p) else w.slice p }))

-- The slice behind a pointer.
unfoldable pub fetch_slice : Ptr → Fallible SliceStruct
fetch_slice slice = lift (λ w. (if slice == null then faults else returns (w.slice slice) w))

-- An item goes from one list of its slice to another, with the counts.
unfoldable pub move_item :
    (slice item : Ptr)
    → (stat : ℕ) → (list : SliceStruct → Ptr) → (less more : SliceStruct → SliceStruct)
    → Fallible (Unit {0})
unfolding with_stat fetch_slice edit_slice
move_item slice item stat list less more = do
  lift (edit item (with_stat stat))
  lift (on_links (list_del item))
  edit_slice slice less
  s ← fetch_slice slice
  lift (on_links (list_add_tail (list s) item))
  edit_slice slice more

abbrev pub less_free : SliceStruct → SliceStruct
less_free s = record s { free_count = sub64 s.free_count 1 }

abbrev pub more_free : SliceStruct → SliceStruct
more_free s = record s { free_count = add64 s.free_count 1 }

abbrev pub less_full : SliceStruct → SliceStruct
less_full s = record s { full_count = sub64 s.full_count 1 }

abbrev pub more_full : SliceStruct → SliceStruct
more_full s = record s { full_count = add64 s.full_count 1 }

abbrev pub less_empty : SliceStruct → SliceStruct
less_empty s = record s { empty_count = sub64 s.empty_count 1 }

abbrev pub more_empty : SliceStruct → SliceStruct
more_empty s = record s { empty_count = add64 s.empty_count 1 }

module _ (setting : Setting) where
  -- The range of an item.
  unfoldable pub range_of : Ptr → Fallible ℕ
  unfolding live_arrays
  range_of item = look (λ w. item_to_range (live_arrays setting.layout w) w.item item)

  -- A new item for a slice, which goes to its free list. The source asks for FIXED_ITEM_SIZE items.
  unfoldable pub new_slice_item : Vtable → Class → (slice : Ptr) → Fallible Ptr
  unfolding node_struct_alloc get_current_pnode fetch_slice edit_slice live_arrays with_stat fetch
  new_slice_item vtable before slice = do
    range_base ←
        handle
          (node_struct_alloc setting vtable before (get_current_pnode setting dim_memory)
            Sizes.fixed_item_size Enums.func_physical_object none)
          (λ r. succeed r) (λ e. fail err_no_memory)
    item ← look (λ w. range_to_item (live_arrays setting.layout w) range_base dim_memory)
    lift (fetch item)
    lift (on_links (list_clear_node item))
    lift (edit item (λ i. with_stat slice_empty (record (init_item i) { word1_0 = slice })))
    s ← fetch_slice slice
    lift (on_links (list_add_tail s.free_list item))
    edit_slice slice more_free
    succeed item

  -- The block of an item that is handed out, and the moves between the lists.
  unfoldable pub take_block : (slice item : Ptr) → Fallible ℕ
  unfolding move_item becomes_full slice_size slice_bits slice_stat fetch_slice fetch range_of
  take_block slice item = do
    s ← fetch_slice slice
    i ← lift (fetch item)
    let size = slice_size s
    let idx = find_first_zero_bit (slice_bits i) size
    (if ltb idx size
        then lift (edit item (λ j. record j { slice_ref = set_bit idx (slice_bits j) 0 }))
        else succeed tt)
    range_base ← range_of item
    (if slice_stat i == slice_empty
        then move_item slice item slice_free (λ t. t.free_list) less_empty more_free
        else succeed tt)
    j ← lift (fetch item)
    (if becomes_full j size
        then move_item slice item slice_full (λ t. t.full_list) less_free more_full
        else succeed tt)
    succeed (add64 range_base (idx * s.bsize))

  -- `heap_alloc`, which returns `*range_base`.
  unfoldable pub heap_alloc : Vtable → Class → (slice : Ptr) → Fallible ℕ
  unfolding new_slice_item take_block fetch_slice
  heap_alloc vtable before slice = do
    s ← fetch_slice slice
    item ←
        (if not (s.free_count == 0)
          then lift (on_links (list_peek_head s.free_list))
          else if not (s.empty_count == 0)
          then lift (on_links (list_peek_head s.empty_list))
          else new_slice_item vtable before slice)
    take_block slice item

  -- The item has no block in use: it goes to the empty list, or back to its node when that is long.
  unfoldable pub retire : (slice item : Ptr) → Fallible (Unit {0})
  unfolding fetch_slice edit_slice with_stat fetch node_struct_free range_of
  retire slice item = do
    lift (edit item (with_stat slice_empty))
    lift (on_links (list_del item))
    edit_slice slice less_free
    lift (edit item (λ i. record i { word1_0 = null }))
    s ← fetch_slice slice
    lift (on_links (list_add_tail s.empty_list item))
    edit_slice slice more_empty
    t ← fetch_slice slice
    (if ltb t.threshold_freeitems t.empty_count
        then (do
          lift (on_links (list_del item))
          edit_slice slice less_empty
          range_base ← range_of item
          node_struct_free setting range_base false dim_memory)
        else succeed tt)

  -- `heap_free`.
  unfoldable pub heap_free : (range_base : ℕ) → Fallible (Unit {0})
  unfolding retire move_item becomes_empty slice_size slice_bits slice_stat fetch_slice fetch
      live_arrays
  heap_free range_base = do
    item ← look (λ w. range_to_item (live_arrays setting.layout w) range_base dim_memory)
    i ← lift (fetch item)
    let slice = i.word1_0
    s ← fetch_slice slice
    let idx = range_base % Sizes.fixed_item_size / s.bsize
    (if is_set_bit idx (slice_bits i)
        then (do
          lift (edit item (λ j. record j { slice_ref = clear_bit idx (slice_bits j) 0 }))
          (if slice_stat i == slice_full
              then move_item slice item slice_free (λ t. t.free_list) less_full more_free
              else succeed tt)
          j ← lift (fetch item)
          (if becomes_empty j (slice_size s) then retire slice item else succeed tt))
        else fail err_invalid_args)
