-- ===== src/Heap/Back.antt =====
-- `heap_free` of what `heap_alloc` handed out.
use mathlib.Core.Path.{fun_ext}
use native.Mathlib.Nat.{mul-add-div, div-eq_of_lt, div-lt_iff_lt-mul}
use new_explorer_aios.Prelude.{
  ℕ, ◌+◌, ◌-◌, ◌*◌, ◌/◌, ◌%◌, ◌^◌, ◌<◌, ◌≡◌, refl, ap, sym, ◌∙◌, true, false, inl, inr, arith,
  bit_and, ◌==◌, Bool-cases, eq_of_==, ==_self, if◌then◌else◌, one-le-pow,
}
use new_explorer_aios.Bits.Word.{word_mod, complement, ◌<<<◌}
use new_explorer_aios.Bits.Field.{pow-add, cut, and_field, clear_field, mod-pow-lt}
use new_explorer_aios.Types.{set_bit, clear_bit, is_set_bit, store}
use new_explorer_aios.Struct.Item.{ItemStruct}
use new_explorer_aios.Struct.Sizes
use new_explorer_aios.Locate.{range_to_item}
use new_explorer_aios.Links.Memory.{Ptr, null}
use new_explorer_aios.Group.World.{World, returns}
use new_explorer_aios.Group.Remove.{live_arrays}
use new_explorer_aios.Node.Replies.{reply}
use new_explorer_aios.Node.Shared.{Setting}
use new_explorer_aios.Node.Post.{dim_memory}
use new_explorer_aios.Heap.{
  slice_bits, slice_stat, slice_free, slice_full, slice_size, becomes_empty, heap_free,
}
use new_explorer_aios.Heap.Alloc.{used, fetch_slice-ok, fetch_item}
use new_explorer_aios.Heap.Blocks.{set_free, one_shifted}

module _ (w b : ℕ) (small : b < 64) (fits : w < word_mod) (clear : w / 2 ^ b % 2 ≡ 0) where
  -- The word with the digit set, in parts.
  set_parts : w + 2 ^ b ≡ (w / 2 ^ b / 2 * 2 ^ 1 + 1) * 2 ^ b + w % 2 ^ b
  set_parts =
      let high : w / 2 ^ b ≡ w / 2 ^ b / 2 * 2 ^ 1 = omega arith in
      let parts : w ≡ w / 2 ^ b / 2 * 2 ^ 1 * 2 ^ b + w % 2 ^ b =
        cut w b ∙ ap (λ (h : ℕ). h * 2 ^ b + w % 2 ^ b) high in
      omega (arith, parts)

  set_digit : (w + 2 ^ b) / 2 ^ b % 2 ≡ 1
  set_digit =
      let turned : w + 2 ^ b ≡ 2 ^ b * (w / 2 ^ b / 2 * 2 + 1) + w % 2 ^ b =
        omega (arith, set_parts) in
      rw
        (
          turned,
          mul-add-div (one-le-pow b 2 (omega arith)) (w / 2 ^ b / 2 * 2 + 1) (w % 2 ^ b),
          div-eq_of_lt {n = w % 2 ^ b} {m = 2 ^ b} (mod-pow-lt w b),
        )
        (omega arith)

  digit_seen : (bit_and (w + 2 ^ b) (1 <<< b) == 0) ≡ false
  digit_seen =
      let masked : bit_and (w + 2 ^ b) (1 * 2 ^ b) ≡ 1 * 2 ^ b =
        and_field b 1 (w + 2 ^ b) ∙ ap (λ (d : ℕ). d * 2 ^ b) set_digit in
      rw (one_shifted b small, masked) (ground (arith, one-le-pow b 2))

  digit_cleared : bit_and (w + 2 ^ b) (complement (1 <<< b)) ≡ w
  digit_cleared =
      let places : 63 - b + 1 + b ≡ 64 = omega arith in
      let whole : 2 ^ (63 - b + 1 + b) ≡ word_mod = ap (λ (n : ℕ). 2 ^ n) places in
      let wide : word_mod ≡ 2 ^ (63 - b + 1) * 2 ^ b = sym whole ∙ pow-add (63 - b + 1) b in
      let high : w / 2 ^ b < 2 ^ (63 - b + 1) =
        (div-lt_iff_lt-mul (one-le-pow b 2 (omega arith))).1 (rw (← wide) fits) in
      let top : w / 2 ^ b / 2 < 2 ^ (63 - b) = omega (arith, high, pow-add (63 - b) 1) in
      let dropped = rw whole at (
        clear_field (63 - b) b 1 (w / 2 ^ b / 2) 1 1 (w % 2 ^ b) top (omega arith) (omega arith)
          (mod-pow-lt w b)) in
      rw (one_shifted b small) (
        ap (λ (x : ℕ). bit_and x (complement (1 * 2 ^ b))) set_parts
        ∙ dropped
        ∙ omega (arith, set_parts))

module _ (item : ItemStruct) (idx : ℕ) (small : idx < 64) (word : item.slice_ref < word_mod)
    (clear : item.slice_ref / 2 ^ idx % 2 ≡ 0) where
  -- An item with the block in use.
  abbrev marked : ItemStruct
  marked = record item { slice_ref = set_bit idx (slice_bits item) 0 }

  marked_ref : marked.slice_ref ≡ item.slice_ref + 2 ^ idx
  marked_ref = set_free item 0 word (omega arith) idx small clear

  is_set : is_set_bit idx (slice_bits marked) ≡ true
  unfolding is_set_bit slice_bits
  is_set =
      let first : idx / 64 ≡ 0 = omega arith in
      let same : idx % 64 ≡ idx = omega arith in
      rw (first, same, marked_ref, digit_seen item.slice_ref idx small word clear) refl

  cleared : clear_bit idx (slice_bits marked) 0 ≡ item.slice_ref
  unfolding clear_bit slice_bits store
  cleared =
      let first : idx / 64 ≡ 0 = omega arith in
      let same : idx % 64 ≡ idx = omega arith in
      rw (first, same, marked_ref) (digit_cleared item.slice_ref idx small word clear)

-- The world with one block of an item not in use any more.
abbrev unused : (item : Ptr) → (idx : ℕ) → World → World
unused item idx w = record w {
  item = λ q.
      if q == item
      then record (w.item q) { slice_ref = clear_bit idx (slice_bits (w.item q)) 0 }
      else w.item q;
}

module _ (setting : Setting) (slice item : Ptr) (idx : ℕ) (w : World) (small : idx < 64)
    (word : (w.item item).slice_ref < word_mod)
    (clear : (w.item item).slice_ref / 2 ^ idx % 2 ≡ 0) where
  restored : unused item idx (used item idx w) ≡ w
  restored = ap (λ (f : Ptr → ItemStruct). record w { item = f }) (fun_ext λ q. same q)
    where
      same : (q : Ptr) → (unused item idx (used item idx w)).item q ≡ w.item q
      same q = elim (Bool-cases (q == item)) [
        | inr miss ↦ rw miss refl
        | inl hit ↦
            rw (eq_of_== q item hit, ==_self item)
              (ap (λ (bits : ℕ). record (w.item item) { slice_ref = bits })
                (cleared (w.item item) idx small word clear))
      ]

  -- `heap_free` takes back what `heap_alloc` handed out: after block `idx` of an item, which was free, has
  -- been marked as in use, `heap_free` of a range in the block ends with NO_ERROR and leaves the world as it
  -- was. The item is in the state SLICE_FREE, belongs to its slice, and is the one that the range leads to;
  -- the block is one of the first 64, and without it the item does not count as empty.
  pub heap_free-used :
      (range_base : ℕ)
      → (slice == null) ≡ false
      → (item == null) ≡ false
      → range_to_item (live_arrays setting.layout w) range_base dim_memory ≡ item
      → range_base % Sizes.fixed_item_size / (w.slice slice).bsize ≡ idx
      → (w.item item).word1_0 ≡ slice
      → slice_stat (w.item item) ≡ slice_free
      → becomes_empty (w.item item) (slice_size (w.slice slice)) ≡ false
      → heap_free setting range_base (used item idx w) ≡ returns (reply tt) w
  unfolding heap_free live_arrays slice_stat
  heap_free-used range_base some_slice some_item leads place owner free stays =
      let not_full : ((w.item item).word1_1 % 4 == slice_full) ≡ false = rw free refl in
      rw
        (
          leads,
          fetch_item setting slice item w some_slice some_item idx (used item idx w),
          ==_self item,
          owner,
          fetch_slice-ok slice (used item idx w) some_slice,
          place,
          is_set (w.item item) idx small word clear,
          not_full,
          restored,
          some_item,
          ap (λ (v : World). v.item item) restored,
          stays,
        )
        refl
