-- ===== src/Group/Compound.antt =====
-- Compound items, source/tensor.c: items chained through the first word of their links, with a
-- mark in the lowest digit of the head's third word.
use new_explorer_aios.Prelude.{
  ℕ, zero, suc, ◌+◌, bit_and, bit_or, Bool, true, not, ◌==◌, if◌then◌else◌,
}
use new_explorer_aios.Bits.Word.{complement}
use new_explorer_aios.Struct.Item.{ItemStruct}
use new_explorer_aios.Links.Memory.{Ptr, null, get_prev, get_next, put_prev}
use new_explorer_aios.Links.{list_is_empty, list_remove_head, list_peek_head, list_peek_next}
use new_explorer_aios.Group.World.{
  Layout, returns, faults, exhausted, Command, give, ◌>>=◌, ◌>>◌, on_links, edit,
}

-- A read of the item behind a pointer.
unfoldable pub fetch : Ptr → Command ItemStruct
fetch p w = if p == null then faults else returns (w.item p) w

unfoldable pub is_compound : ItemStruct → Bool
is_compound item = bit_and item.word1_0 1 == 1

-- `compound_node` and `compound_hnode` are the two link words of an item.
unfoldable pub next_compound_item : Ptr → Command Ptr
next_compound_item item = on_links (get_prev item)

unfoldable pub next_node_compound_item : Ptr → Command Ptr
next_node_compound_item item = on_links (get_next item)

-- The loop of `compound_append` that looks for the last item of a chain, with fuel.
unfoldable pub compound_last : ℕ → Ptr → Command Ptr
compound_last zero temp = λ w. exhausted
compound_last (suc fuel) temp = do
  next ← on_links (get_prev temp)
  (let rest = compound_last fuel next in if next == null then give temp else rest)

unfoldable pub compound_append : ℕ → (node head : Ptr) → Command (Unit {0})
unfolding is_compound compound_last fetch
compound_append fuel node head = do
  h ← fetch head
  if is_compound h
      then (do last ← compound_last fuel head; on_links (put_prev last node))
      else edit head (λ i. record i { word1_0 = bit_or i.word1_0 1 })

unfoldable pub compound_remove_head : Ptr → Command Ptr
unfolding is_compound fetch
compound_remove_head head = do
  h ← fetch head
  if is_compound h
      then (do
        edit head (λ i. record i { word1_0 = bit_and i.word1_0 (complement 1) })
        on_links (put_prev head null)
        give head)
      else give null

-- One round of `cell_to_compound`: whether the loop goes on.
unfoldable pub compound_round : ℕ → (cell split head : Ptr) → Command Bool
unfolding compound_append
compound_round fuel cell split head = do
  temp ← on_links (list_remove_head cell)
  if split == null then (do compound_append fuel temp head; give true) else (do
    next ← on_links (list_peek_next cell temp)
    compound_append fuel temp head
    give (not (next == split)))

-- `cell_to_compound`, with fuel for its loop and for the walks along the chain.
unfoldable pub cell_to_compound : ℕ → (cell split head : Ptr) → Command (Unit {0})
unfolding compound_round
cell_to_compound zero cell split head = λ w. exhausted
cell_to_compound (suc fuel) cell split head =
    let rest = cell_to_compound fuel cell split head in
    (do
      empty ← on_links (list_is_empty cell)
      if empty then give tt else (do
        more ← compound_round (suc fuel) cell split head
        if more then rest else give tt))

-- The loop of `find_index_item` from `item`, which has the place `i` in the list.
unfoldable pub index_loop : ℕ → (cell item : Ptr) → (i index : ℕ) → Command Ptr
index_loop zero cell item i index = λ w. exhausted
index_loop (suc fuel) cell item i index =
    let rest = (do
      next ← on_links (list_peek_next cell item)
      index_loop fuel cell next (i + 1) index) in
    if item == null then give null else if i == index then give item else rest

unfoldable pub find_index_item : ℕ → Layout → (group order index migration_type : ℕ) → Command Ptr
unfolding index_loop
find_index_item fuel layout group order index migration_type = do
  first ← on_links (list_peek_head (layout.free_cell group migration_type order))
  index_loop fuel (layout.free_cell group migration_type order) first 0 index
