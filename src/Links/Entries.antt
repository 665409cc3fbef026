-- ===== src/Links/Entries.antt =====
-- The macros of include/list.h that lead from a link node to the structure around it. A type and a
-- field become the offset of the field in the type.
use new_explorer_aios.Prelude.{ℕ, ◌+◌, ◌%◌, ◌==◌, if◌then◌else◌}
use new_explorer_aios.Bits.Word.{word_mod, sub64}
use new_explorer_aios.Links.Memory.{Ptr, null, Cmd, pure, ◌>>=◌}
use new_explorer_aios.Links.{
  list_remove_head, list_remove_tail, list_peek_head, list_peek_tail, list_prev, list_prev_wrap,
  list_next, list_next_wrap, list_peek_next, list_peek_prev,
}

unfoldable pub containerof : Ptr → ℕ → Ptr
containerof ptr offset = sub64 ptr offset

-- `list_entry_list`: the structure around a node, NULL for NULL.
unfoldable pub list_entry_list : Ptr → ℕ → Ptr
unfolding containerof
list_entry_list node offset = if node == null then null else containerof node offset

unfoldable pub list_remove_head_type : Ptr → ℕ → Cmd Ptr
unfolding list_entry_list
list_remove_head_type list offset = do
  node ← list_remove_head list
  pure (list_entry_list node offset)

unfoldable pub list_remove_tail_type : Ptr → ℕ → Cmd Ptr
unfolding list_entry_list
list_remove_tail_type list offset = do
  node ← list_remove_tail list
  pure (list_entry_list node offset)

unfoldable pub list_peek_head_type : Ptr → ℕ → Cmd Ptr
unfolding list_entry_list
list_peek_head_type list offset = do node ← list_peek_head list; pure (list_entry_list node offset)

unfoldable pub list_peek_tail_type : Ptr → ℕ → Cmd Ptr
unfolding list_entry_list
list_peek_tail_type list offset = do node ← list_peek_tail list; pure (list_entry_list node offset)

unfoldable pub list_prev_type : (list item : Ptr) → ℕ → Cmd Ptr
unfolding list_entry_list
list_prev_type list item offset = do node ← list_prev list item; pure (list_entry_list node offset)

unfoldable pub list_prev_wrap_type : (list item : Ptr) → ℕ → Cmd Ptr
unfolding list_entry_list
list_prev_wrap_type list item offset = do
  node ← list_prev_wrap list item
  pure (list_entry_list node offset)

unfoldable pub list_next_type : (list item : Ptr) → ℕ → Cmd Ptr
unfolding list_entry_list
list_next_type list item offset = do node ← list_next list item; pure (list_entry_list node offset)

unfoldable pub list_next_wrap_type : (list item : Ptr) → ℕ → Cmd Ptr
unfolding list_entry_list
list_next_wrap_type list item offset = do
  node ← list_next_wrap list item
  pure (list_entry_list node offset)

-- The entry at either end of a list, and the entries next to one.
unfoldable pub list_head_entry : Ptr → ℕ → Cmd Ptr
unfolding list_entry_list
list_head_entry list offset = do node ← list_peek_head list; pure (list_entry_list node offset)

unfoldable pub list_tail_entry : Ptr → ℕ → Cmd Ptr
unfolding list_entry_list
list_tail_entry list offset = do node ← list_peek_tail list; pure (list_entry_list node offset)

unfoldable pub list_next_entry : (list entry : Ptr) → ℕ → Cmd Ptr
unfolding list_entry_list
list_next_entry list entry offset = if entry == null then pure null else (do
  node ← list_peek_next list ((entry + offset) % word_mod)
  pure (list_entry_list node offset))

unfoldable pub list_prev_entry : (list entry : Ptr) → ℕ → Cmd Ptr
unfolding list_entry_list
list_prev_entry list entry offset = if entry == null then pure null else (do
  node ← list_peek_prev list ((entry + offset) % word_mod)
  pure (list_entry_list node offset))
