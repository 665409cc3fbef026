-- ===== src/Links/Loops.antt =====
-- The loops of include/list.h over the nodes of a list, `list_for_every` to `list_for_each_node`. The
-- body of a loop is what it does at a node, or an entry, with the variables around the loop; it does
-- not leave the loop. Fuel bounds the number of rounds.
pub mod Visits
pub mod Clear
pub mod Example
use new_explorer_aios.Prelude.{ℕ, zero, suc, ◌+◌, ◌%◌, ◌==◌, if◌then◌else◌}
use new_explorer_aios.Bits.Word.{word_mod}
use new_explorer_aios.Links.Memory.{Ptr, null, Cmd, pure, stuck, ◌>>=◌, get_next}
use new_explorer_aios.Links.{list_peek_head, list_peek_next}
use new_explorer_aios.Links.Entries.{
  containerof, list_head_entry, list_tail_entry, list_next_entry, list_prev_entry,
}

module _ {S : Type 0} (body : Ptr → S → Cmd S) where
  unfoldable pub every_loop : ℕ → (list node : Ptr) → S → Cmd S
  every_loop zero list node s = stuck
  every_loop (suc fuel) list node s =
      let rest = (do s' ← body node s; n ← get_next node; every_loop fuel list n s') in
      if node == list then pure s else rest

  unfoldable pub list_for_every : ℕ → (list : Ptr) → S → Cmd S
  unfolding every_loop
  list_for_every fuel list s = do n ← get_next list; every_loop fuel list n s

  -- The loop that knows the next node before it runs the body.
  unfoldable pub every_safe_loop : ℕ → (list node temp_node : Ptr) → S → Cmd S
  every_safe_loop zero list node temp_node s = stuck
  every_safe_loop (suc fuel) list node temp_node s =
      let rest = (do
        s' ← body node s
        n ← get_next temp_node
        every_safe_loop fuel list temp_node n s') in
      if node == list then pure s else rest

  unfoldable pub list_for_every_safe : ℕ → (list : Ptr) → S → Cmd S
  unfolding every_safe_loop
  list_for_every_safe fuel list s = do
    node ← get_next list
    temp_node ← get_next node
    every_safe_loop fuel list node temp_node s

  -- The loops over entries, the member `offset` bytes behind the start of its entry.
  unfoldable pub every_entry_loop : ℕ → (offset : ℕ) → (list entry : Ptr) → S → Cmd S
  unfolding containerof
  every_entry_loop zero offset list entry s = stuck
  every_entry_loop (suc fuel) offset list entry s =
      let member = (entry + offset) % word_mod in
      let rest = (do
        s' ← body entry s
        n ← get_next member
        every_entry_loop fuel offset list (containerof n offset) s') in
      if member == list then pure s else rest

  unfoldable pub list_for_every_entry : ℕ → (offset : ℕ) → (list : Ptr) → S → Cmd S
  unfolding every_entry_loop containerof
  list_for_every_entry fuel offset list s = do
    n ← get_next list
    every_entry_loop fuel offset list (containerof n offset) s

  unfoldable pub every_entry_safe_loop :
      ℕ → (offset : ℕ) → (list entry temp_entry : Ptr) → S → Cmd S
  unfolding containerof
  every_entry_safe_loop zero offset list entry temp_entry s = stuck
  every_entry_safe_loop (suc fuel) offset list entry temp_entry s =
      let rest = (do
        s' ← body entry s
        n ← get_next ((temp_entry + offset) % word_mod)
        every_entry_safe_loop fuel offset list temp_entry (containerof n offset) s') in
      if (entry + offset) % word_mod == list then pure s else rest

  unfoldable pub list_for_every_entry_safe : ℕ → (offset : ℕ) → (list : Ptr) → S → Cmd S
  unfolding every_entry_safe_loop containerof
  list_for_every_entry_safe fuel offset list s = do
    node ← get_next list
    n ← get_next ((containerof node offset + offset) % word_mod)
    every_entry_safe_loop fuel offset list (containerof node offset) (containerof n offset) s

  -- The loops that end at NULL, with the step to the next node or entry.
  unfoldable pub each_loop : ℕ → (step : Ptr → Cmd Ptr) → (here : Ptr) → S → Cmd S
  each_loop zero step here s = stuck
  each_loop (suc fuel) step here s =
      let rest = (do s' ← body here s; n ← step here; each_loop fuel step n s') in
      if here == null then pure s else rest

  unfoldable pub each_safe_loop : ℕ → (step : Ptr → Cmd Ptr) → (here there : Ptr) → S → Cmd S
  each_safe_loop zero step here there s = stuck
  each_safe_loop (suc fuel) step here there s =
      let rest = (do s' ← body here s; n ← step there; each_safe_loop fuel step there n s') in
      if here == null then pure s else rest

  unfoldable pub list_for_each_entry_list : ℕ → (offset : ℕ) → (list : Ptr) → S → Cmd S
  unfolding each_loop list_head_entry list_next_entry
  list_for_each_entry_list fuel offset list s = do
    entry ← list_head_entry list offset
    each_loop fuel (λ e. list_next_entry list e offset) entry s

  unfoldable pub list_for_each_entry_inverted : ℕ → (offset : ℕ) → (list : Ptr) → S → Cmd S
  unfolding each_loop list_tail_entry list_prev_entry
  list_for_each_entry_inverted fuel offset list s = do
    entry ← list_tail_entry list offset
    each_loop fuel (λ e. list_prev_entry list e offset) entry s

  unfoldable pub list_for_each_entry_safe : ℕ → (offset : ℕ) → (list : Ptr) → S → Cmd S
  unfolding each_safe_loop list_head_entry list_next_entry
  list_for_each_entry_safe fuel offset list s = do
    entry ← list_head_entry list offset
    next_entry ← list_next_entry list entry offset
    each_safe_loop fuel (λ e. list_next_entry list e offset) entry next_entry s

  unfoldable pub list_for_each_entry_safe_inverted : ℕ → (offset : ℕ) → (list : Ptr) → S → Cmd S
  unfolding each_safe_loop list_tail_entry list_prev_entry
  list_for_each_entry_safe_inverted fuel offset list s = do
    entry ← list_tail_entry list offset
    next_entry ← list_prev_entry list entry offset
    each_safe_loop fuel (λ e. list_prev_entry list e offset) entry next_entry s

  unfoldable pub list_for_each_node : ℕ → (list : Ptr) → S → Cmd S
  unfolding each_loop list_peek_head list_peek_next
  list_for_each_node fuel list s = do
    node ← list_peek_head list
    each_loop fuel (list_peek_next list) node s
