-- ===== src/Links.antt =====
-- The intrusive doubly linked lists of include/list.h, on a memory of link nodes.
pub mod Memory
pub mod Chain
pub mod Writes
pub mod Insert
pub mod Remove
pub mod Loose
pub mod Walk
pub mod Entries
pub mod Loops
use new_explorer_aios.Prelude.{ℕ, zero, suc, ◌+◌, Bool, true, false, not, ◌&&◌, ◌==◌, if◌then◌else◌}
use new_explorer_aios.Links.Memory.{
  Ptr, null, Cmd, pure, stuck, ◌>>=◌, ◌>>◌, get_next, get_prev, put_next, put_prev,
}

unfoldable pub list_initialize : Ptr → Cmd (Unit {0})
list_initialize list = do put_next list list; put_prev list list

unfoldable pub list_clear_node : Ptr → Cmd (Unit {0})
list_clear_node item = do put_next item null; put_prev item null

unfoldable pub list_in_list : Ptr → Cmd Bool
list_in_list item = do
  p ← get_prev item
  if not (p == null) then pure true else do n ← get_next item; pure (not (n == null))

unfoldable pub list_add_head : (list item : Ptr) → Cmd (Unit {0})
list_add_head list item = do
  first ← get_next list
  put_next item first
  put_prev item list
  n ← get_next list
  put_prev n item
  put_next list item

unfoldable pub list_add_tail : (list item : Ptr) → Cmd (Unit {0})
list_add_tail list item = do
  last ← get_prev list
  put_prev item last
  put_next item list
  p ← get_prev list
  put_next p item
  put_prev list item

unfoldable pub list_delete : Ptr → Cmd (Unit {0})
list_delete item = do
  n ← get_next item
  p ← get_prev item
  put_prev n p
  p' ← get_prev item
  n' ← get_next item
  put_next p' n'
  put_next item null
  put_prev item null

unfoldable pub list_remove_head : Ptr → Cmd Ptr
unfolding list_delete
list_remove_head list = do
  item ← get_next list
  if item == list then pure null else do list_delete item; pure item

unfoldable pub list_remove_tail : Ptr → Cmd Ptr
unfolding list_delete
list_remove_tail list = do
  item ← get_prev list
  if item == list then pure null else do list_delete item; pure item

unfoldable pub list_peek_head : Ptr → Cmd Ptr
list_peek_head list = do n ← get_next list; pure (if n == list then null else n)

unfoldable pub list_peek_tail : Ptr → Cmd Ptr
list_peek_tail list = do p ← get_prev list; pure (if p == list then null else p)

unfoldable pub list_prev : (list item : Ptr) → Cmd Ptr
list_prev list item = do p ← get_prev item; pure (if p == list then null else p)

unfoldable pub list_prev_wrap : (list item : Ptr) → Cmd Ptr
list_prev_wrap list item = do
  p ← get_prev item
  if not (p == list) then pure p else do q ← get_prev p; pure (if q == list then null else q)

unfoldable pub list_next : (list item : Ptr) → Cmd Ptr
list_next list item = do n ← get_next item; pure (if n == list then null else n)

unfoldable pub list_next_wrap : (list item : Ptr) → Cmd Ptr
list_next_wrap list item = do
  n ← get_next item
  if not (n == list) then pure n else do q ← get_next n; pure (if q == list then null else q)

unfoldable pub list_is_empty : Ptr → Cmd Bool
list_is_empty list = do n ← get_next list; pure (n == list)

-- `list_length`: the loop of `list_for_every` from `node`, with fuel.
unfoldable pub length_loop : ℕ → (list node : Ptr) → ℕ → Cmd ℕ
length_loop zero list node cnt = stuck
length_loop (suc fuel) list node cnt =
    let rest = (do n ← get_next node; length_loop fuel list n (cnt + 1)) in
    if node == list then pure cnt else rest

unfoldable pub list_length : ℕ → Ptr → Cmd ℕ
unfolding length_loop
list_length fuel list = do n ← get_next list; length_loop fuel list n 0

unfoldable pub list_del : Ptr → Cmd (Unit {0})
list_del node = do
  p ← get_prev node
  n ← get_next node
  put_next p n
  n' ← get_next node
  p' ← get_prev node
  put_prev n' p'
  put_next node null
  put_prev node null

unfoldable pub init_list_node : Ptr → Cmd (Unit {0})
init_list_node node = do put_next node null; put_prev node null

unfoldable pub list_is_head : (list node : Ptr) → Cmd Bool
list_is_head list node = do n ← get_next list; pure (n == node)

unfoldable pub list_is_tail : (list node : Ptr) → Cmd Bool
list_is_tail list node = do p ← get_prev list; pure (p == node)

unfoldable pub list_peek_next_no_check : (list node : Ptr) → Cmd Ptr
list_peek_next_no_check list node = do
  p ← get_prev list
  if node == p then pure null else get_next node

unfoldable pub list_peek_prev_no_check : (list node : Ptr) → Cmd Ptr
list_peek_prev_no_check list node = do
  n ← get_next list
  if node == n then pure null else get_prev node

unfoldable pub list_peek_prev : (list node : Ptr) → Cmd Ptr
unfolding list_peek_prev_no_check
list_peek_prev list node = if node == null then pure null else list_peek_prev_no_check list node

unfoldable pub list_peek_next : (list node : Ptr) → Cmd Ptr
unfolding list_peek_next_no_check
list_peek_next list node = if node == null then pure null else list_peek_next_no_check list node

-- `list_search`: the loop of `list_for_each_node` from `node`, with fuel. `matches` is
-- `compare(node, key)`, which only looks.
unfoldable pub search_loop : (Ptr → Bool) → ℕ → (list node : Ptr) → Cmd Ptr
unfolding list_peek_next
search_loop matches zero list node = stuck
search_loop matches (suc fuel) list node =
    let rest = (do n ← list_peek_next list node; search_loop matches fuel list n) in
    if node == null then pure null else if matches node then pure node else rest

unfoldable pub list_search : (Ptr → Bool) → ℕ → Ptr → Cmd Ptr
unfolding search_loop list_peek_head
list_search matches fuel list = do first ← list_peek_head list; search_loop matches fuel list first
