-- ===== src/Links/Insert.antt =====
-- Insertion at either end of a ring, and what a head set to NULL leads to.
use mathlib.Core.List.{append-nil}
use new_explorer_aios.Prelude.{◌≡◌, ◌≢◌, refl, false, List, [], ◌∷◌, ◌++◌, arith, ◌==◌}
use new_explorer_aios.Links.Memory.{
  Ptr, null, Memory, done, fault, ◌>>◌, write, get_next, get_prev, put_next, put_prev,
}
use new_explorer_aios.Links.Chain.{
  ◌∈◌, ◌∉◌, Chain, Ring, Distinct, Distinct-insert, relink, last_of, first_of_chain, last_of-mem,
  has-append, Chain-prev, Chain-next, Chain-append, Chain-relink_last, Chain-relink_outside,
}
use new_explorer_aios.Links.Writes.{
  get_next-ok, get_prev-ok, put_next-ok, put_prev-ok, write_ne, write_comm,
}
use new_explorer_aios.Links.{list_add_head, list_add_tail, init_list_node}

-- A member of a list without NULL is not NULL.
pub not_null : (a : Ptr) (xs : List Ptr) → a ∈ xs → null ∉ xs → (a == null) ≡ false
not_null a [] i out = cc
not_null a (x ∷ xs) i out = ground (arith, not_null a xs)

-- A member and an address outside are different.
pub apart : (a b : Ptr) (xs : List Ptr) → a ∉ xs → b ∈ xs → (a == b) ≡ false
apart a b [] out i = cc
apart a b (x ∷ xs) out i = ground (arith, apart a b xs)

module _ (m : Memory) (list item : Ptr) (xs : List Ptr) (ring : Ring m list xs)
    (new : item ∉ list ∷ xs) (ok : item ≢ null) where
  tail_after : Memory
  tail_after = relink item list (relink (last_of list xs) item m)

  item_ok : (item == null) ≡ false
  item_ok = ground arith

  list_ok : (list == null) ≡ false
  list_ok = not_null list (list ∷ xs) (ground arith) ring.no_null

  last_ok : (m.prev list == null) ≡ false
  last_ok =
      rw (Chain-prev m list xs list ring.chain)
        (not_null (last_of list xs) (list ∷ xs) (last_of-mem list xs) ring.no_null)

  list_ne : (list == item) ≡ false
  list_ne = ground arith

  item_last : (item == m.prev list) ≡ false
  item_last =
      rw (Chain-prev m list xs list ring.chain)
        (ground (arith, last_of-mem list xs, apart item (last_of list xs) (list ∷ xs)))

  list_add_tail-done : list_add_tail list item m ≡ done tt tail_after
  unfolding list_add_tail relink tail_after
  list_add_tail-done =
      rw
        (
          get_prev-ok list list_ok,
          put_prev-ok item item_ok,
          put_next-ok item item_ok,
          get_prev-ok list list_ok,
          write_ne m.prev item (m.prev list) list list_ne,
          put_next-ok (m.prev list) last_ok,
          put_prev-ok list list_ok,
        )
        (rw
          (
            write_comm m.next item list (m.prev list) item item_last,
            Chain-prev m list xs list ring.chain,
          )
          refl)

  -- `list_add_tail` puts a node that is not in the ring behind its last node.
  pub list_add_tail-Ring :
      (m' : Memory) × (list_add_tail list item m ≡ done tt m') × Ring m' list (xs ++ item ∷ [])
  unfolding tail_after relink
  list_add_tail-Ring = (
    tail_after,
    list_add_tail-done,
    record {
      chain = Chain-append tail_after list xs item [] list front back;
      distinct =
          Distinct-insert (list ∷ xs) item [] (rw (append-nil xs) ring.distinct)
            (rw (append-nil xs) new);
      no_null = rw (has-append null xs (item ∷ [])) (ground arith);
    },
  )
    where
      front : Chain tail_after list xs item
      front =
          Chain-relink_outside (relink (last_of list xs) item m) item list list xs item
            (Chain-relink_last m list xs list item ring.chain ring.distinct (ground arith)) new
            (rw (has-append list xs (item ∷ [])) (ground arith))

      back : Chain tail_after item [] list
      back = unfold tail_after relink write in (ground arith, ground arith)

  head_after : Memory
  head_after = relink list item (relink item (first_of_chain xs list) m)

  first_mem : (ys : List Ptr) → first_of_chain ys list ∈ list ∷ ys
  first_mem [] = ground arith
  first_mem (y ∷ ys) = ground arith

  first_ok : (m.next list == null) ≡ false
  first_ok =
      rw (Chain-next m list xs list ring.chain)
        (not_null (first_of_chain xs list) (list ∷ xs) (first_mem xs) ring.no_null)

  item_first : (m.next list == item) ≡ false
  item_first =
      rw (Chain-next m list xs list ring.chain)
        (ground (arith, apart item (first_of_chain xs list) (list ∷ xs), first_mem xs))

  list_add_head-done : list_add_head list item m ≡ done tt head_after
  unfolding list_add_head relink head_after
  list_add_head-done =
      rw
        (
          get_next-ok list list_ok,
          put_next-ok item item_ok,
          put_prev-ok item item_ok,
          get_next-ok list list_ok,
          write_ne m.next item (m.next list) list list_ne,
          put_prev-ok (m.next list) first_ok,
          put_next-ok list list_ok,
        )
        (rw
          (
            ← write_comm m.prev (m.next list) item item list item_first,
            Chain-next m list xs list ring.chain,
          )
          refl)

  head-Chain :
      (ys : List Ptr)
      → Chain m list ys list
      → Distinct (list ∷ ys)
      → item ∉ list ∷ ys
      → Chain (relink list item (relink item (first_of_chain ys list) m)) item ys list
  head-Chain [] c d out = unfold relink write in (ground arith, ground arith)
  head-Chain (y ∷ ys) c d out = (
    unfold relink write in ground arith,
    unfold relink write in ground arith,
    Chain-relink_outside (relink item y m) list item y ys list
        (Chain-relink_outside m item y y ys list c.2 (ground arith)
          (rw (has-append y ys (list ∷ [])) (ground arith)))
        (ground arith) (rw (has-append item ys (list ∷ [])) (ground arith)),
  )

  head_after-Ring : Ring head_after list (item ∷ xs)
  head_after-Ring = record {
    chain =
        unfold head_after in
        (
          unfold relink write in ground arith,
          unfold relink write in ground arith,
          head-Chain xs ring.chain ring.distinct new,
        );
    distinct = (ground arith, (ground arith, ring.distinct.1));
    no_null = ground arith;
  }

  -- `list_add_head` puts a node that is not in the ring before its first node.
  pub list_add_head-Ring :
      (m' : Memory) × (list_add_head list item m ≡ done tt m') × Ring m' list (item ∷ xs)
  list_add_head-Ring = (head_after, list_add_head-done, head_after-Ring)

  head_after-other :
      (other : Ptr) (ys : List Ptr)
      → Ring m other ys
      → ((a : Ptr) → a ∈ list ∷ xs → a ∉ other ∷ ys)
      → item ∉ other ∷ ys
      → Ring head_after other ys
  unfolding head_after
  head_after-other other ys ring' apart' out = record {
    chain =
        Chain-relink_outside (relink item (first_of_chain xs list) m) list item other ys other
          (Chain-relink_outside m item (first_of_chain xs list) other ys other ring'.chain out
            (turned (first_of_chain xs list) (apart' (first_of_chain xs list) (first_mem xs))))
          (apart' list (ground arith)) (turned item out);
    distinct = ring'.distinct;
    no_null = ring'.no_null;
  }
    where
      turned : (a : Ptr) → a ∉ other ∷ ys → a ∉ ys ++ other ∷ []
      turned a o = ground (arith, has-append a ys (other ∷ []))

  -- An insertion at the head of one ring keeps every other ring.
  pub list_add_head-frame :
      (m' : Memory) × (list_add_head list item m ≡ done tt m')
      × Ring m' list (item ∷ xs)
      × ((other : Ptr) (ys : List Ptr)
          → Ring m other ys
          → ((a : Ptr) → a ∈ list ∷ xs → a ∉ other ∷ ys)
          → item ∉ other ∷ ys
          → Ring m' other ys)
  list_add_head-frame = (head_after, list_add_head-done, head_after-Ring, head_after-other)

-- A head that `init_list_node` has set to NULL is no ring: the first insertion faults.
init_list_node-add_fault :
    (m : Memory) (list item : Ptr)
    → list ≢ null
    → item ≢ null
    → item ≢ list
    → ((init_list_node list >> list_add_head list item) m ≡ fault)
      × ((init_list_node list >> list_add_tail list item) m ≡ fault)
unfolding init_list_node list_add_head list_add_tail write get_next get_prev put_next put_prev
init_list_node-add_fault m list item ok ok' ne = (ground arith, ground arith)
