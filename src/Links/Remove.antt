-- ===== src/Links/Remove.antt =====
-- Removal from a ring.
use mathlib.Core.List.{append-nil}
use new_explorer_aios.Prelude.{◌≡◌, refl, false, List, [], ◌∷◌, ◌++◌, arith, ◌==◌}
use new_explorer_aios.Links.Memory.{Ptr, null, Memory, done, write}
use new_explorer_aios.Links.Chain.{
  ◌∈◌, ◌∉◌, Chain, Ring, Distinct, Distinct-remove, relink, last_of, first_of_chain, last_of-mem,
  has-append, Chain-prev, Chain-next, Chain-append, Chain-split, Chain-relink_last,
  Chain-relink_outside, Chain-frame,
}
use new_explorer_aios.Links.Writes.{get_next-ok, get_prev-ok, put_next-ok, put_prev-ok, write_ne}
use new_explorer_aios.Links.Insert.{not_null, apart}
use new_explorer_aios.Links.{list_delete, list_del, list_remove_head, list_remove_tail}

-- Two parts of a distinct list share no address.
pub Distinct-disjoint : (a : Ptr) (xs ys : List Ptr) → Distinct (xs ++ ys) → a ∈ xs → a ∉ ys
Distinct-disjoint a [] ys d i = cc
Distinct-disjoint a (x ∷ xs) ys d i =
    ground (arith, has-append x xs ys, apart a x ys, Distinct-disjoint a xs ys d.1)

Distinct-prefix : (xs ys : List Ptr) → Distinct (xs ++ ys) → Distinct xs
Distinct-prefix [] ys d = tt
Distinct-prefix (x ∷ xs) ys d = (ground (arith, has-append x xs ys), Distinct-prefix xs ys d.1)

first_mem : (ys : List Ptr) (q : Ptr) → first_of_chain ys q ∈ q ∷ ys
first_mem [] q = ground arith
first_mem (y ∷ ys) q = ground arith

-- The memory after the removal of `item` between `p` and `n`.
unlinked : Ptr → Ptr → Ptr → Memory → Memory
unfolding write
unlinked p item n m = record {
  next = write (relink p n m).next item null;
  prev = write (relink p n m).prev item null;
}

-- Both removals, run on a node with two other neighbours that are not NULL.
module _ (m : Memory) (p item n : Ptr) (item_ok : (item == null) ≡ false)
    (p_ok : (p == null) ≡ false) (n_ok : (n == null) ≡ false) (to_n : m.next item ≡ n)
    (to_p : m.prev item ≡ p) (p_ne : (item == p) ≡ false) (n_ne : (item == n) ≡ false) where
  delete_done : list_delete item m ≡ done tt (unlinked p item n m)
  unfolding list_delete unlinked relink
  delete_done =
      rw
        (
          get_next-ok item item_ok,
          get_prev-ok item item_ok,
          to_n,
          to_p,
          put_prev-ok n n_ok,
          get_prev-ok item item_ok,
          get_next-ok item item_ok,
          write_ne m.prev n p item n_ne,
          to_p,
          to_n,
          put_next-ok p p_ok,
          put_next-ok item item_ok,
          put_prev-ok item item_ok,
        )
        refl

  del_done : list_del item m ≡ done tt (unlinked p item n m)
  unfolding list_del unlinked relink
  del_done =
      rw
        (
          get_prev-ok item item_ok,
          get_next-ok item item_ok,
          to_n,
          to_p,
          put_next-ok p p_ok,
          get_next-ok item item_ok,
          get_prev-ok item item_ok,
          write_ne m.next p n item p_ne,
          to_p,
          to_n,
          put_prev-ok n n_ok,
          put_next-ok item item_ok,
          put_prev-ok item item_ok,
        )
        refl

module _ (m : Memory) (list : Ptr) where
  relinked-Chain :
      (xs : List Ptr) (item : Ptr) (ys : List Ptr)
      → Chain m list (xs ++ item ∷ ys) list
      → Distinct (list ∷ xs ++ item ∷ ys)
      → Chain (relink (last_of list xs) (first_of_chain ys list) m) list (xs ++ ys) list
  relinked-Chain xs item [] c d =
      let (front, back) = Chain-split m list xs item [] list c in
      let (kept, out) = Distinct-remove (list ∷ xs) item [] d in
      rw (append-nil xs) (
        Chain-relink_last m list xs item list front (rw (← append-nil xs) kept)
          (rw (← append-nil xs) kept.0))
  relinked-Chain xs item (y ∷ ys) c d =
      let (front, back) = Chain-split m list xs item (y ∷ ys) list c in
      let (kept, out) = Distinct-remove (list ∷ xs) item (y ∷ ys) d in
      let apart_y =
        Distinct-disjoint (last_of list xs) (list ∷ xs) (y ∷ ys) kept (last_of-mem list xs) in
      let (kept', out') = Distinct-remove (list ∷ xs) y ys kept in
      Chain-append (relink (last_of list xs) y m) list xs y ys list
        (Chain-relink_last m list xs item y front (Distinct-prefix (list ∷ xs) (y ∷ ys) kept)
          (ground (arith, has-append y xs ys)))
        (Chain-relink_outside m (last_of list xs) y y ys list back.2 apart_y
          (rw (has-append y ys (list ∷ [])) (ground (arith, has-append y xs ys))))

module _ (m : Memory) (list : Ptr) (xs : List Ptr) (item : Ptr) (ys : List Ptr)
    (ring : Ring m list (xs ++ item ∷ ys)) where
  -- `item` is taken out and its links are NULL.
  abbrev pub Removed : Memory → Type 0
  Removed m' = Ring m' list (xs ++ ys) × (m'.next item ≡ null) × (m'.prev item ≡ null)

  before : Ptr
  before = last_of list xs

  after : Ptr
  after = first_of_chain ys list

  outside : item ∉ list ∷ xs ++ ys
  outside = (Distinct-remove (list ∷ xs) item ys ring.distinct).1

  others_ok : null ∉ list ∷ xs ++ ys
  others_ok = ground (arith, ring.no_null, has-append null xs ys, has-append null xs (item ∷ ys))

  item_ok : (item == null) ≡ false
  item_ok = ground (arith, ring.no_null, has-append null xs (item ∷ ys))

  before_mem : before ∈ list ∷ xs ++ ys
  unfolding before
  before_mem = ground (arith, last_of-mem list xs, has-append (last_of list xs) xs ys)

  after_mem : after ∈ list ∷ xs ++ ys
  unfolding after
  after_mem = ground (arith, first_mem ys list, has-append (first_of_chain ys list) xs ys)

  before_ok : (before == null) ≡ false
  before_ok = not_null before (list ∷ xs ++ ys) before_mem others_ok

  after_ok : (after == null) ≡ false
  after_ok = not_null after (list ∷ xs ++ ys) after_mem others_ok

  before_ne : (item == before) ≡ false
  before_ne = apart item before (list ∷ xs ++ ys) outside before_mem

  after_ne : (item == after) ≡ false
  after_ne = apart item after (list ∷ xs ++ ys) outside after_mem

  unlinked-Removed : Removed (unlinked before item after m)
  unfolding before after unlinked write
  unlinked-Removed = (
    record {
      chain =
          Chain-frame (relink before after m) (unlinked before item after m) list (xs ++ ys) list
            (relinked-Chain m list xs item ys ring.chain ring.distinct)
            (λ a i. ground (arith, outside, apart item a (list ∷ xs ++ ys)))
            (λ a i. ground (
              arith,
              outside,
              apart item a (list ∷ xs ++ ys),
              has-append a (xs ++ ys) (list ∷ []),
            ));
      distinct = (Distinct-remove (list ∷ xs) item ys ring.distinct).0;
      no_null = others_ok;
    },
    ground arith,
    ground arith,
  )

  to_after : m.next item ≡ after
  unfolding after
  to_after = Chain-next m item ys list (Chain-split m list xs item ys list ring.chain).1

  to_before : m.prev item ≡ before
  unfolding before
  to_before = Chain-prev m list xs item (Chain-split m list xs item ys list ring.chain).0

  -- `list_delete` takes a node out of its ring and leaves it with links that are NULL.
  pub list_delete-Ring : (m' : Memory) × (list_delete item m ≡ done tt m') × Removed m'
  list_delete-Ring = (
    unlinked before item after m,
    delete_done m before item after item_ok before_ok after_ok to_after to_before before_ne
        after_ne,
    unlinked-Removed,
  )

  -- `list_del` takes a node out of its ring and leaves it with links that are NULL.
  pub list_del-Ring : (m' : Memory) × (list_del item m ≡ done tt m') × Removed m'
  list_del-Ring = (
    unlinked before item after m,
    del_done m before item after item_ok before_ok after_ok to_after to_before before_ne after_ne,
    unlinked-Removed,
  )

  -- A removal from one ring keeps every other ring.
  unlinked-other :
      (other : Ptr) (zs : List Ptr)
      → Ring m other zs
      → ((a : Ptr) → a ∈ list ∷ xs ++ item ∷ ys → a ∉ other ∷ zs)
      → Ring (unlinked before item after m) other zs
  unfolding unlinked write
  unlinked-other other zs ring' apart' = record {
    chain =
        Chain-frame (relink before after m) (unlinked before item after m) other zs other
          (Chain-relink_outside m before after other zs other ring'.chain (away before before_in)
            (turned after (away after after_in)))
          (λ a i. ground (arith, item_out, apart item a (other ∷ zs)))
          (λ a i.
            ground (arith, item_out, apart item a (other ∷ zs), has-append a zs (other ∷ [])));
    distinct = ring'.distinct;
    no_null = ring'.no_null;
  }
    where
      away : (a : Ptr) → a ∈ list ∷ xs ++ ys → a ∉ other ∷ zs
      away a i = apart' a (ground (arith, has-append a xs ys, has-append a xs (item ∷ ys)))

      before_in : before ∈ list ∷ xs ++ ys
      before_in = before_mem

      after_in : after ∈ list ∷ xs ++ ys
      after_in = after_mem

      item_out : item ∉ other ∷ zs
      item_out = apart' item (ground (arith, has-append item xs (item ∷ ys)))

      turned : (a : Ptr) → a ∉ other ∷ zs → a ∉ zs ++ other ∷ []
      turned a o = ground (arith, has-append a zs (other ∷ []))

  pub list_del-frame :
      (m' : Memory) × (list_del item m ≡ done tt m')
      × Removed m'
      × ((other : Ptr) (zs : List Ptr)
          → Ring m other zs
          → ((a : Ptr) → a ∈ list ∷ xs ++ item ∷ ys → a ∉ other ∷ zs)
          → Ring m' other zs)
  list_del-frame = (
    unlinked before item after m,
    del_done m before item after item_ok before_ok after_ok to_after to_before before_ne after_ne,
    unlinked-Removed,
    unlinked-other,
  )

module _ (m : Memory) (list : Ptr) where
  -- A list without nodes gives NULL from either end and stays as it is.
  pub list_remove-empty :
      Ring m list []
      → (list_remove_head list m ≡ done null m) × (list_remove_tail list m ≡ done null m)
  unfolding list_remove_head list_remove_tail
  list_remove-empty ring =
      let ok = not_null list (list ∷ []) (ground arith) ring.no_null in
      (
        rw (get_next-ok list ok, ring.chain.0) (ground arith),
        rw (get_prev-ok list ok, ring.chain.1) (ground arith),
      )

  -- `list_remove_head` returns the first node and takes it out.
  list_remove_head-Ring :
      (x : Ptr) (xs : List Ptr) (ring : Ring m list (x ∷ xs))
      → (m' : Memory) × (list_remove_head list m ≡ done x m') × Removed m list [] x xs ring m'
  unfolding list_remove_head
  list_remove_head-Ring x xs ring =
      let ok = not_null list (list ∷ x ∷ xs) (ground arith) ring.no_null in
      let (m', run, removed) = list_delete-Ring m list [] x xs ring in
      (m', rw (get_next-ok list ok, ring.chain.0) (ground (arith, ring.distinct.0, run)), removed)

  -- `list_remove_tail` returns the last node and takes it out.
  pub list_remove_tail-Ring :
      (xs : List Ptr) (x : Ptr) (ring : Ring m list (xs ++ x ∷ []))
      → (m' : Memory) × (list_remove_tail list m ≡ done x m') × Removed m list xs x [] ring m'
  unfolding list_remove_tail
  list_remove_tail-Ring xs x ring =
      let ok = not_null list (list ∷ xs ++ x ∷ []) (ground arith) ring.no_null in
      let (m', run, removed) = list_delete-Ring m list xs x [] ring in
      let last = (Chain-split m list xs x [] list ring.chain).1.1 in
      (
        m',
        rw (get_prev-ok list ok, last)
            (ground (arith, ring.distinct.0, has-append list xs (x ∷ []), run)),
        removed,
      )
