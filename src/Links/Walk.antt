-- ===== src/Links/Walk.antt =====
-- Walks along a ring: the two ends, the length and the search.
use new_explorer_aios.Prelude.{
  ℕ, zero, suc, ◌+◌, ◌<◌, ◌≡◌, refl, Bool, false, List, [], ◌∷◌, length, arith, ◌==◌, if◌then◌else◌,
  Bool-cases, inl, inr, ==_self,
}
use new_explorer_aios.Links.Memory.{Ptr, null, Memory, done}
use new_explorer_aios.Links.Chain.{
  ◌∉◌, Chain, Ring, Distinct, last_of, first_of_chain, last_of-mem, Chain-prev, Chain-next,
}
use new_explorer_aios.Links.Writes.{get_next-ok, get_prev-ok}
use new_explorer_aios.Links.Insert.{not_null, apart}
use new_explorer_aios.Links.{
  length_loop, list_length, search_loop, list_search, list_peek_head, list_peek_tail,
  list_peek_next, list_peek_next_no_check,
}

-- The first node that satisfies a test, or NULL.
abbrev pub first_match : (Ptr → Bool) → List Ptr → Ptr
first_match matches [] = null
first_match matches (x ∷ xs) = if matches x then x else first_match matches xs

module _ (m : Memory) (list : Ptr) where
  length_loop_lem :
      (p : Ptr) (xs : List Ptr) (fuel cnt : ℕ)
      → Chain m p xs list
      → list ∉ xs
      → null ∉ xs
      → length xs < fuel
      → length_loop fuel list (first_of_chain xs list) cnt m ≡ done (cnt + length xs) m
  unfolding length_loop
  length_loop_lem p xs zero cnt c out ok enough = absurd (omega arith)
  length_loop_lem p [] (suc fuel) cnt c out ok enough = ground arith
  length_loop_lem p (x ∷ xs) (suc fuel) cnt c out ok enough =
      let ne : (x == list) ≡ false = (ground arith) in
      let there : (x == null) ≡ false = (ground arith) in
      rw (ne, get_next-ok x there, Chain-next m x xs list c.2)
        (ground (arith, length_loop_lem x xs fuel (cnt + 1) c.2))

  -- With fuel beyond the number of its nodes, `list_length` returns that number.
  list_length_lem :
      (xs : List Ptr)
      → Ring m list xs
      → (fuel : ℕ) → length xs < fuel
      → list_length fuel list m ≡ done (length xs) m
  unfolding list_length
  list_length_lem xs ring fuel enough =
      rw
        (
          get_next-ok list (not_null list (list ∷ xs) (ground arith) ring.no_null),
          Chain-next m list xs list ring.chain,
        )
        (ground (
          arith,
          length_loop_lem list xs fuel 0 ring.chain ring.distinct.0 (ground (arith, ring.no_null))
              enough,
        ))

  search_loop_lem :
      (matches : Ptr → Bool) (x : Ptr) (xs : List Ptr) (fuel : ℕ)
      → Chain m x xs list
      → (list == null) ≡ false
      → Distinct (x ∷ xs)
      → null ∉ x ∷ xs
      → suc (length xs) < fuel
      → search_loop matches fuel list x m ≡ done (first_match matches (x ∷ xs)) m
  unfolding search_loop list_peek_next list_peek_next_no_check
  search_loop_lem matches x xs zero c ok d out enough = absurd (omega arith)
  search_loop_lem matches x [] (suc zero) c ok d out enough = absurd (omega arith)
  search_loop_lem matches x [] (suc (suc fuel)) c ok d out enough =
      let there : (x == null) ≡ false = (ground arith) in
      elim (Bool-cases (matches x)) [
        | inl hit ↦ rw (there, hit) refl
        | inr miss ↦ rw (there, miss, get_prev-ok list ok, c.1, ==_self x) refl
      ]
  search_loop_lem matches x (y ∷ xs) (suc fuel) c ok d out enough =
      let there : (x == null) ≡ false = (ground arith) in
      let inner : (x == last_of y xs) ≡ false =
        (apart x (last_of y xs) (y ∷ xs) d.0 (last_of-mem y xs)) in
      elim (Bool-cases (matches x)) [
        | inl hit ↦ rw (there, hit) refl
        | inr miss ↦
            rw
              (
                there,
                miss,
                get_prev-ok list ok,
                Chain-prev m x (y ∷ xs) list c,
                inner,
                get_next-ok x there,
                c.0,
              )
              (search_loop_lem matches y xs fuel c.2 ok d.1 (ground arith) (omega arith))
      ]

  -- With fuel beyond the number of its nodes by two, `list_search` returns the first node that
  -- matches, or NULL.
  pub list_search_lem :
      (matches : Ptr → Bool) (xs : List Ptr)
      → Ring m list xs
      → (fuel : ℕ) → suc (length xs) < fuel
      → list_search matches fuel list m ≡ done (first_match matches xs) m
  unfolding list_search list_peek_head
  list_search_lem matches [] ring zero enough = absurd (omega arith)
  list_search_lem matches [] ring (suc fuel) enough =
      let ok = not_null list (list ∷ []) (ground arith) ring.no_null in
      rw (get_next-ok list ok, ring.chain.0, ==_self list) (unfold search_loop in refl)
  list_search_lem matches (x ∷ xs) ring fuel enough =
      let ok = not_null list (list ∷ x ∷ xs) (ground arith) ring.no_null in
      let ne : (x == list) ≡ false = (ground (arith, ring.distinct.0)) in
      rw (get_next-ok list ok, ring.chain.0, ne)
        (search_loop_lem matches x xs fuel ring.chain.2 ok ring.distinct.1
          (ground (arith, ring.no_null)) (omega arith))

  -- The two ends of a ring, or NULL when it has no node.
  pub list_peek_lem :
      (xs : List Ptr)
      → Ring m list xs
      → (list_peek_head list m ≡ done (first_of_chain xs null) m)
        × (list_peek_tail list m ≡ done (last_of null xs) m)
  unfolding list_peek_head list_peek_tail
  list_peek_lem [] ring =
      let ok = not_null list (list ∷ []) (ground arith) ring.no_null in
      (
        rw (get_next-ok list ok, ring.chain.0, ==_self list) refl,
        rw (get_prev-ok list ok, ring.chain.1, ==_self list) refl,
      )
  list_peek_lem (x ∷ xs) ring =
      let ok = not_null list (list ∷ x ∷ xs) (ground arith) ring.no_null in
      let ne : (x == list) ≡ false = (ground (arith, ring.distinct.0)) in
      let ne' : (last_of x xs == list) ≡ false =
        (ground (arith, apart list (last_of x xs) (x ∷ xs) ring.distinct.0 (last_of-mem x xs))) in
      (
        rw (get_next-ok list ok, ring.chain.0, ne) refl,
        rw (get_prev-ok list ok, Chain-prev m list (x ∷ xs) list ring.chain, ne') refl,
      )
