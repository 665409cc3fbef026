-- ===== src/Links/Loops/Visits.antt =====
-- Both styles of loop run through a ring in its order.
use new_explorer_aios.Prelude.{
  ℕ, zero, suc, ◌<◌, ◌≡◌, refl, false, List, [], ◌∷◌, length, arith, ◌==◌, ==_self,
}
use new_explorer_aios.Links.Memory.{Ptr, null, Memory, Cmd, done, pure}
use new_explorer_aios.Links.Chain.{
  ◌∉◌, Chain, Ring, Distinct, last_of, first_of_chain, last_of-mem, Chain-prev, Chain-next,
}
use new_explorer_aios.Links.Writes.{get_next-ok, get_prev-ok}
use new_explorer_aios.Links.Insert.{not_null, apart}
use new_explorer_aios.Links.{list_peek_head, list_peek_next, list_peek_next_no_check}
use new_explorer_aios.Links.Loops.{every_loop, list_for_every, each_loop, list_for_each_node}

-- What is left of the variables after all nodes, in order.
abbrev pub visit : {S : Type 0} → (Ptr → S → S) → List Ptr → S → S
visit f [] s = s
visit f (x ∷ xs) s = visit f xs (f x s)

module _ {S : Type 0} (f : Ptr → S → S) (m : Memory) (list : Ptr) where
  -- A body that only looks at the links.
  abbrev pub looks : Ptr → S → Cmd S
  looks x s = pure (f x s)

  every_loop_lem :
      (p : Ptr) (xs : List Ptr) (fuel : ℕ) (s : S)
      → Chain m p xs list
      → list ∉ xs
      → null ∉ xs
      → length xs < fuel
      → every_loop looks fuel list (first_of_chain xs list) s m ≡ done (visit f xs s) m
  unfolding every_loop
  every_loop_lem p xs zero s c out ok enough = absurd (omega arith)
  every_loop_lem p [] (suc fuel) s c out ok enough = rw (==_self list) refl
  every_loop_lem p (x ∷ xs) (suc fuel) s c out ok enough =
      let ne : (x == list) ≡ false = (ground arith) in
      let there : (x == null) ≡ false = (ground arith) in
      rw (ne, get_next-ok x there, Chain-next m x xs list c.2)
        (every_loop_lem x xs fuel (f x s) c.2 (ground arith) (ground arith) (omega arith))

  each_loop_lem :
      (x : Ptr) (xs : List Ptr) (fuel : ℕ) (s : S)
      → Chain m x xs list
      → (list == null) ≡ false
      → Distinct (x ∷ xs)
      → null ∉ x ∷ xs
      → suc (length xs) < fuel
      → each_loop looks fuel (list_peek_next list) x s m ≡ done (visit f (x ∷ xs) s) m
  unfolding each_loop list_peek_next list_peek_next_no_check
  each_loop_lem x xs zero s c ok d out enough = absurd (omega arith)
  each_loop_lem x [] (suc zero) s c ok d out enough = absurd (omega arith)
  each_loop_lem x [] (suc (suc fuel)) s c ok d out enough =
      let there : (x == null) ≡ false = (ground arith) in
      rw (there, get_prev-ok list ok, c.1, ==_self x) refl
  each_loop_lem x (y ∷ xs) (suc fuel) s c ok d out enough =
      let there : (x == null) ≡ false = (ground arith) in
      let inner : (x == last_of y xs) ≡ false =
        (apart x (last_of y xs) (y ∷ xs) d.0 (last_of-mem y xs)) in
      rw
        (
          there,
          get_prev-ok list ok,
          Chain-prev m x (y ∷ xs) list c,
          inner,
          get_next-ok x there,
          c.0,
        )
        (each_loop_lem y xs fuel (f x s) c.2 ok d.1 (ground arith) (omega arith))

  every_lem :
      (xs : List Ptr) (fuel : ℕ) (s : S)
      → Ring m list xs
      → suc (length xs) < fuel
      → list_for_every looks fuel list s m ≡ done (visit f xs s) m
  unfolding list_for_every
  every_lem xs fuel s ring enough =
      rw
        (
          get_next-ok list (not_null list (list ∷ xs) (ground arith) ring.no_null),
          Chain-next m list xs list ring.chain,
        )
        (every_loop_lem list xs fuel s ring.chain ring.distinct.0 (ground (arith, ring.no_null))
          (omega arith))

  each_lem :
      (xs : List Ptr) (fuel : ℕ) (s : S)
      → Ring m list xs
      → suc (length xs) < fuel
      → list_for_each_node looks fuel list s m ≡ done (visit f xs s) m
  unfolding list_for_each_node list_peek_head
  each_lem [] zero s ring enough = absurd (omega arith)
  each_lem [] (suc fuel) s ring enough =
      let ok = not_null list (list ∷ []) (ground arith) ring.no_null in
      rw (get_next-ok list ok, ring.chain.0, ==_self list) (unfold each_loop in refl)
  each_lem (x ∷ xs) fuel s ring enough =
      let ok = not_null list (list ∷ x ∷ xs) (ground arith) ring.no_null in
      let ne : (x == list) ≡ false = (ground (arith, ring.distinct.0)) in
      rw (get_next-ok list ok, ring.chain.0, ne)
        (each_loop_lem x xs fuel s ring.chain.2 ok ring.distinct.1 (ground (arith, ring.no_null))
          (omega arith))

  -- On a ring, with fuel beyond the number of its nodes by two and a body that only looks at the links,
  -- `list_for_every` and `list_for_each_node` do the same: they end, with the body run once at every
  -- node, in the order of the ring, and no link is changed.
  pub list_for_every-list_for_each_node :
      (xs : List Ptr) (fuel : ℕ) (s : S)
      → Ring m list xs
      → suc (length xs) < fuel
      → (list_for_every looks fuel list s m ≡ done (visit f xs s) m)
        × (list_for_each_node looks fuel list s m ≡ done (visit f xs s) m)
  list_for_every-list_for_each_node xs fuel s ring enough =
      (every_lem xs fuel s ring enough, each_lem xs fuel s ring enough)
