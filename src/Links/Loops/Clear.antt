-- ===== src/Links/Loops/Clear.antt =====
-- `list_for_every_safe` with a body that deletes the node it is at.
use new_explorer_aios.Prelude.{
  ℕ, zero, suc, ◌<◌, ◌≡◌, refl, false, List, [], ◌∷◌, length, arith, ◌==◌, ==_self,
}
use new_explorer_aios.Links.Memory.{Ptr, null, Memory, Cmd, Run, done, pure, ◌>>◌}
use new_explorer_aios.Links.Chain.{Ring, first_of_chain, Chain-next}
use new_explorer_aios.Links.Writes.{get_next-ok}
use new_explorer_aios.Links.Insert.{not_null}
use new_explorer_aios.Links.Remove.{list_delete-Ring}
use new_explorer_aios.Links.{list_delete}
use new_explorer_aios.Links.Loops.{every_safe_loop, list_for_every_safe}
use new_explorer_aios.Links.Loops.Visits.{visit}

module _ {S : Type 0} (f : Ptr → S → S) (list : Ptr) where
  -- The body: the node is deleted.
  abbrev pub deletes : Ptr → S → Cmd S
  deletes x s = list_delete x >> pure (f x s)

  head_ok : (m : Memory) (xs : List Ptr) → Ring m list xs → (list == null) ≡ false
  head_ok m xs ring = not_null list (list ∷ xs) (ground arith) ring.no_null

  first_ok :
      (m : Memory) (xs : List Ptr) → Ring m list xs → (first_of_chain xs list == null) ≡ false
  first_ok m [] ring = head_ok m [] ring
  first_ok m (x ∷ xs) ring = ground (arith, ring.no_null)

  -- A run ends with every node visited and a ring that has none left.
  abbrev Clears : List Ptr → S → Run S → Type 0
  Clears xs s run = (m' : Memory) × (run ≡ done (visit f xs s) m') × Ring m' list []

  every_safe_loop-Clears :
      (xs : List Ptr) (fuel : ℕ) (s : S) (m : Memory)
      → Ring m list xs
      → length xs < fuel
      → Clears xs s (
          every_safe_loop deletes fuel list
            (first_of_chain xs list)
            (m.next (first_of_chain xs list))
            s
            m)
  unfolding every_safe_loop
  every_safe_loop-Clears xs zero s m ring enough = absurd (omega arith)
  every_safe_loop-Clears [] (suc fuel) s m ring enough = (m, rw (==_self list) refl, ring)
  every_safe_loop-Clears (x ∷ xs) (suc fuel) s m ring enough =
      let ne : (x == list) ≡ false = (ground (arith, ring.distinct.0)) in
      let (m', run, removed) = list_delete-Ring m list [] x xs ring in
      rw
        (
          ne,
          Chain-next m x xs list ring.chain.2,
          run,
          get_next-ok (first_of_chain xs list) (first_ok m' xs removed.0),
        )
        (every_safe_loop-Clears xs fuel (f x s) m' removed.0 (omega arith))

  -- On a ring, with fuel beyond the number of its nodes, `list_for_every_safe` with a body that deletes
  -- the node it is at ends without a fault: the body has been run once at every node, in the order of
  -- the ring, and the list has no node left.
  pub list_for_every_safe-Ring :
      (m : Memory) (xs : List Ptr) (fuel : ℕ) (s : S)
      → Ring m list xs
      → length xs < fuel
      → (m' : Memory) × (list_for_every_safe deletes fuel list s m ≡ done (visit f xs s) m')
        × Ring m' list []
  unfolding list_for_every_safe
  list_for_every_safe-Ring m xs fuel s ring enough =
      rw
        (
          get_next-ok list (head_ok m xs ring),
          Chain-next m list xs list ring.chain,
          get_next-ok (first_of_chain xs list) (first_ok m xs ring),
        )
        (every_safe_loop-Clears xs fuel s m ring enough)
