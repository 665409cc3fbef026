-- ===== src/Node/Budget/Sum.antt =====
-- `budget_sufficient` compares a request with a sum.
use new_explorer_aios.Prelude.{
  ℕ, zero, suc, ◌+◌, ◌-◌, ◌*◌, ◌^◌, ◌<◌, ◌≡◌, ◌∙◌, Bool, true, false, not, Option, none, some, ltb,
  leb, arith, Bool-cases, inl, inr,
}
use new_explorer_aios.Bits.Word.{sub64}
use new_explorer_aios.Group.World.{World}
use new_explorer_aios.Group.Sequence.{signed_lt}
use new_explorer_aios.Node.Shared.{Setting}
use new_explorer_aios.Node.Budget.{free_items, wanted_loop, remaining_nitem, budget_sufficient}

module _ (setting : Setting) (w : World) where
  -- The free items of `rounds` nodes from `nu`.
  unfoldable pub sum_free : ℕ → ℕ → ℕ
  sum_free zero nu = 0
  sum_free (suc rounds) nu = free_items setting w nu + sum_free rounds (nu + 1)

  -- The test after the loop.
  abbrev enough : ℕ → Option ℕ → Bool
  enough rest none = true
  enough rest (some left) = not (signed_lt rest left)

  wanted_loop_lem :
      (rounds nu nitems rest : ℕ)
      → nitems < 2 ^ 63
      → rest < 2 ^ 63
      → ((n : ℕ) → free_items setting w n < 2 ^ 63)
      → enough rest (wanted_loop setting w rounds nu nitems)
        ≡ leb nitems (sum_free rounds nu + rest)
  unfolding wanted_loop sum_free signed_lt
  wanted_loop_lem zero nu nitems rest h r f = ground arith
  wanted_loop_lem (suc rounds) nu nitems rest h r f =
      let free = f nu in
      elim (Bool-cases (ltb nitems (free_items setting w nu))) [
        | inl e ↦
            let below : leb (2 ^ 63) (sub64 nitems (free_items setting w nu)) ≡ true =
              ground arith in
            rw below (ground arith)
        | inr e ↦
            let left : sub64 nitems (free_items setting w nu) ≡ nitems - free_items setting w nu =
              ground arith in
            let above : leb (2 ^ 63) (nitems - free_items setting w nu) ≡ false = ground arith in
            let ih =
              wanted_loop_lem rounds (nu + 1) (nitems - free_items setting w nu) rest (ground arith)
                r f in
            rw (left, above) (ih ∙ ground arith)
      ]

  -- `budget_sufficient` says yes exactly when the request is at most the free items of the 16 nodes of the
  -- dimension, together with what else the migration type has. None of the numbers has the digit of
  -- a sign.
  pub budget_sufficient_lem :
      (nitems migration_type dim : ℕ)
      → nitems < 2 ^ 63
      → remaining_nitem setting w migration_type dim < 2 ^ 63
      → ((n : ℕ) → free_items setting w n < 2 ^ 63)
      → budget_sufficient setting w nitems migration_type dim
        ≡ leb nitems (sum_free 16 (dim * 16) + remaining_nitem setting w migration_type dim)
  unfolding budget_sufficient
  budget_sufficient_lem nitems migration_type dim h r f =
      wanted_loop_lem 16 (dim * 16) nitems (remaining_nitem setting w migration_type dim) h r f
