-- ===== src/Node/Blocks.antt =====
-- The blocks that `repeating_dispatch` asks for, where they may be put together.
use mathlib.Core.Path.{fun_ext}
use native.Mathlib.Decide.{dec_lt}
use native.Mathlib.Nat.{pow-le-pow_right}
use new_explorer_aios.Prelude.{
  ℕ, zero, suc, ◌+◌, ◌^◌, ◌≤◌, ◌<◌, ◌≡◌, refl, true, List, [], ◌∷◌, arith, ap, ◌==◌, Bool-cases,
  inl, inr,
}
use new_explorer_aios.Bits.Word.{word_mod}
use new_explorer_aios.Types.Clz.{IsClz}
use new_explorer_aios.Convert.{item_to_orders}
use new_explorer_aios.Convert.Orders.{item_to_orders_lem}
use new_explorer_aios.Links.Memory.{Ptr, null}
use new_explorer_aios.Group.Budget.{as_int_small}
use new_explorer_aios.Node.Replies.{Fallible, succeed, ◌>>=◌}
use new_explorer_aios.Node.Shared.{Setting, Vtable, para_of, join_items}
use new_explorer_aios.Node.{repeating_loop, repeating_dispatch}

-- The items in blocks of the given orders.
unfoldable pub items_in : List ℕ → ℕ
items_in [] = 0
items_in (o ∷ os) = 2 ^ o + items_in os

-- The orders fall, from below a bound.
abbrev pub Falling : ℕ → List ℕ → Type 0
Falling bound [] = Unit
Falling bound (o ∷ os) = (o < bound) × Falling o os

below_power : (o b n : ℕ) → 2 ^ o ≤ n → n < 2 ^ b → o < b
below_power o b n lo hi = elim (dec_lt o b) [
  | yes h ↦ h
  | no h ↦
      absurd (omega (arith, pow-le-pow_right {n = 2} (omega arith) {i = b} {j = o} (omega arith)))
]

module _ (setting : Setting) (vtable : Vtable) (node : Ptr) (lvl type : ℕ) where
  -- One dispatch for each order, the items joined to the first one.
  unfoldable pub serve : List ℕ → Ptr → Fallible Ptr
  serve [] item_ptr = succeed item_ptr
  serve (o ∷ os) item_ptr = do
    tmp ← vtable.dispatch node setting.unset lvl type o (para_of true)
    head ← join_items setting.fuel true item_ptr tmp
    serve os head

  module _ (clz : IsClz setting.clzl) where
    -- The dispatch of one block and what follows it.
    abbrev one_block : Ptr → ℕ → (Ptr → Fallible Ptr) → Fallible Ptr
    one_block item_ptr o rest = do
      tmp ← vtable.dispatch node setting.unset lvl type o (para_of true)
      head ← join_items setting.fuel true item_ptr tmp
      rest head

    -- A list of orders, the sum that it stands for, and what the loop does with it.
    record Served (fuel bound nitems : ℕ) (os : List ℕ) : Type 0 where
      total : items_in os ≡ nitems
      falling : Falling bound os
      run :
          (item_ptr : Ptr)
          → repeating_loop setting vtable fuel node lvl type true nitems item_ptr
            ≡ serve os item_ptr

    repeating_loop-Served :
        (fuel bound nitems : ℕ)
        → nitems < 2 ^ bound
        → bound < fuel
        → bound ≤ 64
        → (os : List ℕ) × Served fuel bound nitems os
    unfolding repeating_loop serve items_in
    repeating_loop-Served zero bound n small enough h = absurd (omega arith)
    repeating_loop-Served (suc fuel) bound n small enough h = elim (Bool-cases (n == 0)) [
      | inl e ↦ ([], record { total = ground arith; falling = tt; run = λ item_ptr. rw e refl })
      | inr e ↦
          let fits = pow-le-pow_right {n = 2} (omega arith) {i = bound} {j = 64} h in
          let (sum, left) = item_to_orders_lem clz n (ground arith) (omega (arith, fits)) in
          let o : ℕ = (item_to_orders setting.clzl n).0 in
          let below : o < bound = below_power o bound n (omega (arith, sum)) small in
          let (os, served) =
            repeating_loop-Served fuel o (item_to_orders setting.clzl n).1 left (omega arith)
              (omega arith) in
          (
            o ∷ os,
            record {
              total = omega (arith, served.total, sum);
              falling = (below, served.falling);
              run = λ item_ptr.
                  rw (e, as_int_small o (omega (arith, below)))
                    (ap (λ (k : Ptr → Fallible Ptr). one_block item_ptr o k) (fun_ext served.run));
            },
          )
    ]

    -- `repeating_dispatch` of blocks that may be put together asks for blocks whose items add up to the
    -- request, each of a lower order than the one before, and for nothing else: it is the dispatch of one
    -- block after the other.
    pub repeating_dispatch-serve :
        (nitems : ℕ)
        → nitems < word_mod
        → (os : List ℕ) × (items_in os ≡ nitems)
          × Falling 64 os
          × (repeating_dispatch setting vtable node lvl type nitems true ≡ serve os null)
    unfolding repeating_dispatch
    repeating_dispatch-serve nitems h =
        let (os, served) = repeating_loop-Served 65 64 nitems h (omega arith) (omega arith) in
        (os, served.total, served.falling, served.run null)
