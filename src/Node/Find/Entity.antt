-- ===== src/Node/Find/Entity.antt =====
-- The loop of `find_group` on a request for an entity.
use native.Mathlib.Nat.{div-add-mod}
use new_explorer_aios.Prelude.{
  ℕ, zero, suc, ◌+◌, ◌-◌, ◌/◌, ◌%◌, ◌*◌, ◌^◌, ◌≤◌, ◌<◌, ◌≡◌, ◌≢◌, ◌∙◌, refl, true, false, bit_and,
  arith, ◌==◌, if◌then◌else◌, Bool-cases, inl, inr, one-le-pow,
}
use new_explorer_aios.Bits.Word.{◌>>>◌, sub64}
use new_explorer_aios.Bits.Field.{and_mask}
use new_explorer_aios.Macros.{bit}
use new_explorer_aios.Struct.Node.{AllocPara}
use new_explorer_aios.Links.Memory.{Ptr, null}
use new_explorer_aios.Group.World.{World, as_int, Outcome, returns, faults, exhausted}
use new_explorer_aios.Node.Replies.{Reply, reply, error, Fallible, or_else_on, on_reply}
use new_explorer_aios.Node.Shared.{Setting, Vtable, join_items}
use new_explorer_aios.Node.Find.{
  find_group_reversed, bad_idx, level_order, level_shift, level_loop, levels_loop, find_group,
  serving_node,
}

-- A run that does not end with NO_ERROR.
abbrev pub NoReply : {A : Type 0} → Outcome (Reply A) → Type 0
NoReply (returns (reply a) w) = ⊥
NoReply (returns (error e) w) = Unit
NoReply faults = Unit
NoReply exhausted = Unit

module _ {A B : Type 0} where
  -- What follows a run does not end with NO_ERROR where it does not after any reply.
  pub NoReply-follow :
      (o : Outcome (Reply A)) (k : A → Fallible B)
      → ((a : A) (w : World) → NoReply (k a w))
      → NoReply (on_reply o k)
  NoReply-follow (returns (reply a) w) k h = h a w
  NoReply-follow (returns (error e) w) k h = tt
  NoReply-follow faults k h = tt
  NoReply-follow exhausted k h = tt

  NoReply-keep : (o : Outcome (Reply A)) (k : A → Fallible B) → NoReply o → NoReply (on_reply o k)
  NoReply-keep (returns (reply a) w) k h = absurd h
  NoReply-keep (returns (error e) w) k h = tt
  NoReply-keep faults k h = tt
  NoReply-keep exhausted k h = tt

  pub NoReply-handle :
      (o : Outcome (Reply A)) (k : A → Fallible B) (r : ℕ → Fallible B)
      → ((a : A) (w : World) → NoReply (k a w))
      → ((e : ℕ) (w : World) → NoReply (r e w))
      → NoReply (or_else_on o k r)
  NoReply-handle (returns (reply a) w) k r h g = h a w
  NoReply-handle (returns (error e) w) k r h g = g e w
  NoReply-handle faults k r h g = tt
  NoReply-handle exhausted k r h g = tt

small_lem : (k n : ℕ) → (n / 2 ^ k == 0) ≡ true → n % 2 ^ k ≡ n
small_lem k n e =
    let q : n / 2 ^ k ≡ 0 = ground arith in
    let pos = one-le-pow k 2 (omega arith) in
    let whole = div-add-mod n (2 ^ k) in let whole1 = rw q at whole in omega (arith, whole1)

-- A level that takes nothing leaves everything to the next.
left_lem :
    (level n : ℕ)
    → 1 ≤ level
    → level < 3
    → (n >>> ((4 - level - 1) * 3) == 0) ≡ true
    → bit_and n (sub64 (bit ((4 - level - 1) * 3)) 1) ≡ n
unfolding bit
left_lem zero n h l e = absurd (omega arith)
left_lem (suc zero) n h l e = and_mask 6 n ∙ small_lem 6 n e
left_lem (suc (suc zero)) n h l e = and_mask 3 n ∙ small_lem 3 n e
left_lem (suc (suc (suc level))) n h l e = absurd (omega arith)

module _ (setting : Setting) (vtable : Vtable) (para : AllocPara)
    (entity : para.is_entry ≡ true) where
  bad_idx-NoReply :
      (type : ℕ) (item_ptr : Ptr) (w : World)
      → NoReply (bad_idx setting vtable type para item_ptr w)
  unfolding bad_idx
  bad_idx-NoReply type item_ptr w = elim (Bool-cases (item_ptr == null)) [
    | inl e ↦ rw e tt
    | inr e ↦ rw e (
        NoReply-follow (find_group_reversed setting type item_ptr para.is_virtual w) _ (λ a w1. tt))
  ]

  entity_order : (n : ℕ) → level_order setting para n ≡ (n, n)
  unfolding level_order
  entity_order n = rw entity refl

  level_loop-NoReply :
      (fuel : ℕ) (node : Ptr) (level type lvl_nitem : ℕ) (item_ptr : Ptr) (w : World)
      → (lvl_nitem == 0) ≡ false
      → NoReply (level_loop setting vtable fuel node level type lvl_nitem para item_ptr w)
  unfolding level_loop
  level_loop-NoReply zero node level type n item_ptr w ne = tt
  level_loop-NoReply (suc fuel) node level type n item_ptr w ne = rw (entity_order n) (
      NoReply-handle (vtable.dispatch node setting.unset level type (as_int n) para w) _ _
        (λ tmp w1.
          NoReply-follow (join_items setting.fuel para.is_combined item_ptr tmp w1) _
            (λ head w2. rw ne (level_loop-NoReply fuel node level type n head w2 ne)))
        (λ e w1. bad_idx-NoReply type item_ptr w1))

  entity_shift : (level type : ℕ) → level_shift setting type level para ≡ (4 - level - 1) * 3
  unfolding level_shift
  entity_shift level type = rw entity refl

  -- The last level takes every item.
  entity_more :
      (rounds level n : ℕ)
      → level + suc rounds ≡ 4
      → (n == 0) ≡ false
      → (n >>> ((4 - level - 1) * 3) == 0) ≡ true
      → level < 3
  entity_more zero level n at ne e =
      let last : level ≡ 3 = omega arith in let e1 = rw last at e in absurd (ground arith)
  entity_more (suc rounds) level n at ne e = omega arith

  -- The levels 1 to 3, whose blocks have 64, 8 and 1 items.
  levels_loop-NoReply :
      (rounds level : ℕ) (node : Ptr) (type nitems : ℕ) (item_ptr : Ptr) (w : World)
      → level + rounds ≡ 4
      → 1 ≤ level
      → 1 ≤ rounds
      → (nitems == 0) ≡ false
      → NoReply (levels_loop setting vtable rounds node level type nitems para item_ptr w)
  unfolding levels_loop
  levels_loop-NoReply zero level node type n item_ptr w at above some' ne = absurd (omega arith)
  levels_loop-NoReply (suc rounds) level node type n item_ptr w at above some' ne =
      let shift = entity_shift level type in
      elim (Bool-cases ((n >>> level_shift setting type level para) == 0)) [
        | inr e ↦ rw e (
            NoReply-keep
              (level_loop setting vtable setting.fuel node level type
                (n >>> level_shift setting type level para) para item_ptr w)
              _
              (level_loop-NoReply setting.fuel node level type
                (n >>> level_shift setting type level para) item_ptr w e))
        | inl e ↦
            let e1 = rw shift at e in
            let more : level < 3 = entity_more rounds level n at ne e1 in
            rw (e, shift, left_lem level n above more e1)
              (levels_loop-NoReply rounds (level + 1) node type n item_ptr w (omega arith)
                (omega arith) (omega arith) ne)
      ]

  -- A request for an entity never succeeds: with any fuel, the loop of `find_group` over the blocks of a
  -- level takes a block and asks for the same one again, until a dispatch fails. The request is for
  -- at least one item and starts at level 0.
  pub find_group-NoReply :
      (nitems type dim : ℕ) (w : World)
      → nitems ≢ 0
      → NoReply (find_group setting vtable nitems type 0 4 para dim w)
  unfolding find_group
  find_group-NoReply nitems type dim w some' =
      NoReply-follow (serving_node setting type dim para w) _ (λ node w1.
        let start : (if para.is_entry then 0 + 1 else 0) ≡ 1 = rw entity refl in
        rw start (
          levels_loop-NoReply 3 1 node type nitems null w1 refl (omega arith) (omega arith)
            (ground arith)))
