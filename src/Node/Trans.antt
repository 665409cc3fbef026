-- ===== src/Node/Trans.antt =====
-- The end of source/tensor.c: the update of an item by an event, `node_struct_paras_update`,
-- `node_struct_paras_gen`, `node_struct_benchmark`, `node_struct_sched` and
-- `node_struct_trans_relat`. The code calls what it does not declare and leaves arguments out; what a call
-- stands for is an entry of `Events`. The locks are left out.
pub mod Failures
pub mod Example
use new_explorer_aios.Prelude.{ℕ, ◌%◌, Option, none, some, not, ◌==◌, if◌then◌else◌}
use new_explorer_aios.Macros.{bit}
use new_explorer_aios.Errors.{err_fault}
use new_explorer_aios.Struct.Item.{ItemStruct}
use new_explorer_aios.Struct.Node.{InParas}
use new_explorer_aios.Flags.{get_item_order, get_item_node}
use new_explorer_aios.Locate.{item_to_range}
use new_explorer_aios.Links.Memory.{Ptr, null}
use new_explorer_aios.Links.{list_peek_head}
use new_explorer_aios.Group.World.{World, faults, on_links, edit}
use new_explorer_aios.Group.Compound.{fetch}
use new_explorer_aios.Group.Remove.{live_arrays}
use new_explorer_aios.Node.Replies.{Reply, Fallible, succeed, fail, lift, look, handle, ◌>>=◌, ◌>>◌}
use new_explorer_aios.Node.Shared.{Setting}

-- `sched` and `map` are entries of `struct node_struct_vtable` that `g_node_vtbl` leaves NULL; `alloc` is
-- the allocation with FUNC_TRANS, by node and size, `free` that of a range; `sched` gives what it leaves
-- in its input and in its output; `put_item` is `put_pitem_struct`, `item_of` is `range_to_item` of a range alone, and `node_map` leads to the list
-- of a node in its node map. `benchmark` is `para_benchmark`.
pub record Events : Type 0 where
  pub sched : Option (Ptr → InParas → Fallible (InParas × InParas))
  pub map : Option (Ptr → ℕ → Fallible ℕ)
  pub alloc : Ptr → ℕ → Fallible ℕ
  pub free : ℕ → Fallible (Unit {0})
  pub put_item : Ptr → Ptr → Ptr → InParas → Fallible (Unit {0})
  pub item_of : ℕ → Ptr
  pub node_map : Ptr → Ptr
  pub benchmark : ℕ → InParas

-- A call through a pointer to a function.
abbrev pub call_through : {A : Type 0} → Option A → {B : Type 0} → (A → Fallible B) → Fallible B
call_through none call = λ w. faults
call_through (some f) call = call f

-- A remainder, where the divisor is not 0.
unfoldable pub rest_of : ℕ → ℕ → Fallible ℕ
rest_of x y = if y == 0 then (λ w. faults) else succeed (x % y)

module _ (setting : Setting) (events : Events) where
  -- `node_struct_benchmark`, over the four words of the parameters.
  unfoldable pub node_struct_benchmark : (dim_type : ℕ) → InParas → Fallible InParas
  unfolding rest_of
  node_struct_benchmark dim_type paras = do
    word0 ← rest_of paras.word0 (events.benchmark dim_type).word0
    word1 ← rest_of paras.word1 (events.benchmark dim_type).word1
    word2 ← rest_of paras.word2 (events.benchmark dim_type).word2
    word3 ← rest_of paras.word3 (events.benchmark dim_type).word3
    succeed (record { word0 = word0; word1 = word1; word2 = word2; word3 = word3 })

  -- `node_struct_sched`: the parameters, normalised in place, and the parameters of the schedule.
  unfoldable pub node_struct_sched : (self : Ptr) → InParas → Fallible (InParas × InParas)
  unfolding node_struct_benchmark
  node_struct_sched self paras = do
    dim ← look (λ w. (w.attr self).dim)
    normal ← node_struct_benchmark dim paras
    call_through events.sched (λ sched. sched self normal)

  -- `node_struct_paras_update`, with the output item of another size freed. An update of the item in place
  -- ends at the label of the failures.
  unfoldable pub node_struct_paras_update : (self item : Ptr) → InParas → Fallible (Unit {0})
  unfolding fetch live_arrays bit
  node_struct_paras_update self item paras =
      let resized = λ (output : Ptr). (do
        range ← look (λ w. item_to_range (live_arrays setting.layout w) w.item output)
        handle {B = Unit {0}} (events.free range) (λ _. succeed tt) (λ e. fail err_fault)) in
      let updated = λ (output : Ptr).
        handle {B = Unit {0}} (events.put_item item output self paras) (λ _. fail err_fault)
          (λ e. fail err_fault) in
      let mapped = λ (out_idx : ℕ). (do
        o ← lift (fetch (events.item_of out_idx))
        (if not (paras.word3 == bit (get_item_order o))
            then resized (events.item_of out_idx)
            else updated (events.item_of out_idx))) in
      (do
        i ← lift (fetch item)
        in_idx ← look (λ w. item_to_range (live_arrays setting.layout w) w.item item)
        (if i.word2_0 == null
            then succeed tt
            else handle (call_through events.map (λ map. map self in_idx)) mapped
                (λ e. fail err_fault)))

  -- `node_struct_paras_gen`: the output item, with the first item of the node map as the head of the aging
  -- of the item.
  unfoldable pub node_struct_paras_gen : (self item : Ptr) → InParas → Fallible Ptr
  unfolding fetch
  node_struct_paras_gen self item paras =
      handle (events.alloc self paras.word3)
        (λ range_base. (do
          serial_head ← lift (on_links (list_peek_head (events.node_map self)))
          lift (fetch item)
          lift (edit item (λ i. record i { word2_0 = serial_head }))
          succeed (events.item_of range_base)))
        (λ e. fail err_fault)

  -- `node_struct_trans_relat`. The way of a success runs into the labels of the failures.
  unfoldable pub node_struct_trans_relat : (item : Ptr) → InParas → Fallible Ptr
  unfolding node_struct_sched node_struct_paras_update node_struct_paras_gen fetch
  node_struct_trans_relat item paras =
      let generated = λ (node : Ptr) (para : InParas).
        handle {B = Ptr} (node_struct_paras_gen node item para) (λ out. fail err_fault)
          (λ e. fail err_fault) in
      let after = λ (node : Ptr) (left : InParas × InParas).
        handle {B = Ptr} (node_struct_paras_update node item left.0) (λ _. generated node left.1)
          (λ e. fail err_fault) in
      (do
        i ← lift (fetch item)
        let node = setting.layout.vnode_num (get_item_node i)
        handle (node_struct_sched node paras) (after node) (λ e. fail err_fault))
