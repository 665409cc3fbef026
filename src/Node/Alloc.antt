-- ===== src/Node/Alloc.antt =====
-- `node_struct_alloc` and `node_struct_free` of source/tensor.c. The locks are taken and given back on every
-- way and are left out; `para->` is read as an access to the structure `para`.
pub mod Refused
pub mod Kept
use new_explorer_aios.Prelude.{
  ℕ, zero, ◌+◌, ◌^◌, Bool, true, false, not, ◌&&◌, ◌||◌, Option, none, some, leb, ◌==◌,
  if◌then◌else◌,
}
use new_explorer_aios.Errors.{err_invalid_args, err_no_memory}
use new_explorer_aios.Struct.Enums
use new_explorer_aios.Struct.Node.{AllocPara, InParas}
use new_explorer_aios.Convert.{range_to_idx}
use new_explorer_aios.Request.{Class, prepare_node_struct_alloc}
use new_explorer_aios.Locate.{item_to_range, range_to_item, idx_to_pnode}
use new_explorer_aios.Locate.Sparse.{item_to_range_sparse, range_to_item_sparse, idx_to_vnode}
use new_explorer_aios.Links.Memory.{Ptr, null}
use new_explorer_aios.Group.World.{World, faults, exhausted}
use new_explorer_aios.Group.Compound.{fetch}
use new_explorer_aios.Group.Remove.{live_arrays}
use new_explorer_aios.Node.Replies.{
  Reply, reply, error, Fallible, succeed, fail, too_deep, lift, ◌>>=◌, ◌>>◌,
}
use new_explorer_aios.Node.Shared.{Setting, Vtable, get_recent_vnode, put_state}
use new_explorer_aios.Node.Find.{compound_group, decompose_group}
use new_explorer_aios.Node.Budget.{budget_sufficient, preprocess_node_struct_alloc}
use new_explorer_aios.Node.Post.{postprocess_node_struct}

module _ (setting : Setting) where
  -- The root of the sparse items of the process in a dimension.
  unfoldable pub process_root : World → ℕ → Ptr
  unfolding get_recent_vnode
  process_root w dim = w.sparse_root (get_recent_vnode setting dim)

  -- `*range_base`. The way up from a sparse item is bounded by fuel.
  unfoldable pub range_of_item : (migration_type dim : ℕ) → Ptr → Fallible ℕ
  unfolding process_root live_arrays fetch
  range_of_item migration_type dim item =
      let sparse : Fallible ℕ = λ w.
        elim (item_to_range_sparse setting.fuel w.item (process_root w dim) item) [
          | none ↦ exhausted
          | some range_base ↦ succeed range_base w
        ] in
      (do
        lift (fetch item)
        (if migration_type == Enums.migration_sparse_movable
            then sparse
            else (λ w. succeed (item_to_range (live_arrays setting.layout w) w.item item) w)))

  -- The parameter block. An entity request without parameters goes through NULL.
  unfoldable pub alloc_para : Class → Option InParas → Fallible AllocPara
  alloc_para class paras =
      let para : AllocPara = record {
        is_combined = class.is_combined;
        is_virtual = class.is_virtual;
        is_stream = class.is_stream;
        is_entry = false;
        max_prior = 0;
        affinity = 0;
      } in
      let entry : Fallible AllocPara = elim paras [
        | none ↦ (λ w. faults)
        | some p ↦
            succeed (record para { is_entry = true; max_prior = p.word1; affinity = p.word2 })
      ] in
      if class.is_entry then entry else succeed para

  unfoldable pub post : (dim : ℕ) → Bool → Option InParas → Ptr → Fallible (Unit {0})
  unfolding put_state
  post dim is_virtual paras item = elim paras [
    | none ↦ succeed tt
    | some p ↦ put_state item (postprocess_node_struct dim p is_virtual)
  ]

  -- The part of `node_struct_alloc` for a request that passed its tests.
  unfoldable pub alloc_items : Vtable → (psize dim : ℕ) → Class → Option InParas → Fallible ℕ
  unfolding compound_group alloc_para range_of_item post
  alloc_items vtable psize dim class paras = do
    para ← alloc_para class paras
    item ← compound_group setting vtable psize class.migration_type para dim
    range_base ← range_of_item class.migration_type dim item
    post dim class.is_virtual paras item
    succeed range_base

  -- The test of the watermark.
  unfoldable pub alloc_sufficient : World → (psize dim : ℕ) → Class → Bool
  alloc_sufficient w psize dim class =
      if class.migration_type == Enums.migration_sparse_movable
      then true
      else budget_sufficient setting w psize class.migration_type dim

  -- `node_struct_alloc`, which returns `*range_base`. `before` is what the five variables of a request hold
  -- before anything is stored in them, and `paras` may be NULL.
  unfoldable pub node_struct_alloc :
      Vtable → Class → (node : Ptr) → (nitems flags : ℕ) → Option InParas → Fallible ℕ
  unfolding alloc_items alloc_sufficient
  node_struct_alloc vtable before node nitems flags paras = λ w.
      let class = prepare_node_struct_alloc nitems flags before in
      let dim = (w.attr node).dim in
      let with_size = λ (psize : ℕ).
        (if psize == 0 || leb (2 ^ 63) psize
          then fail err_invalid_args
          else if alloc_sufficient w psize dim class
          then alloc_items vtable psize dim class paras
          else fail err_no_memory) in
      (if nitems == 0 && not (flags == Enums.func_entity)
          then fail err_invalid_args
          else elim (preprocess_node_struct_alloc setting w flags nitems class.migration_type dim) [
            | error e ↦ fail err_invalid_args
            | reply psize ↦ with_size psize
          ])
        w

  -- The node of a range, NULL where there is none.
  unfoldable pub node_of_range : World → (range_base : ℕ) → Bool → (dim : ℕ) → Ptr
  unfolding process_root live_arrays
  node_of_range w range_base is_virtual dim =
      let arrays = live_arrays setting.layout w in
      if is_virtual
      then elim (idx_to_vnode arrays w.item (process_root w dim) (range_to_idx range_base)) [
        | none ↦ null
        | some nu ↦ setting.layout.vnode_num nu
      ]
      else idx_to_pnode arrays (range_to_idx range_base) dim

  -- `node_struct_free`.
  unfoldable pub node_struct_free : (range_base : ℕ) → Bool → (dim : ℕ) → Fallible (Unit {0})
  unfolding node_of_range decompose_group
  node_struct_free range_base is_virtual dim = λ w.
      let arrays = live_arrays setting.layout w in
      let node = node_of_range w range_base is_virtual dim in
      let item =
        if w.sparse_root node == null
        then range_to_item arrays range_base dim
        else range_to_item_sparse setting.unset arrays w.item (process_root w dim) range_base in
      (if node == null then fail err_invalid_args else decompose_group setting item is_virtual) w
