-- ===== src/Node/Alloc/Refused.antt =====
-- Requests that `node_struct_alloc` turns down.
use new_explorer_aios.Prelude.{
  ℕ, ◌+◌, ◌*◌, ◌^◌, ◌<◌, ◌≡◌, ◌≢◌, refl, false, ◌||◌, Option, leb, arith, ◌==◌,
}
use new_explorer_aios.Errors.{err_no_memory}
use new_explorer_aios.Struct.Enums
use new_explorer_aios.Struct.Node.{InParas}
use new_explorer_aios.Request.{Class, prepare_node_struct_alloc}
use new_explorer_aios.Links.Memory.{Ptr}
use new_explorer_aios.Group.World.{World, returns}
use new_explorer_aios.Node.Replies.{reply, error}
use new_explorer_aios.Node.Shared.{Setting, Vtable}
use new_explorer_aios.Node.Budget.{
  free_items, remaining_nitem, budget_sufficient, preprocess_node_struct_alloc,
}
use new_explorer_aios.Node.Budget.Sum.{sum_free, budget_sufficient_lem}
use new_explorer_aios.Node.Alloc.{node_struct_alloc, alloc_sufficient}

not_sufficient :
    (setting : Setting) (w : World) (psize dim : ℕ) (class : Class)
    → class.migration_type ≢ 0
    → budget_sufficient setting w psize class.migration_type dim ≡ false
    → alloc_sufficient setting w psize dim class ≡ false
unfolding alloc_sufficient
not_sufficient setting w psize dim class other refused =
    let not_movable : (class.migration_type == 0) ≡ false = ground arith in
    rw (not_movable, refused) refl

-- A request of a type other than the movable one for more items than the nodes of the dimension and
-- what else the type has hold is refused with ERR_NO_MEMORY, and nothing changes. The request
-- passes the tests on its arguments, and none of the numbers has the digit of a sign.
pub node_struct_alloc-refused :
    (setting : Setting) (vtable : Vtable) (before : Class) (node : Ptr)
    (nitems flags psize type dim : ℕ) (paras : Option InParas) (w : World)
    → (w.attr node).dim ≡ dim
    → (prepare_node_struct_alloc nitems flags before).migration_type ≡ type
    → type ≢ Enums.migration_movable
    → nitems ≢ 0
    → preprocess_node_struct_alloc setting w flags nitems type dim ≡ reply psize
    → psize < 2 ^ 63
    → remaining_nitem setting w type dim < 2 ^ 63
    → ((n : ℕ) → free_items setting w n < 2 ^ 63)
    → sum_free setting w 16 (dim * 16) + remaining_nitem setting w type dim < psize
    → node_struct_alloc setting vtable before node nitems flags paras w
      ≡ returns (error err_no_memory) w
unfolding node_struct_alloc
node_struct_alloc-refused setting vtable before node nitems flags psize type dim paras w at class
      other some' size small rest free short =
    let verdict = budget_sufficient_lem setting w psize type dim small rest free in
    let refused : budget_sufficient setting w psize type dim ≡ false = ground (arith, verdict) in
    let not_zero : (nitems == 0) ≡ false = ground arith in
    let fits : (psize == 0 || leb (2 ^ 63) psize) ≡ false = ground arith in
    let passed : preprocess_node_struct_alloc setting w flags nitems
          (prepare_node_struct_alloc nitems flags before).migration_type (w.attr node).dim
        ≡ reply psize =
      rw (class, at) size in
    let watermark =
      not_sufficient setting w psize dim (prepare_node_struct_alloc nitems flags before)
        (rw class other) (rw class refused) in
    let watermark1 : alloc_sufficient setting w psize (w.attr node).dim
          (prepare_node_struct_alloc nitems flags before)
        ≡ false =
      rw at watermark in
    rw (not_zero, passed, fits, watermark1) refl
