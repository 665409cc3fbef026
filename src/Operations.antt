-- ===== src/Operations.antt =====
-- The table of operations of a node, `g_node_vtbl` of source/tensor.c, less those that print or set up.
-- Its operations call each other through it: a dispatch migrates and lends, and the search for a
-- sparse item takes its tables by `slice_alloc`, which allocates an item of the node and so may dispatch
-- again. `depth` bounds the calls within calls. A call beyond it does not end; that some depth is enough
-- is not said.
use new_explorer_aios.Prelude.{ℕ, zero, suc, Bool, true, false, Option}
use new_explorer_aios.Struct.Node.{InParas}
use new_explorer_aios.Request.{Class}
use new_explorer_aios.Links.Memory.{Ptr, null}
use new_explorer_aios.Group.World.{Outcome, returns, faults, exhausted}
use new_explorer_aios.Node.Replies.{Reply, reply, error, Fallible, too_deep}
use new_explorer_aios.Node.Shared.{Setting, Vtable}
use new_explorer_aios.Node.{dispatch_group, migrate_group, lend_group}
use new_explorer_aios.Node.Alloc.{node_struct_alloc, node_struct_free}
use new_explorer_aios.Node.Alloc.Kept.{with_sparse}
use new_explorer_aios.Sparse.{Tables}
use new_explorer_aios.Sparse.Stream.{Places}
use new_explorer_aios.Heap.{heap_alloc, heap_free}

-- What the callers of the table find in it.
pub record NodeVtable : Type 0 where
  pub calls : Vtable
  pub alloc : (node : Ptr) → (nitems flags : ℕ) → Option InParas → Fallible ℕ
  pub free : (range_base : ℕ) → Bool → (dim : ℕ) → Fallible (Unit {0})
  pub slice_alloc : (slice : Ptr) → Fallible ℕ
  pub slice_free : (range_base : ℕ) → Fallible (Unit {0})

-- How the tables of sparse items read a status: a slice that is not given is NULL, one that is not
-- taken back is `false`.
abbrev pub slice_or_null : Outcome (Reply ℕ) → Outcome Ptr
slice_or_null (returns (reply range_base) w) = returns range_base w
slice_or_null (returns (error e) w) = returns null w
slice_or_null faults = faults
slice_or_null exhausted = exhausted

abbrev pub slice_taken : Outcome (Reply (Unit {0})) → Outcome Bool
slice_taken (returns (reply u) w) = returns true w
slice_taken (returns (error e) w) = returns false w
slice_taken faults = faults
slice_taken exhausted = exhausted

-- `before` is what the variables of a request hold before anything is stored in them, and `places`
-- has the addresses of the nodes by their numbers. Of `setting` and `tables` all is kept but the
-- operations on sparse items and on slices, which are those of the table.
module _ (before : Class) (node_id : Ptr → ℕ) (tables : Tables) (places : Places)
    (setting : Setting) where
  abbrev pub no_operations : NodeVtable
  no_operations = record {
    calls = record {
      dispatch = λ node old lvl migration_type order para. too_deep;
      migrate = λ node order lvl migration_type is_combined. too_deep;
      lend = λ migration_type lvl lvl_order is_combined. too_deep;
    };
    alloc = λ node nitems flags paras. too_deep;
    free = λ range_base is_virtual dim. too_deep;
    slice_alloc = λ slice. too_deep;
    slice_free = λ range_base. too_deep;
  }

  -- The tables of sparse items take and give back their slices through the table of operations.
  abbrev pub tied_tables : NodeVtable → Tables
  tied_tables v = record tables {
    slice_alloc = λ slice w. slice_or_null (v.slice_alloc slice w);
    slice_free = λ range_base w. slice_taken (v.slice_free range_base w);
  }

  abbrev pub tied : NodeVtable → Setting
  tied v = with_sparse node_id (tied_tables v) places setting

  -- The operations, with those that they call through the table.
  unfoldable pub operations_over : NodeVtable → NodeVtable
  unfolding dispatch_group migrate_group lend_group node_struct_alloc node_struct_free heap_alloc
      heap_free
  operations_over inner =
      let s = tied inner in
      let calls = inner.calls in
      record {
        calls = record {
          dispatch = dispatch_group s calls;
          migrate = migrate_group s calls;
          lend = lend_group s calls;
        };
        alloc = node_struct_alloc s calls before;
        free = node_struct_free s;
        slice_alloc = heap_alloc s calls before;
        slice_free = heap_free s;
      }

  unfoldable pub operations : (depth : ℕ) → NodeVtable
  unfolding operations_over
  operations zero = no_operations
  operations (suc depth) = operations_over (operations depth)
