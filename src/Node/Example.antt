-- ===== src/Node/Example.antt =====
-- The operations of a node at a concrete one, which stands at address 0 and has no free items.
use new_explorer_aios.Prelude.{ℕ, ◌+◌, ◌≡◌, refl, true, false, none, List, leb, arith}
use new_explorer_aios.Errors.{err_invalid_args, err_no_memory}
use new_explorer_aios.Types.{fls, fls_word}
use new_explorer_aios.Types.CountZeros.{count_zeros, count_zeros-IsClz}
use new_explorer_aios.Struct.Node.{AllocPara, InParas}
use new_explorer_aios.Request.{Class, prepare_node_struct_alloc}
use new_explorer_aios.Group.World.{World, returns, give}
use new_explorer_aios.Group.Sample.{cells, no_attr, no_item, empty_world, missing}
use new_explorer_aios.Node.Replies.{reply, error}
use new_explorer_aios.Node.Shared.{Setting, Vtable, para_of}
use new_explorer_aios.Node.{dispatch_group, forward_remove, repeating_dispatch}
use new_explorer_aios.Operations.{operations}
use new_explorer_aios.Node.Failures.{dispatch_group-movable}
use new_explorer_aios.Node.Post.{postprocess_node_struct, postprocess_node_struct-agree}
use new_explorer_aios.Node.Blocks.{items_in, Falling, serve, repeating_dispatch-serve}
use new_explorer_aios.Node.Budget.{
  free_items, remaining_nitem, budget_sufficient, preprocess_node_struct_alloc,
}
use new_explorer_aios.Node.Budget.Sum.{sum_free, budget_sufficient_lem}
use new_explorer_aios.Node.Alloc.{node_struct_alloc}
use new_explorer_aios.Sparse.{Tables}
use new_explorer_aios.Sparse.Stream.{Places}
use new_explorer_aios.Group.Free.Merge.{IsFree}
use new_explorer_aios.Struct.Enums
use new_explorer_aios.Node.Alloc.Refused.{node_struct_alloc-refused}
use new_explorer_aios.Node.Find.{find_group}
use new_explorer_aios.Node.Find.Entity.{NoReply, find_group-NoReply}

abbrev pub setting : Setting
setting = record {
  layout = cells;
  missing = missing;
  sparse = record {
    forward_remove_group_stream = λ migration_type order lvl dim para. give 0;
    forward_remove_group_prior = λ lvl migration_type order node. give 0;
    forward_remove_group_sparse = λ lvl migration_type order dim is_virtual. give 0;
    dequeue_group_sparse = λ item migration_type. give tt;
  };
  clzl = count_zeros;
  unset = 0;
  fuel = 10;
  minload_cell = λ t. 300;
  no_vnode = 0;
}

abbrev pub fresh_class : Class
fresh_class = record {
  migration_type = 0;
  is_combined = false;
  is_virtual = false;
  is_stream = false;
  is_entry = false;
}

abbrev no_tables : Tables
no_tables = record {
  slice_alloc = λ slice. give 0;
  slice_free = λ r. give false;
  item_slice = λ node. 0;
  group_node = λ group. 0;
  vgroup_lvl = λ lvl nu. lvl;
}

abbrev places : Places
places = record {
  current_vnode = λ dim. 0;
  current_node = λ dim. 0;
  vnode = λ dim. 0;
  pnode = λ dim. 0;
  entity_node = 0;
  entity_group = λ lvl. lvl;
}

-- The operations that a node calls through its table.
abbrev pub node_calls : ℕ → Vtable
node_calls depth = (operations fresh_class (λ p. 0) no_tables places setting depth).calls

nothing_there :
    forward_remove setting 0 3 0 0 (empty_world.attr 0).dim (para_of false) empty_world
    ≡ returns 0 empty_world
unfolding forward_remove
nothing_there = refl

dispatch_group-movable_example :
    dispatch_group setting (node_calls 2) 0 0 3 0 0 (para_of false) empty_world
    ≡ returns (error err_invalid_args) empty_world
dispatch_group-movable_example =
    dispatch_group-movable setting (node_calls 2) 0 0 3 0 (para_of false) empty_world empty_world
      (omega arith) nothing_there

-- Two requests that differ in the delay and the deadline.
abbrev early : InParas
early = record { word0 = 7; word1 = 1; word2 = 2; word3 = 0 }

abbrev late : InParas
late = record { word0 = 7; word1 = 100; word2 = 200; word3 = 0 }

postprocess_node_struct-agree_example :
    postprocess_node_struct 0 early true no_item ≡ postprocess_node_struct 0 late true no_item
postprocess_node_struct-agree_example = postprocess_node_struct-agree 0 early late true no_item refl

repeating_dispatch-serve_example :
    (os : List ℕ) × (items_in os ≡ 100)
    × Falling 64 os
    × (repeating_dispatch setting (node_calls 2) 0 3 0 100 true
        ≡ serve setting (node_calls 2) 0 3 0 os 0)
repeating_dispatch-serve_example =
    repeating_dispatch-serve setting (node_calls 2) 0 3 0 count_zeros-IsClz 100 (omega arith)

no_free : (n : ℕ) → free_items setting empty_world n ≡ 0
unfolding free_items
no_free n = refl

no_sum : sum_free setting empty_world 16 16 ≡ 0
unfolding sum_free free_items
no_sum = refl

no_rest : remaining_nitem setting empty_world 3 1 ≡ 0
unfolding remaining_nitem
no_rest = refl

budget_sufficient_lem_example :
    budget_sufficient setting empty_world 5 3 1
    ≡ leb 5 (sum_free setting empty_world 16 16 + remaining_nitem setting empty_world 3 1)
budget_sufficient_lem_example =
    budget_sufficient_lem setting empty_world 5 3 1 (omega arith) (omega (arith, no_rest))
      (λ n. omega (arith, no_free n))

-- One item for a memory object: an LRU request.
one_item_class : (prepare_node_struct_alloc 1 14 fresh_class).migration_type ≡ 3
unfolding prepare_node_struct_alloc
one_item_class = refl

one_item_size : preprocess_node_struct_alloc setting empty_world 14 1 3 1 ≡ reply 1
unfolding preprocess_node_struct_alloc fls fls_word
one_item_size = refl

node_struct_alloc-refused_example :
    node_struct_alloc setting (node_calls 3) fresh_class 0 1 14 none empty_world
    ≡ returns (error err_no_memory) empty_world
node_struct_alloc-refused_example =
    node_struct_alloc-refused setting (node_calls 3) fresh_class 0 1 14 1 3 1 none empty_world refl
      one_item_class (λ e. omega (arith, e)) (λ e. omega (arith, e)) one_item_size (omega arith)
      (omega (arith, no_rest)) (λ n. omega (arith, no_free n)) (omega (arith, no_sum, no_rest))

abbrev entity_para : AllocPara
entity_para = record (para_of false) { is_entry = true }

find_group-NoReply_example :
    NoReply (find_group setting (node_calls 3) 1 0 0 4 entity_para 0 empty_world)
find_group-NoReply_example =
    find_group-NoReply setting (node_calls 3) entity_para refl 1 0 0 empty_world
      (λ e. omega (arith, e))

-- A node of 256 items from range 0, with nothing in a list.
abbrev one_node : World
one_node = record empty_world {
  links = record { prev = λ p. 0; next = λ p. 0 };
  attr = λ p. record no_attr { size = 1048576 };
}

unlinked : IsFree 10216 one_node
unlinked = record {
  linked = record { after = λ q ok h. absurd (h refl); before = λ q ok h. absurd (h refl) };
  loose = (refl, refl);
  small = omega arith;
}
