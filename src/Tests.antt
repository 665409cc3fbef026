-- ===== src/Tests.antt =====
-- The theorems at concrete inputs.
use new_explorer_aios.Prelude.{
  ℕ, ◌+◌, ◌-◌, ◌*◌, ◌%◌, ◌^◌, ◌≤◌, ◌<◌, ◌≡◌, ◌≢◌, refl, arith, Bool, true, false, [], ◌∷◌, ◌==◌,
  if◌then◌else◌, ltb, some, Bool-cases, inl, inr, eq_of_==, sym, ◌∙◌,
}
use new_explorer_aios.Bits.Word.{word_mod}
use new_explorer_aios.Struct.Item.{ItemStruct}
use new_explorer_aios.Macros.{gr}
use new_explorer_aios.Macros.Laws.{Fits}
use new_explorer_aios.Flags.Agree.{Writes, writes_lem}
use new_explorer_aios.Links.{list_add_head, list_add_tail, list_delete, list_del, list_search}
use new_explorer_aios.Links.Memory.{Ptr, Memory, done}
use new_explorer_aios.Links.Chain.{Ring}
use new_explorer_aios.Links.Insert.{list_add_head-Ring, list_add_tail-Ring}
use new_explorer_aios.Links.Remove.{Removed, list_delete-Ring, list_del-Ring}
use new_explorer_aios.Links.Walk.{list_search_lem}
use new_explorer_aios.Convert.{item_to_order, range_to_idx, next_buddy_idx, idx_to_rel_idx}
use new_explorer_aios.Convert.Buddy.{IsBuddy, next_buddy_idx-IsBuddy}
use new_explorer_aios.Convert.Orders.{item_to_order_lem}
use new_explorer_aios.Flags.{get_item_node, get_item_state}
use new_explorer_aios.Request.State.{set_group_item_state}
use new_explorer_aios.Request.State.Back.{set_group_item_state-migration}
use new_explorer_aios.Locate.{Arrays, idx_to_item, item_to_idx}
use new_explorer_aios.Locate.Items.{idx_to_item-item_to_idx}
use new_explorer_aios.Request.{Class, item_state_to_migration}
use new_explorer_aios.Struct.Sizes
use new_explorer_aios.Struct.Node.{GroupAttr}
use new_explorer_aios.Group.Sample.{no_attr}
use new_explorer_aios.Init.{init_node_id, init_linear_space}
use new_explorer_aios.Init.Numbers.{idx_to_rel_idx-init_node_id}
use new_explorer_aios.Init.Space.{init_linear_space_lem}
use new_explorer_aios.Types.{round_up, store, fls}
use new_explorer_aios.Types.Clz.{fls_lem}
use new_explorer_aios.Types.CountZeros.{count_zeros, count_zeros-IsClz}

-- A head at 10 with the nodes 20 and 30, and the head 40 of an empty list.
abbrev pub two_nodes : Memory
two_nodes = record {
  next = λ p. if p == 10 then 20 else if p == 20 then 30 else if p == 30 then 10 else 40;
  prev = λ p. if p == 10 then 30 else if p == 30 then 20 else if p == 20 then 10 else 40;
}

pub two_nodes-Ring : Ring two_nodes 10 (20 ∷ 30 ∷ [])
two_nodes-Ring = record {
  chain = (refl, refl, (refl, refl, (refl, refl)));
  distinct = (refl, (refl, (refl, tt)));
  no_null = refl;
}

empty-Ring : Ring two_nodes 40 []
empty-Ring = record { chain = (refl, refl); distinct = (refl, tt); no_null = refl }

list_add_tail-Ring_example :
    (m' : Memory) × (list_add_tail 10 50 two_nodes ≡ done tt m') × Ring m' 10 (20 ∷ 30 ∷ 50 ∷ [])
list_add_tail-Ring_example =
    list_add_tail-Ring two_nodes 10 50 (20 ∷ 30 ∷ []) two_nodes-Ring refl
      (λ e. absurd (omega arith))

list_add_head-Ring_example :
    (m' : Memory) × (list_add_head 10 50 two_nodes ≡ done tt m') × Ring m' 10 (50 ∷ 20 ∷ 30 ∷ [])
list_add_head-Ring_example =
    list_add_head-Ring two_nodes 10 50 (20 ∷ 30 ∷ []) two_nodes-Ring refl
      (λ e. absurd (omega arith))

list_delete-Ring_example :
    (m' : Memory) × (list_delete 20 two_nodes ≡ done tt m')
    × Removed two_nodes 10 [] 20 (30 ∷ []) two_nodes-Ring m'
list_delete-Ring_example = list_delete-Ring two_nodes 10 [] 20 (30 ∷ []) two_nodes-Ring

list_del-Ring_example :
    (m' : Memory) × (list_del 20 two_nodes ≡ done tt m')
    × Removed two_nodes 10 [] 20 (30 ∷ []) two_nodes-Ring m'
list_del-Ring_example = list_del-Ring two_nodes 10 [] 20 (30 ∷ []) two_nodes-Ring

abbrev beyond_25 : Ptr → Bool
beyond_25 p = ltb 25 p

list_search_lem_example : list_search beyond_25 4 10 two_nodes ≡ done 30 two_nodes
list_search_lem_example =
    list_search_lem two_nodes 10 beyond_25 (20 ∷ 30 ∷ []) two_nodes-Ring 4 (omega arith)

next_buddy_idx-IsBuddy_example : IsBuddy 8 1 (next_buddy_idx 8 1)
next_buddy_idx-IsBuddy_example = next_buddy_idx-IsBuddy 8 1 (omega arith) refl

-- An item with every flag set.
abbrev full_item : ItemStruct
full_item = record {
  node_prev = 0;
  node_next = 0;
  flags = word_mod - 1;
  word1_0 = 0;
  word1_1 = 0;
  slice_ref = 0;
  word2_0 = 0;
  word2_1 = 0;
  word2_2 = 0;
}

writes_lem_example : Writes full_item 21
writes_lem_example = writes_lem full_item 21 (omega arith)

nibble-Fits : Fits 57 4 3
nibble-Fits = record { width = refl; small = omega arith }

item_to_order_lem_example :
    (100 ≤ 2 ^ (item_to_order count_zeros 100).0)
    × (2 ^ (item_to_order count_zeros 100).0 < 2 * 100)
    × ((item_to_order count_zeros 100).1 ≡ 0)
item_to_order_lem_example =
    item_to_order_lem count_zeros-IsClz 100 (λ e. absurd (omega arith)) (omega arith)

fls_lem_example :
    (n : ℕ) × (fls count_zeros 40 ≡ n + 1) × (n < 64) × (2 ^ n ≤ 40) × (40 < 2 ^ (n + 1))
fls_lem_example = fls_lem count_zeros-IsClz 40 (λ e. absurd (omega arith)) (omega arith)

abbrev no_class : Class
no_class = record {
  migration_type = 7;
  is_combined = true;
  is_virtual = true;
  is_stream = true;
  is_entry = true;
}

-- A node of 100 items, the first that is set up for dimension 1.
abbrev no_attrs : ℕ → GroupAttr
no_attrs n = no_attr

abbrev first_attr : ℕ → GroupAttr
first_attr n = if n == 65536 then record no_attr { size = 409600 } else no_attr

first_number : init_node_id 1 0 ≡ 65536
unfolding init_node_id
first_number = refl

first_other : (n : ℕ) → ((j : ℕ) → j < 16 → n ≢ init_node_id 1 j) → first_attr n ≡ no_attrs n
first_other n other = elim (Bool-cases (n == 65536)) [
  | inl e ↦ absurd (other 0 (omega arith) (eq_of_== n 65536 e ∙ sym first_number))
  | inr e ↦ rw e refl
]

idx_to_rel_idx-init_node_id_example : idx_to_rel_idx first_attr 5 1 ≡ idx_to_rel_idx no_attrs 5 1
idx_to_rel_idx-init_node_id_example =
    idx_to_rel_idx-init_node_id first_attr no_attrs 5 1 (omega arith) (omega arith) first_other

abbrev at_100 : ℕ → ℕ
at_100 node_id = 100

space_at_100 : (init_linear_space 0 50 at_100).0 ≡ 104
unfolding init_linear_space round_up store
space_at_100 = refl

init_linear_space_lem_example :
    ((init_linear_space 0 50 at_100).0 % 8 ≡ 0)
    × (100 ≤ (init_linear_space 0 50 at_100).0)
    × ((init_linear_space 0 50 at_100).0 + 50 ≤ (init_linear_space 0 50 at_100).1 0)
    × ((init_linear_space 0 50 at_100).1 0 < Sizes.node_reserved_range_size)
init_linear_space_lem_example =
    init_linear_space_lem 0 50 at_100 (omega arith) (omega arith) (λ e. omega (arith, space_at_100))

-- One node of the memory dimension, with the number 16, and its items from 4096 on.
abbrev one_node : Arrays
one_node = record {
  phy_node_struct = 0;
  node_bytes = 512;
  phy_group_struct = 0;
  group_bytes = 256;
  attr = λ node. record {
    dim = 1;
    offset = if node == 16 then 0x8000_0000 else 0;
    size = if node == 16 then 0x4000_0000 else 0;
    status = 0;
    nr_freeitems = 0;
  };
  phy_item_struct = λ node. 4096;
}

abbrev items_of_16 : Ptr → ItemStruct
items_of_16 p = record full_item { flags = 262144 }

place_of_5 : idx_to_rel_idx one_node.attr 0x8_0005 1 ≡ some (5, 16)
unfolding idx_to_rel_idx range_to_idx
place_of_5 = refl

mark_of_5 : get_item_node (items_of_16 (idx_to_item one_node 0x8_0005 1)) ≡ 16
unfolding get_item_node gr
mark_of_5 = refl

idx_to_item-item_to_idx_example :
    item_to_idx one_node items_of_16 (idx_to_item one_node 0x8_0005 1) ≡ 0x8_0005
idx_to_item-item_to_idx_example =
    idx_to_item-item_to_idx one_node items_of_16 0x8_0005 1 5 16 (omega arith) place_of_5
      (omega arith) mark_of_5

set_group_item_state-migration_example :
    item_state_to_migration 11
      (get_item_state (set_group_item_state full_item 1 false false false false))
    ≡ some 0
set_group_item_state-migration_example =
    set_group_item_state-migration 11 full_item 1 false false false false (omega arith)
      (λ e. absurd (omega arith)) (λ e. absurd (omega arith)) (λ e. absurd (omega arith))

-- An item of which the blocks 0 and 3 are in use.
abbrev used_item : ItemStruct
used_item = record full_item { word1_1 = 1; slice_ref = 9 }
