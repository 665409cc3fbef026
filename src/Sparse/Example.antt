-- ===== src/Sparse/Example.antt =====
-- A search that ends at a table without tables below it: a block of order 3 in level 1, where the only
-- free block has order 2.
use new_explorer_aios.Prelude.{ℕ, ◌≡◌, refl, false, arith, ◌==◌, if◌then◌else◌}
use new_explorer_aios.Macros.{mask, bit}
use new_explorer_aios.Flags.{
  set_item_dim, set_item_freeidx, set_item_section, set_item_node, set_item_order, set_item_present,
}
use new_explorer_aios.Links.Memory.{Ptr, get_next, get_prev, put_next, put_prev, write}
use new_explorer_aios.Links.{list_peek_head, list_del, list_add_head}
use new_explorer_aios.Group.World.{World, Outcome, returns, faults, exhausted, give}
use new_explorer_aios.Group.Table.{table_group}
use new_explorer_aios.Group.Sample.{cells, empty_world}
use new_explorer_aios.Group.Remove.{
  remove_group_migration, remove_loop, entry_loop, take_entry, is_misaligned, is_taken,
  max_order_of,
}
use new_explorer_aios.Group.{
  split_group_migration, split_loop, split2_group_migration, half_size, item_shift_of,
}
use new_explorer_aios.Sparse.{Tables, search_levels, group_of, forward_remove_group_sparse}
use new_explorer_aios.Sparse.Down.{forward_remove_group_sparse-faults}

abbrev tables : Tables
tables = record {
  slice_alloc = λ slice. give 0;
  slice_free = λ r. give false;
  item_slice = λ node. 0;
  group_node = λ group. 0;
  vgroup_lvl = λ lvl nu. lvl;
}

abbrev table_world : World
table_world = record empty_world {
  links = record {
    prev = λ p. if p == 102 then 10000 else if p == 10000 then 102 else p;
    next = λ p. if p == 102 then 10000 else if p == 10000 then 102 else p;
  };
  free_count = λ g t o. if o == 2 then 1 else 0;
}

abbrev world_of : {A : Type 0} → Outcome A → World
world_of (returns a w) = w
world_of faults = empty_world
world_of exhausted = empty_world

abbrev searched : Outcome (Ptr × ℕ)
searched = search_levels cells tables 0 0 0 false 5 2 3 1 table_world

table_found : searched ≡ returns (10000, 0) (world_of searched)
unfolding search_levels group_of table_group remove_group_migration remove_loop entry_loop
    take_entry is_misaligned is_taken max_order_of split_group_migration split_loop
    split2_group_migration half_size item_shift_of list_peek_head list_del list_add_head get_next
    get_prev put_next put_prev write mask bit
table_found = refl

table_leaf : ((world_of searched).item 10000).word1_0 ≡ 0
unfolding search_levels group_of table_group remove_group_migration remove_loop entry_loop
    take_entry is_misaligned is_taken max_order_of split_group_migration split_loop
    split2_group_migration half_size item_shift_of list_peek_head list_del list_add_head get_next
    get_prev put_next put_prev write mask bit set_item_dim set_item_freeidx set_item_section
    set_item_node set_item_order set_item_present
table_leaf = refl

forward_remove_group_sparse-faults_example :
    forward_remove_group_sparse cells tables 0 0 0 false 5 0 1 3 table_world ≡ faults
forward_remove_group_sparse-faults_example =
    forward_remove_group_sparse-faults cells tables 0 0 0 false 4 0 10000 1 3 0 table_world
      (world_of searched) table_found (λ e. omega (arith, e)) (omega arith) table_leaf
