-- ===== src/Request/State/Back.antt =====
-- The migration type that is read back from the state of an item.
use new_explorer_aios.Prelude.{
  ℕ, ◌%◌, ◌≡◌, ◌≢◌, Bool, ◌||◌, ◌&&◌, none, some, arith, ◌==◌, if◌then◌else◌,
}
use new_explorer_aios.Struct.Enums
use new_explorer_aios.Struct.Item.{ItemStruct}
use new_explorer_aios.Macros.Laws.{Fits, gr-mr}
use new_explorer_aios.Flags.{set_item_state, get_item_state}
use new_explorer_aios.Flags.View.{IsWord}
use new_explorer_aios.Request.{item_state_to_migration}
use new_explorer_aios.Request.State.{set_group_item_state}

state-Fits : Fits 55 5 4
state-Fits = omega arith

get-set_item_state :
    (item : ItemStruct) (v : ℕ) → IsWord item → get_item_state (set_item_state item v) ≡ v % 16
unfolding get_item_state set_item_state
get-set_item_state item v h = gr-mr state-Fits item.flags h v

-- Whatever migration type an item was handed out with, the state that `set_group_item_state` gives
-- it leads back to the movable type, or to none for a stream and for an entry of type 0. The flags
-- of the item are a word, and the state that the source does not declare is none of the three that
-- these get.
pub set_group_item_state-migration :
    (sparse_stream : ℕ) (item : ItemStruct) (migration_type : ℕ)
    (is_combined is_virtual is_stream is_entry : Bool)
    → IsWord item
    → sparse_stream ≢ Enums.state_item_sparse_prior
    → sparse_stream ≢ Enums.state_item_sparse_virtual_stream
    → sparse_stream ≢ Enums.state_item_sparse_physical_stream
    → item_state_to_migration sparse_stream (
        get_item_state
          (set_group_item_state item migration_type is_combined is_virtual is_stream is_entry))
      ≡ (if is_stream || (migration_type == 0 && is_entry)
          then none
          else some Enums.migration_movable)
unfolding set_group_item_state item_state_to_migration
set_group_item_state-migration s item type c v st e h n5 n6 n7 =
    rw (get-set_item_state item _ h) (ground arith)
