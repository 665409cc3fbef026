-- ===== src/Init/Space.antt =====
-- The space for the item descriptors of a node.
use new_explorer_aios.Prelude.{ℕ, ◌+◌, ◌-◌, ◌*◌, ◌/◌, ◌%◌, ◌^◌, ◌≤◌, ◌<◌, ◌≡◌, ◌≢◌, ◌∙◌, arith}
use new_explorer_aios.Bits.Word.{word_mod}
use new_explorer_aios.Bits.High.{and_high}
use new_explorer_aios.Types.{round_up, store}
use new_explorer_aios.Struct.Sizes
use new_explorer_aios.Init.{init_linear_space}

-- `ROUND_UP` to a multiple of 8.
pub round_up_lem : (x : ℕ) → x + 7 < word_mod → round_up x 8 ≡ (x + 7) / 8 * 8
unfolding round_up
round_up_lem x h = and_high 61 3 (omega arith) ((x + 8 - 1) % word_mod) (omega arith) ∙ omega arith

-- An allocation that succeeds takes whole multiples of 8 from where the last one ended, below the
-- end of the reserved range, and the next one starts behind it. The spaces of other nodes stay.
pub init_linear_space_lem :
    (node_id len : ℕ) (ptrs : ℕ → ℕ)
    → ptrs node_id < 2 ^ 32
    → len < 2 ^ 32
    → (init_linear_space node_id len ptrs).0 ≢ 0
    → ((init_linear_space node_id len ptrs).0 % 8 ≡ 0)
      × (ptrs node_id ≤ (init_linear_space node_id len ptrs).0)
      × ((init_linear_space node_id len ptrs).0 + len
          ≤ (init_linear_space node_id len ptrs).1 node_id)
      × ((init_linear_space node_id len ptrs).1 node_id < Sizes.node_reserved_range_size)
unfolding init_linear_space store
init_linear_space_lem node_id len ptrs h h' ok =
    ground (arith, round_up_lem (ptrs node_id), round_up_lem len, round_up_lem 0)
