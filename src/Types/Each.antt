-- ===== src/Types/Each.antt =====
-- `for_each_set_bit`, `for_each_set_bit_from`, `for_each_clear_bit` and `for_each_clear_bit_from`.
-- The bitmap is a part of what the body works on. `none` is a loop that the fuel did not finish.
use new_explorer_aios.Prelude.{ℕ, zero, suc, ◌+◌, Option, none, some, ltb, if◌then◌else◌}
use new_explorer_aios.Types.{
  Bitmap, find_first_bit, find_next_bit, find_first_zero_bit, find_next_zero_bit,
}

module _ {S : Type 0} (addr : S → Bitmap) (body : ℕ → S → S) where
  -- The loop from `nr`, with the function for the next one.
  unfoldable pub each_bit_loop : (Bitmap → ℕ → ℕ → ℕ) → ℕ → (size nr : ℕ) → S → Option S
  each_bit_loop next zero size nr s = none
  each_bit_loop next (suc fuel) size nr s =
      let s' = body nr s in
      let rest = each_bit_loop next fuel size (next (addr s') size (nr + 1)) s' in
      if ltb nr size then rest else some s

  unfoldable pub for_each_set_bit : ℕ → (size : ℕ) → S → Option S
  unfolding each_bit_loop find_next_bit find_first_bit
  for_each_set_bit fuel size s =
      each_bit_loop find_next_bit fuel size (find_first_bit (addr s) size) s

  unfoldable pub for_each_set_bit_from : ℕ → (size nr : ℕ) → S → Option S
  unfolding each_bit_loop find_next_bit
  for_each_set_bit_from fuel size nr s =
      each_bit_loop find_next_bit fuel size (find_next_bit (addr s) size nr) s

  unfoldable pub for_each_clear_bit : ℕ → (size : ℕ) → S → Option S
  unfolding each_bit_loop find_next_zero_bit find_first_zero_bit
  for_each_clear_bit fuel size s =
      each_bit_loop find_next_zero_bit fuel size (find_first_zero_bit (addr s) size) s

  unfoldable pub for_each_clear_bit_from : ℕ → (size nr : ℕ) → S → Option S
  unfolding each_bit_loop find_next_zero_bit
  for_each_clear_bit_from fuel size nr s =
      each_bit_loop find_next_zero_bit fuel size (find_next_zero_bit (addr s) size nr) s
