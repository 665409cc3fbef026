-- ===== src/Bits/Digit.antt =====
-- Each native bit operation, by its lowest binary digit.
use Prim.Native.Nat.{digits, bitwise, differ, bit_and-bitwise, bit_or-bitwise, bit_xor-bitwise}
use native.Mathlib.Nat.{le_refl}
use new_explorer_aios.Prelude.{
  ℕ, zero, suc, ◌+◌, ◌*◌, ◌/◌, ◌%◌, ◌≤◌, min, max, bit_and, bit_or, bit_xor, ◌≡◌, refl, ap, arith,
}

-- `op` acts on the binary digits one by one, as `d` does on single digits.
pub record IsDigitwise (op d : ℕ → ℕ → ℕ) : Type 0 where
  pub at_zero : op 0 0 ≡ 0
  pub step : (a b : ℕ) → op a b ≡ op (a / 2) (b / 2) * 2 + d (a % 2) (b % 2)

module _ (z : ℕ → ℕ) (d : ℕ → ℕ → ℕ) where
  -- Any two supplies of fuel that cover the first number give one result.
  any_fuel :
      (a b fuel fuel' : ℕ) → a ≤ fuel → a ≤ fuel' → digits z d fuel a b ≡ digits z d fuel' a b
  any_fuel a b zero zero p q = refl
  any_fuel zero b zero (suc m) p q = refl
  any_fuel (suc a) b zero (suc m) p q = absurd (omega arith)
  any_fuel zero b (suc n) zero p q = refl
  any_fuel (suc a) b (suc n) zero p q = absurd (omega arith)
  any_fuel zero b (suc n) (suc m) p q = refl
  any_fuel (suc a) b (suc n) (suc m) p q =
      ap (λ (t : ℕ). t * 2 + d (suc a % 2) (b % 2))
        (any_fuel (suc a / 2) (b / 2) n m (omega arith) (omega arith))

  bitwise_step :
      (a b : ℕ)
      → bitwise z d (suc a) b ≡ bitwise z d (suc a / 2) (b / 2) * 2 + d (suc a % 2) (b % 2)
  bitwise_step a b =
      ap (λ (t : ℕ). t * 2 + d (suc a % 2) (b % 2))
        (any_fuel (suc a / 2) (b / 2) a (suc a / 2) (omega arith) (le_refl _))

and_step : (a b : ℕ) → bit_and a b ≡ bit_and (a / 2) (b / 2) * 2 + min (a % 2) (b % 2)
and_step zero b = simp bit_and-bitwise (omega arith)
and_step (suc a) b = simp bit_and-bitwise (bitwise_step (λ y. 0) min a b)

or_step : (a b : ℕ) → bit_or a b ≡ bit_or (a / 2) (b / 2) * 2 + max (a % 2) (b % 2)
or_step zero b = simp bit_or-bitwise (omega arith)
or_step (suc a) b = simp bit_or-bitwise (bitwise_step (λ y. y) max a b)

xor_step_zero : (b r : ℕ) → r ≤ 1 → b * 2 + r ≡ b * 2 + differ 0 r
xor_step_zero b zero h = refl
xor_step_zero b (suc zero) h = refl
xor_step_zero b (suc (suc r)) h = absurd (omega arith)

xor_step : (a b : ℕ) → bit_xor a b ≡ bit_xor (a / 2) (b / 2) * 2 + differ (a % 2) (b % 2)
xor_step zero b = simp bit_xor-bitwise (omega (arith, xor_step_zero (b / 2) (b % 2) (omega arith)))
xor_step (suc a) b = simp bit_xor-bitwise (bitwise_step (λ y. y) differ a b)

pub and-IsDigitwise : IsDigitwise bit_and min
and-IsDigitwise = record { at_zero = refl; step = and_step }

pub or-IsDigitwise : IsDigitwise bit_or max
or-IsDigitwise = record { at_zero = refl; step = or_step }

pub xor-IsDigitwise : IsDigitwise bit_xor differ
xor-IsDigitwise = record { at_zero = refl; step = xor_step }
