-- ===== src/Convert/Combine.antt =====
-- The index of the block that a block and its buddy make, wherever in its block the index points.
use new_explorer_aios.Prelude.{
  ℕ, ap, ◌-◌, ◌+◌, ◌*◌, ◌/◌, ◌%◌, ◌^◌, ◌≤◌, ◌<◌, ◌≡◌, ◌⊎◌, ◌∙◌, refl, inl, inr, arith, bit_and,
  bit_xor, leb, Bool-cases, one-le-pow, zero, suc,
}
use new_explorer_aios.Bits.Digit.{xor-IsDigitwise, and-IsDigitwise}
use new_explorer_aios.Bits.Split.{split_at, xor-zero, and_self}
use new_explorer_aios.Bits.Field.{cut, pow-add}
use new_explorer_aios.Macros.Single.{bit-pow}
use new_explorer_aios.Macros.{bit}
use native.Mathlib.Nat.{mod-lt, one-mul, mul-mod_left}
use new_explorer_aios.Convert.{next_buddy_idx}

-- An index by its block, the block's place in the pair, and the rest.
abbrev place : ℕ → ℕ → ℕ → ℕ → ℕ
place order p f r = (p * 2 + f) * 2 ^ order + r

abbrev flip : ℕ → ℕ
flip zero = 1
flip (suc f) = 0

flip_low : (f : ℕ) → flip f < 2
flip_low zero = omega arith
flip_low (suc f) = omega arith

one_digit : (p f : ℕ) → f < 2 → bit_xor (p * 2 + f) 1 ≡ p * 2 + flip f
one_digit p f bin =
    rw
      (
        split_at xor-IsDigitwise 1 p 0 f 1 {a = p * 2 + f} {b = 1} refl refl bin (omega arith),
        xor-zero p,
        flip_xor f bin,
      )
      refl
  where
    flip_xor : (f : ℕ) → f < 2 → bit_xor f 1 ≡ flip f
    flip_xor zero h = refl
    flip_xor (suc zero) h = refl
    flip_xor (suc (suc f)) h = absurd (omega arith)

buddy_place :
    (order p f r : ℕ)
    → f < 2
    → r < 2 ^ order
    → bit_xor (place order p f r) (2 ^ order) ≡ place order p (flip f) r
buddy_place order p f r bin low =
    split_at xor-IsDigitwise order (p * 2 + f) 1 r 0 refl (omega arith) low
      (one-le-pow order 2 (omega arith))
    ∙ rw (one_digit p f bin, xor-zero r) refl

both_places :
    (order p f r : ℕ)
    → f < 2
    → r < 2 ^ order
    → bit_and (place order p (flip f) r) (place order p f r) ≡ place order p 0 r
both_places order p f r bin low =
    split_at and-IsDigitwise order (p * 2 + flip f) (p * 2 + f) r r refl refl low low
    ∙ rw
        (
          split_at and-IsDigitwise 1 p p (flip f) f {a = p * 2 + flip f} {b = p * 2 + f} refl refl
              (flip_low f) bin,
          and_self p,
          and_self r,
          no_digit f bin,
        )
        refl
  where
    no_digit : (f : ℕ) → f < 2 → bit_and (flip f) f ≡ 0
    no_digit zero h = refl
    no_digit (suc zero) h = refl
    no_digit (suc (suc f)) h = absurd (omega arith)

abbrev Either : ℕ → ℕ → Type 0
Either idx buddy = (bit_and buddy idx ≡ idx) ⊎ (bit_and buddy idx ≡ buddy)

place-Either :
    (order p f r : ℕ)
    → f < 2
    → r < 2 ^ order
    → Either (place order p f r) (place order p (flip f) r)
place-Either order p zero r bin low = inl (both_places order p 0 r bin low)
place-Either order p (suc zero) r bin low = inr (both_places order p 1 r bin low)
place-Either order p (suc (suc f)) r bin low = absurd (omega arith)

no_bit : (order : ℕ) → 64 ≤ order → bit order ≡ 0
unfolding bit
no_bit order h =
    let high : order ≡ order - 64 + 64 = omega arith in
    let split : 2 ^ order ≡ 2 ^ (order - 64) * 2 ^ 64 =
      ap (λ (t : ℕ). 2 ^ t) high ∙ pow-add (order - 64) 64 in
    rw (one-mul (2 ^ order), split) (mul-mod_left (2 ^ (order - 64)) (2 ^ 64))

-- The index that a block and its buddy share is that of the one or of the other, for every index and
-- order. An order of 64 or more has no buddy.
pub combined_idx_cases : (idx order : ℕ) → Either idx (next_buddy_idx idx order)
unfolding next_buddy_idx
combined_idx_cases idx order = elim (Bool-cases (leb 64 order)) [
  | inl large ↦ rw (no_bit order (ground arith), xor-zero idx) (inl (and_self idx))
  | inr small ↦
      rw (bit-pow order (ground arith), as_place, buddy_place order p f r (omega arith) low)
        (place-Either order p f r (omega arith) low)
]
  where
    p : ℕ
    p = idx / 2 ^ order / 2

    f : ℕ
    f = idx / 2 ^ order % 2

    r : ℕ
    r = idx % 2 ^ order

    low : r < 2 ^ order
    low = mod-lt idx (one-le-pow order 2 (omega arith))

    as_place : idx ≡ place order p f r
    as_place = let pair : p * 2 + f ≡ idx / 2 ^ order = omega arith in rw pair (cut idx order)
