-- ===== src/Convert/Buddy.antt =====
-- The index of a block's buddy.
use native.Mathlib.Nat.{mul-mod_left}
use new_explorer_aios.Prelude.{
  ℕ, zero, suc, ◌+◌, ◌*◌, ◌/◌, ◌%◌, ◌^◌, ◌<◌, ◌≡◌, ◌⊎◌, ◌∙◌, refl, inl, inr, arith, ap, bit_and,
  bit_xor, one-le-pow,
}
use new_explorer_aios.Bits.Digit.{xor-IsDigitwise, and-IsDigitwise}
use new_explorer_aios.Bits.Split.{split_at, xor-zero, and_self}
use new_explorer_aios.Bits.Field.{cut}
use new_explorer_aios.Macros.Single.{bit-pow}
use new_explorer_aios.Convert.Orders.{double}
use new_explorer_aios.Convert.{next_buddy_idx}

-- The digit `f` of a pair, flipped.
abbrev flip : ℕ → ℕ
flip zero = 1
flip (suc f) = 0

flip_xor : (f : ℕ) → f < 2 → bit_xor f 1 ≡ flip f
flip_xor zero h = refl
flip_xor (suc zero) h = refl
flip_xor (suc (suc f)) h = absurd (omega arith)

and-flip : (f : ℕ) → f < 2 → bit_and (flip f) f ≡ 0
and-flip zero h = refl
and-flip (suc zero) h = refl
and-flip (suc (suc f)) h = absurd (omega arith)

flip-flip : (f : ℕ) → f < 2 → (flip (flip f) ≡ f) × (flip f < 2)
flip-flip zero h = (refl, omega arith)
flip-flip (suc zero) h = (refl, omega arith)
flip-flip (suc (suc f)) h = absurd (omega arith)

-- The block at place `f` of the pair `p` of blocks of the order.
abbrev block : ℕ → ℕ → ℕ → ℕ
block order p f = (p * 2 + f) * 2 ^ order + 0

-- The buddy is the other block of the pair.
next_buddy_idx-block :
    (order p f : ℕ)
    → order < 64
    → f < 2
    → next_buddy_idx (block order p f) order ≡ block order p (flip f)
unfolding next_buddy_idx
next_buddy_idx-block order p f small bin = rw (bit-pow order small) (
    split_at xor-IsDigitwise order (p * 2 + f) 1 0 0 refl (omega arith)
      (one-le-pow order 2 (omega arith)) (one-le-pow order 2 (omega arith))
    ∙ rw
        (
          split_at xor-IsDigitwise 1 p 0 f 1 {a = p * 2 + f} {b = 1} refl refl bin (omega arith),
          xor-zero p,
          flip_xor f bin,
        )
        refl)

and-block :
    (order p f : ℕ) → f < 2 → bit_and (block order p (flip f)) (block order p f) ≡ block order p 0
and-block order p f bin =
    split_at and-IsDigitwise order (p * 2 + flip f) (p * 2 + f) 0 0 refl refl
      (one-le-pow order 2 (omega arith)) (one-le-pow order 2 (omega arith))
    ∙ rw
        (
          split_at and-IsDigitwise 1 p p (flip f) f {a = p * 2 + flip f} {b = p * 2 + f} refl refl
              ((flip-flip f bin).1) bin,
          and_self p,
          and-flip f bin,
        )
        refl

-- `low` and `high` are the two halves of the block at `parent`, in either order.
abbrev pub Halves : ℕ → ℕ → ℕ → ℕ → Type 0
Halves order parent a b =
    ((a ≡ parent) × (b ≡ parent + 2 ^ order)) ⊎ ((b ≡ parent) × (a ≡ parent + 2 ^ order))

pub record IsBuddy (idx order buddy : ℕ) : Type 0 where
  pub back : next_buddy_idx buddy order ≡ idx
  pub aligned : bit_and buddy idx % 2 ^ (order + 1) ≡ 0
  pub halves : Halves order (bit_and buddy idx) idx buddy

pair-Halves :
    (order p f : ℕ)
    → f < 2
    → Halves order (block order p 0) (block order p f) (block order p (flip f))
pair-Halves order p zero h = inl (refl, omega arith)
pair-Halves order p (suc zero) h = inr (refl, omega arith)
pair-Halves order p (suc (suc f)) h = absurd (omega arith)

block-IsBuddy :
    (order p f : ℕ)
    → order < 64
    → f < 2
    → IsBuddy (block order p f) order (next_buddy_idx (block order p f) order)
block-IsBuddy order p f small bin = rw (next_buddy_idx-block order p f small bin) (record {
  back =
      next_buddy_idx-block order p (flip f) small (flip-flip f bin).1 ∙ rw (flip-flip f bin).0 refl;
  aligned =
      rw (and-block order p f bin, double order)
        (rw (whole p (2 ^ order)) (mul-mod_left p (2 * 2 ^ order)));
  halves = rw (and-block order p f bin) (pair-Halves order p f bin);
})
  where
    whole : (p q : ℕ) → (p * 2 + 0) * q + 0 ≡ p * (2 * q)
    whole p q = omega arith

-- For the index of a block of an order below 64, the buddy's buddy is the block itself, and the two
-- are the halves of one block of the next order, whose index is the two indices' conjunction.
pub next_buddy_idx-IsBuddy :
    (idx order : ℕ)
    → order < 64
    → idx % 2 ^ order ≡ 0
    → IsBuddy idx order (next_buddy_idx idx order)
next_buddy_idx-IsBuddy idx order small aligned =
    rw as_block
      (block-IsBuddy order (idx / 2 ^ order / 2) (idx / 2 ^ order % 2) small (omega arith))
  where
    as_block : idx ≡ block order (idx / 2 ^ order / 2) (idx / 2 ^ order % 2)
    as_block = omega (arith, cut idx order, aligned, ap (λ (t : ℕ). t * 2 ^ order) pair)
      where
        pair : idx / 2 ^ order ≡ idx / 2 ^ order / 2 * 2 + idx / 2 ^ order % 2
        pair = omega arith
