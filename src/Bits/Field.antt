-- ===== src/Bits/Field.antt =====
-- A word as three fields: what masking, clearing and filling the middle one do to it.
use native.Mathlib.Nat.{div-add-mod', mod-lt, mul_assoc, add-mul}
use new_explorer_aios.Prelude.{
  ℕ, zero, suc, ◌+◌, ◌-◌, ◌*◌, ◌/◌, ◌%◌, ◌^◌, ◌<◌, bit_and, bit_or, ◌≡◌, refl, ◌∙◌, sym, arith,
  pow-suc, one-le-pow,
}
use new_explorer_aios.Bits.Digit.{and-IsDigitwise, or-IsDigitwise}
use new_explorer_aios.Bits.Split.{split_at, zero-or, and-zero, or-zero, and-full}

pub pow-add : (a b : ℕ) → 2 ^ (a + b) ≡ 2 ^ a * 2 ^ b
pow-add a zero = rw (native.Mathlib.Nat.add-zero a) (omega arith)
pow-add a (suc b) =
    rw (native.Mathlib.Nat.add-suc a b, pow-suc 2 (a + b), pow-add a b, pow-suc 2 b) (omega arith)

pub mod-pow-lt : (a k : ℕ) → a % 2 ^ k < 2 ^ k
mod-pow-lt a k = mod-lt a (one-le-pow k 2 (omega arith))

pub full-lt : (k : ℕ) → 2 ^ k - 1 < 2 ^ k
full-lt k = omega (arith, one-le-pow k 2)

pub cut : (a k : ℕ) → a ≡ a / 2 ^ k * 2 ^ k + a % 2 ^ k
cut a k = sym (div-add-mod' a (2 ^ k))

-- `a & (2^k - 1)` is the remainder.
pub and_mask : (k a : ℕ) → bit_and a (2 ^ k - 1) ≡ a % 2 ^ k
and_mask k a =
    split_at and-IsDigitwise k (a / 2 ^ k) 0 (a % 2 ^ k) (2 ^ k - 1) (cut a k) (omega arith)
      (mod-pow-lt a k) (full-lt k)
    ∙ rw (and-zero (a / 2 ^ k), and-full k (a % 2 ^ k) (mod-pow-lt a k)) (omega arith)

-- Masking the field of `c` digits at `b`.
pub and_field : (b c a : ℕ) → bit_and a ((2 ^ c - 1) * 2 ^ b) ≡ a / 2 ^ b % 2 ^ c * 2 ^ b
and_field b c a =
    split_at and-IsDigitwise b (a / 2 ^ b) (2 ^ c - 1) (a % 2 ^ b) 0 (cut a b) (omega arith)
      (mod-pow-lt a b) (one-le-pow b 2 (omega arith))
    ∙ rw (and_mask c (a / 2 ^ b), and-zero (a % 2 ^ b)) (omega arith)

-- Putting `v` into a field that is clear.
pub or_field :
    (b c h l v : ℕ)
    → l < 2 ^ b
    → v < 2 ^ c
    → bit_or (h * 2 ^ c * 2 ^ b + l) (v * 2 ^ b) ≡ (h * 2 ^ c + v) * 2 ^ b + l
or_field b c h l v p q =
    split_at or-IsDigitwise b (h * 2 ^ c) v l 0 refl (omega arith) p (one-le-pow b 2 (omega arith))
    ∙ rw
        (
          split_at or-IsDigitwise c h 0 0 v {a = h * 2 ^ c} {b = v} (omega arith) (omega arith)
              (one-le-pow c 2 (omega arith)) q,
          or-zero h,
          zero-or v,
          or-zero l,
        )
        refl

complement_parts :
    (t' d b' f t c b : ℕ)
    → t ≡ t' + 1
    → c ≡ f + 1 + d
    → b ≡ b' + 1
    → t * c * b - 1 - f * b ≡ ((t - 1) * c + (c - 1 - f)) * b + (b - 1)
complement_parts t' d b' f t c b et ec eb =
    rw (et, ec, eb) (rw (a_sub t', d_sub f d, a_sub b') (omega arith))
  where
    a_sub : (n : ℕ) → n + 1 - 1 ≡ n
    a_sub n = omega arith

    d_sub : (f d : ℕ) → f + 1 + d - 1 - f ≡ d
    d_sub f d = omega arith

-- Clearing the digits `m` of the field, in a word of `t + c + b` digits.
pub clear_field :
    (t b c h f m l : ℕ)
    → h < 2 ^ t
    → f < 2 ^ c
    → m < 2 ^ c
    → l < 2 ^ b
    → bit_and ((h * 2 ^ c + f) * 2 ^ b + l) (2 ^ (t + c + b) - 1 - m * 2 ^ b)
      ≡ (h * 2 ^ c + bit_and f (2 ^ c - 1 - m)) * 2 ^ b + l
clear_field t b c h f m l p q q' r =
    split_at and-IsDigitwise b (h * 2 ^ c + f) ((2 ^ t - 1) * 2 ^ c + (2 ^ c - 1 - m)) l (2 ^ b - 1)
      refl (rw (pow-add (t + c) b, pow-add t c) parts) r (full-lt b)
    ∙ rw
        (
          split_at and-IsDigitwise c h (2 ^ t - 1) f (2 ^ c - 1 - m) refl refl q
              (omega (arith, one-le-pow c 2)),
          and-full t h p,
          and-full b l r,
        )
        refl
  where
    parts :
        2 ^ t * 2 ^ c * 2 ^ b - 1 - m * 2 ^ b
        ≡ ((2 ^ t - 1) * 2 ^ c + (2 ^ c - 1 - m)) * 2 ^ b + (2 ^ b - 1)
    parts =
        complement_parts (2 ^ t - 1) (2 ^ c - 1 - m) (2 ^ b - 1) m _ _ _
          (omega (arith, one-le-pow t 2)) (omega arith) (omega (arith, one-le-pow b 2))
