-- ===== src/Bits/Split.antt =====
-- A digitwise operation works on the two halves of a number apart, wherever the cut is. With the
-- values at 0 and at a full mask this gives each operation on a word in closed form.
use Prim.Native.Nat.{bit_and-bitwise, bit_or-bitwise, bit_xor-bitwise, differ}
use new_explorer_aios.Prelude.{
  ℕ, zero, suc, ◌+◌, ◌-◌, ◌*◌, ◌/◌, ◌%◌, ◌^◌, ◌≤◌, ◌<◌, bit_and, bit_or, bit_xor, ◌≡◌, refl, ap,
  ◌∙◌, arith, pow-suc, one-le-pow,
}
use new_explorer_aios.Bits.Digit.{IsDigitwise, and-IsDigitwise, or-IsDigitwise, xor-IsDigitwise}

shifted : (k x : ℕ) → x * 2 ^ suc k ≡ 2 * (x * 2 ^ k)
shifted k x = omega (arith, ap (λ (t : ℕ). x * t) (pow-suc 2 k))

half : (k x r : ℕ) → (x * 2 ^ suc k + r) / 2 ≡ x * 2 ^ k + r / 2
half k x r = omega (arith, shifted k x)

parity : (k x r : ℕ) → (x * 2 ^ suc k + r) % 2 ≡ r % 2
parity k x r = omega (arith, shifted k x)

half_below : (k r : ℕ) → r < 2 ^ suc k → r / 2 < 2 ^ k
half_below k r h = omega (arith, pow-suc 2 k)

plain : (x : ℕ) → x * 2 ^ 0 + 0 ≡ x
plain x = omega arith

half_mask : (k : ℕ) → (2 ^ suc k - 1) / 2 ≡ 2 ^ k - 1
half_mask k = omega (arith, pow-suc 2 k, one-le-pow k 2)

half_complement : (k a : ℕ) → a < 2 ^ suc k → (2 ^ suc k - 1 - a) / 2 ≡ 2 ^ k - 1 - a / 2
half_complement k a h = omega (arith, pow-suc 2 k, one-le-pow k 2)

module _ {op d : ℕ → ℕ → ℕ} (w : IsDigitwise op d) where
  -- The low `k` digits of the result are those of the low parts, the rest that of the high parts.
  pub split :
      (k x y r s : ℕ)
      → r < 2 ^ k
      → s < 2 ^ k
      → op (x * 2 ^ k + r) (y * 2 ^ k + s) ≡ op x y * 2 ^ k + op r s
  split zero x y zero zero p q = whole x y ∙ omega (arith, w.at_zero)
    where
      whole : (x y : ℕ) → op (x * 2 ^ 0 + 0) (y * 2 ^ 0 + 0) ≡ op x y
      whole x y = let e = plain x in let e' = plain y in cc
  split zero x y (suc r) s p q = absurd (omega arith)
  split zero x y zero (suc s) p q = absurd (omega arith)
  split (suc k) x y r s p q =
      w.step (x * 2 ^ suc k + r) (y * 2 ^ suc k + s)
      ∙ rw (half k x r, half k y s, parity k x r, parity k y s)
          (omega (
            arith,
            split k x y (r / 2) (s / 2) (half_below k r p) (half_below k s q),
            w.step r s,
            shifted k (op x y),
          ))

module _ {op d : ℕ → ℕ → ℕ} (w : IsDigitwise op d) where
  -- The same for two numbers that are known to be cut so.
  pub split_at :
      (k x y r s : ℕ) {a b : ℕ}
      → a ≡ x * 2 ^ k + r
      → b ≡ y * 2 ^ k + s
      → r < 2 ^ k
      → s < 2 ^ k
      → op a b ≡ op x y * 2 ^ k + op r s
  split_at k x y r s ea eb p q = rw (ea, eb) (split w k x y r s p q)

-- A number is below some power of two.
pub lt-two-pow : (a : ℕ) → a < 2 ^ a
lt-two-pow zero = omega arith
lt-two-pow (suc a) = omega (arith, lt-two-pow a, pow-suc 2 a)

pub zero-and : (b : ℕ) → bit_and 0 b ≡ 0
zero-and b = simp bit_and-bitwise

pub zero-or : (b : ℕ) → bit_or 0 b ≡ b
zero-or b = simp bit_or-bitwise

pub zero-xor : (b : ℕ) → bit_xor 0 b ≡ b
zero-xor b = simp bit_xor-bitwise

and-zero_below : (k a : ℕ) → a < 2 ^ k → bit_and a 0 ≡ 0
and-zero_below zero zero h = refl
and-zero_below zero (suc a) h = absurd (omega arith)
and-zero_below (suc k) a h =
    omega (arith, and-IsDigitwise.step a 0, and-zero_below k (a / 2) (half_below k a h))

or-zero_below : (k a : ℕ) → a < 2 ^ k → bit_or a 0 ≡ a
or-zero_below zero zero h = refl
or-zero_below zero (suc a) h = absurd (omega arith)
or-zero_below (suc k) a h =
    omega (arith, or-IsDigitwise.step a 0, or-zero_below k (a / 2) (half_below k a h))

pub and-zero : (a : ℕ) → bit_and a 0 ≡ 0
and-zero a = and-zero_below a a (lt-two-pow a)

pub or-zero : (a : ℕ) → bit_or a 0 ≡ a
or-zero a = or-zero_below a a (lt-two-pow a)

differ-zero : (x : ℕ) → differ x 0 ≡ x
differ-zero zero = refl
differ-zero (suc x) = refl

xor-zero_below : (k a : ℕ) → a < 2 ^ k → bit_xor a 0 ≡ a
xor-zero_below zero zero h = refl
xor-zero_below zero (suc a) h = absurd (omega arith)
xor-zero_below (suc k) a h = omega (
  arith,
  xor-IsDigitwise.step a 0,
  differ-zero (a % 2),
  xor-zero_below k (a / 2) (half_below k a h),
)

pub xor-zero : (a : ℕ) → bit_xor a 0 ≡ a
xor-zero a = xor-zero_below a a (lt-two-pow a)

-- A full mask keeps every digit.
pub and-full : (k a : ℕ) → a < 2 ^ k → bit_and a (2 ^ k - 1) ≡ a
and-full zero zero h = refl
and-full zero (suc a) h = absurd (omega arith)
and-full (suc k) a h = omega (
  arith,
  and-IsDigitwise.step a (2 ^ suc k - 1),
  and-full k (a / 2) (half_below k a h),
  ap (λ (t : ℕ). bit_and (a / 2) t) (half_mask k),
  pow-suc 2 k,
  one-le-pow k 2,
)

-- A number and its complement share no digit.
pub and-complement : (k a : ℕ) → a < 2 ^ k → bit_and a (2 ^ k - 1 - a) ≡ 0
and-complement zero zero h = refl
and-complement zero (suc a) h = absurd (omega arith)
and-complement (suc k) a h = omega (
  arith,
  and-IsDigitwise.step a (2 ^ suc k - 1 - a),
  and-complement k (a / 2) (half_below k a h),
  ap (λ (t : ℕ). bit_and (a / 2) t) (half_complement k a h),
  pow-suc 2 k,
  one-le-pow k 2,
)

and-le_below : (k a m : ℕ) → a < 2 ^ k → bit_and a m ≤ a
and-le_below zero zero m h = omega (arith, zero-and m)
and-le_below zero (suc a) m h = absurd (omega arith)
and-le_below (suc k) a m h =
    omega (arith, and-IsDigitwise.step a m, and-le_below k (a / 2) (m / 2) (half_below k a h))

-- Masking never makes a number larger.
pub and-le : (a m : ℕ) → bit_and a m ≤ a
and-le a m = and-le_below a a m (lt-two-pow a)

and-self_below : (k a : ℕ) → a < 2 ^ k → bit_and a a ≡ a
and-self_below zero zero h = refl
and-self_below zero (suc a) h = absurd (omega arith)
and-self_below (suc k) a h =
    omega (arith, and-IsDigitwise.step a a, and-self_below k (a / 2) (half_below k a h))

pub and_self : (a : ℕ) → bit_and a a ≡ a
and_self a = and-self_below a a (lt-two-pow a)

differ-one : (x : ℕ) → x ≤ 1 → differ x 1 ≡ 1 - x
differ-one zero h = refl
differ-one (suc zero) h = refl
differ-one (suc (suc x)) h = absurd (omega arith)

mask_odd : (k : ℕ) → (2 ^ suc k - 1) % 2 ≡ 1
mask_odd k = omega (arith, pow-suc 2 k, one-le-pow k 2)

-- A full mask turns every digit.
pub xor-full : (k a : ℕ) → a < 2 ^ k → bit_xor a (2 ^ k - 1) ≡ 2 ^ k - 1 - a
xor-full zero zero h = refl
xor-full zero (suc a) h = absurd (omega arith)
xor-full (suc k) a h =
    let turned : differ (a % 2) ((2 ^ suc k - 1) % 2) ≡ 1 - a % 2 =
      rw (mask_odd k) (differ-one (a % 2) (omega arith)) in
    let high : bit_xor (a / 2) ((2 ^ suc k - 1) / 2) ≡ 2 ^ k - 1 - a / 2 =
      rw (half_mask k) (xor-full k (a / 2) (half_below k a h)) in
    omega (arith, xor-IsDigitwise.step a (2 ^ suc k - 1), turned, high, pow-suc 2 k, one-le-pow k 2)
