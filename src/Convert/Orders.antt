-- ===== src/Convert/Orders.antt =====
-- Orders: the power of two that covers a number of items, and the powers that add up to it.
use native.Mathlib.Nat.{div-eq_of_lt-le, pow-le-pow_right}
use native.Mathlib.Decide.{dec_lt}
use native.Mathlib.Numerals.{add-one, sub-one}
use new_explorer_aios.Prelude.{
  ℕ, zero, suc, ◌+◌, ◌-◌, ◌*◌, ◌/◌, ◌%◌, ◌^◌, ◌≤◌, ◌<◌, ◌≡◌, ◌≢◌, refl, arith, inl, inr, Bool-cases,
  ltb, ◌==◌, eq_of_==, ap, if◌then◌else◌, suc-==_zero, one-le-pow, pow-suc,
}
use new_explorer_aios.Bits.Word.{word_mod, sub64}
use new_explorer_aios.Bits.Field.{cut, mod-pow-lt}
use new_explorer_aios.Macros.Single.{bit-pow, place-Fits, cb_lem}
use new_explorer_aios.Types.{fls}
use new_explorer_aios.Types.Clz.{IsClz, fls_lem}
use new_explorer_aios.Convert.{item_to_order, item_to_orders, size_to_order}

pred_suc : (k : ℕ) → k + 1 - 1 ≡ k
pred_suc k = omega arith

-- The last two tests of `item_to_order`, with `2 ^ k` the highest power of two in `n`.
abbrev pick : ℕ → ℕ → ℕ × ℕ
pick n k = if k + 1 == 64 then (k, 0) else if ltb (2 ^ k) n then (k + 1, 0) else (k, 0)

pub double : (k : ℕ) → 2 ^ (k + 1) ≡ 2 * 2 ^ k
double k = rw (add-one k, pow-suc 2 k) (omega arith)

pick_lem :
    (n k : ℕ)
    → n ≤ 2 ^ 63
    → 2 ^ k ≤ n
    → n < 2 ^ (k + 1)
    → (n ≤ 2 ^ (pick n k).0) × (2 ^ (pick n k).0 < 2 * n) × ((pick n k).1 ≡ 0)
pick_lem n k h lo hi = elim (Bool-cases (k + 1 == 64)) [
  | inl e ↦
      let at_63 : k ≡ 63 = omega (arith, eq_of_== (k + 1) 64 e) in
      let same : 2 ^ k ≡ 2 ^ 63 = ap (λ (t : ℕ). 2 ^ t) at_63 in
      rw e (omega arith, omega arith, refl)
  | inr e ↦ rw e (elim (Bool-cases (ltb (2 ^ k) n)) [
    | inl above ↦ rw (above, double k) (omega (arith, double k), ground arith, refl)
    | inr level ↦ rw level (ground arith, omega (arith, one-le-pow k 2), refl)
  ])
]

taken :
    (n k : ℕ)
    → 2 ^ k ≤ n
    → n < 2 ^ (k + 1)
    → (2 ^ k + (n / 2 ^ k / 2 * 2 * 2 ^ k + n % 2 ^ k) ≡ n)
      × (n / 2 ^ k / 2 * 2 * 2 ^ k + n % 2 ^ k < 2 ^ k)
taken n k lo hi =
    rw one (omega (arith, cut n k, ap (λ (t : ℕ). t * 2 ^ k) one), omega (arith, mod-pow-lt n k))
  where
    one : n / 2 ^ k ≡ 1
    one = div-eq_of_lt-le {k = 1} (2 ^ k) (omega arith) (omega (arith, double k))

fls_zero : (clzl : ℕ → ℕ) → fls clzl 0 ≡ 0
unfolding fls
fls_zero clzl = refl

exponent_lt : (x n k : ℕ) → 2 ^ n ≤ x → x < 2 ^ k → n + 1 ≤ k
exponent_lt x n k lo hi = elim (dec_lt n k) [
  | yes h ↦ omega arith
  | no h ↦
      absurd (omega (arith, pow-le-pow_right {n = 2} (omega arith) {i = k} {j = n} (omega arith)))
]

module _ {clzl : ℕ → ℕ} (c : IsClz clzl) where
  -- For up to 2^63 items `item_to_order` is the least order whose block holds them, and it leaves
  -- no items over.
  pub item_to_order_lem :
      (n : ℕ)
      → n ≢ 0
      → n ≤ 2 ^ 63
      → (n ≤ 2 ^ (item_to_order clzl n).0)
        × (2 ^ (item_to_order clzl n).0 < 2 * n)
        × ((item_to_order clzl n).1 ≡ 0)
  unfolding item_to_order
  item_to_order_lem zero ne h = absurd (ne refl)
  item_to_order_lem (suc n) ne h =
      let (k, e, small, lo, hi) = fls_lem c (suc n) (λ z. cc) (omega arith) in
      rw (suc-==_zero n, e, pred_suc k, bit-pow k small) (pick_lem (suc n) k h lo hi)

  -- `item_to_orders` takes the highest power of two out of a number of items.
  pub item_to_orders_lem :
      (n : ℕ)
      → n ≢ 0
      → n < word_mod
      → (2 ^ (item_to_orders clzl n).0 + (item_to_orders clzl n).1 ≡ n)
        × ((item_to_orders clzl n).1 < 2 ^ (item_to_orders clzl n).0)
  unfolding item_to_orders
  item_to_orders_lem n ne h =
      let (k, e, small, lo, hi) = fls_lem c n ne h in
      rw (e, add-one k, suc-==_zero k, sub-one (suc k), cb_lem (place-Fits k small) n h)
        (taken n k lo hi)

  size_to_order_least :
      (size : ℕ)
      → size ≢ 0
      → size < word_mod
      → (size ≤ 4096 * 2 ^ size_to_order clzl size)
        × ((k : ℕ) → size ≤ 4096 * 2 ^ k → size_to_order clzl size ≤ k)
  unfolding size_to_order
  size_to_order_least size ne h = rw shifted (least (size - 1) (omega arith) (omega arith))
    where
      shifted : sub64 size 1 / 2 ^ 12 ≡ (size - 1) / 4096
      shifted = omega arith

      least :
          (s : ℕ)
          → s + 1 ≡ size
          → s < word_mod
          → (size ≤ 4096 * 2 ^ fls clzl (s / 4096))
            × ((k : ℕ) → size ≤ 4096 * 2 ^ k → fls clzl (s / 4096) ≤ k)
      least s e lt = elim (Bool-cases (s / 4096 == 0)) [
        | inl z ↦
            let zero_items : s / 4096 ≡ 0 = eq_of_== (s / 4096) 0 z in
            rw (zero_items, fls_zero clzl) (omega arith, λ k q. omega arith)
        | inr z ↦
            let (n, e', small, lo, hi) = fls_lem c (s / 4096) (λ y. ground arith) (omega arith) in
            rw e' (omega arith, λ k q. exponent_lt (s / 4096) n k lo (omega arith))
      ]

  -- For a size that is not 0, the block of items of order `size_to_order` holds it, and any order
  -- whose block holds it is at least that.
  size_to_order_lem :
      (size k : ℕ)
      → size ≢ 0
      → size < word_mod
      → size ≤ 4096 * 2 ^ k
      → (size ≤ 4096 * 2 ^ size_to_order clzl size) × (size_to_order clzl size ≤ k)
  size_to_order_lem size k ne h fits =
      let (holds, least) = size_to_order_least size ne h in (holds, least k fits)
