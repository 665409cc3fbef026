-- ===== src/Group/Budget.antt =====
-- The budget of a group is the number of items in its free lists.
use native.Mathlib.Nat.{mod-eq_of_lt}
use new_explorer_aios.Prelude.{
  ℕ, zero, suc, ◌+◌, ◌-◌, ◌*◌, ◌%◌, ◌==◌, ◌^◌, ◌≤◌, ◌<◌, ◌≡◌, ◌∙◌, refl, arith, ltb, leb, ◌&&◌,
  if◌then◌else◌, one-le-pow, Bool-cases, inl, inr, true, false,
}
use new_explorer_aios.Bits.Word.{word_mod, add64}
use new_explorer_aios.Macros.Single.{bit-pow}
use new_explorer_aios.Convert.Orders.{double}
use new_explorer_aios.Group.World.{as_int}
use new_explorer_aios.Group.{budget_loop}

-- The items in `rounds` free lists from the order `index`, by their counts, with blocks of order 0
-- of `unit` items.
unfoldable pub total : ℕ → (ℕ → ℕ) → ℕ → ℕ → ℕ
total zero counts unit index = 0
total (suc rounds) counts unit index =
    counts index * 2 ^ index * unit + total rounds counts unit (index + 1)

pub as_int_small : (x : ℕ) → x < 2 ^ 31 → as_int x ≡ x
unfolding as_int
as_int_small x h = ground arith

le_times : (p q : ℕ) → 1 ≤ q → p ≤ p * q
le_times p zero h = absurd (omega arith)
le_times p (suc q) h = omega arith

split_product : (c p u : ℕ) → (c + 1) * p * u ≡ c * p * u + p * u
split_product c p u = omega arith

twice : (p q u : ℕ) → q ≡ 2 * p → q * u ≡ p * u + p * u
twice p q u e = rw e (omega arith)

-- One summand of the budget, where the sum fits a word.
summand :
    (c i b n rest : ℕ)
    → c < 2 ^ 31
    → i < 64
    → b < 64
    → n + (c * 2 ^ i * 2 ^ b + rest) < word_mod
    → add64 n (c * 2 ^ i % word_mod * 2 ^ b % word_mod) ≡ n + c * 2 ^ i * 2 ^ b
summand c i b n rest hc hi hb fits =
    let inner : c * 2 ^ i < word_mod =
      omega (arith, le_times (c * 2 ^ i) (2 ^ b) (one-le-pow b 2 (omega arith))) in
    let outer : c * 2 ^ i * 2 ^ b < word_mod = omega arith in
    let e : c * 2 ^ i % word_mod ≡ c * 2 ^ i = mod-eq_of_lt inner in
    let e' : c * 2 ^ i * 2 ^ b % word_mod ≡ c * 2 ^ i * 2 ^ b = mod-eq_of_lt outer in
    rw (e, e') (omega arith)

pub budget_loop_lem :
    (rounds : ℕ) (counts : ℕ → ℕ) (b index n : ℕ)
    → index + rounds ≤ 64
    → ((o : ℕ) → o < index + rounds → counts o < 2 ^ 31)
    → b < 64
    → n + total rounds counts (2 ^ b) index < word_mod
    → budget_loop rounds counts b index n ≡ n + total rounds counts (2 ^ b) index
unfolding total budget_loop
budget_loop_lem zero counts b index n h small hb fits = omega arith
budget_loop_lem (suc rounds) counts b index n h small hb fits =
    rw
      (
        as_int_small (counts index) (small index (omega arith)),
        bit-pow index (omega arith),
        bit-pow b hb,
        summand (counts index) index b n (total rounds counts (2 ^ b) (index + 1))
            (small index (omega arith)) (omega arith) hb fits,
      )
      (budget_loop_lem rounds counts b (index + 1) (n + counts index * 2 ^ index * 2 ^ b)
          (omega arith) (λ o l. small o (omega arith)) hb (omega arith)
        ∙ omega arith)

-- The counts after a block has been split from `high` down to `low`.
abbrev pub grown : ℕ → ℕ → (ℕ → ℕ) → ℕ → ℕ
grown low high counts o = if leb low o && ltb o high then counts o + 1 else counts o

total_above :
    (rounds : ℕ) (low high : ℕ) (counts : ℕ → ℕ) (unit i : ℕ)
    → high ≤ i
    → total rounds (grown low high counts) unit i ≡ total rounds counts unit i
unfolding total
total_above zero low high counts unit i h = refl
total_above (suc rounds) low high counts unit i h =
    let out : (leb low i && ltb i high) ≡ false = ground arith in
    rw (out, total_above rounds low high counts unit (i + 1) (omega arith)) refl

total_inside :
    (rounds : ℕ) (low high : ℕ) (counts : ℕ → ℕ) (unit i : ℕ)
    → low ≤ i
    → i ≤ high
    → high ≤ i + rounds
    → total rounds (grown low high counts) unit i + 2 ^ i * unit
      ≡ total rounds counts unit i + 2 ^ high * unit
unfolding total
total_inside zero low high counts unit i l h r = let same : i ≡ high = omega arith in rw same refl
total_inside (suc rounds) low high counts unit i l h r = elim (Bool-cases (ltb i high)) [
  | inr out ↦
      let same : i ≡ high = ground arith in
      rw (total_above (suc rounds) low high counts unit i (omega arith), same) refl
  | inl go ↦
      let inside : (leb low i && ltb i high) ≡ true = ground arith in
      let ih =
        total_inside rounds low high counts unit (i + 1) (omega arith) (ground arith)
          (omega arith) in
      rw (inside, split_product (counts i) (2 ^ i) unit)
        (omega (arith, ih, double i, twice (2 ^ i) (2 ^ (i + 1)) unit (double i)))
]

-- What the free lists gain is the block without the part that is handed out.
pub total-grown :
    (rounds : ℕ) (low high : ℕ) (counts : ℕ → ℕ) (unit i : ℕ)
    → i ≤ low
    → low ≤ high
    → high ≤ i + rounds
    → total rounds (grown low high counts) unit i + 2 ^ low * unit
      ≡ total rounds counts unit i + 2 ^ high * unit
unfolding total
total-grown zero low high counts unit i l h r = let same : low ≡ high = omega arith in rw same refl
total-grown (suc rounds) low high counts unit i l h r = elim (Bool-cases (ltb i low)) [
  | inr here ↦
      let same : i ≡ low = ground arith in
      rw (← same) (total_inside (suc rounds) i high counts unit i (omega arith) (omega arith) r)
  | inl below ↦
      let out : (leb low i && ltb i high) ≡ false = ground arith in
      let ih = total-grown rounds low high counts unit (i + 1) (ground arith) h (omega arith) in
      rw out (omega (arith, ih))
]

-- The counts after a block has been taken from the list of an order.
abbrev pub dropped : ℕ → (ℕ → ℕ) → ℕ → ℕ
dropped k counts o = if o == k then counts o - 1 else counts o

-- The sum depends on the counts of its orders only.
pub total-same :
    (rounds : ℕ) (counts counts' : ℕ → ℕ) (unit i : ℕ)
    → ((o : ℕ) → o < i + rounds → counts o ≡ counts' o)
    → total rounds counts unit i ≡ total rounds counts' unit i
unfolding total
total-same zero counts counts' unit i same = refl
total-same (suc rounds) counts counts' unit i same =
    rw
      (
        same i (omega arith),
        total-same rounds counts counts' unit (i + 1) (λ o l. same o (omega arith)),
      )
      refl

total_past :
    (rounds k : ℕ) (counts : ℕ → ℕ) (unit i : ℕ)
    → k < i
    → total rounds (dropped k counts) unit i ≡ total rounds counts unit i
unfolding total
total_past zero k counts unit i h = refl
total_past (suc rounds) k counts unit i h =
    let out : (i == k) ≡ false = ground arith in
    rw (out, total_past rounds k counts unit (i + 1) (omega arith)) refl

one_less : (c p u : ℕ) → 1 ≤ c → (c - 1) * p * u + p * u ≡ c * p * u
one_less zero p u h = absurd (omega arith)
one_less (suc c) p u h = let e : suc c - 1 ≡ c = omega arith in rw e (omega arith)

-- A block that is taken out of its list takes its items with it.
pub total-dropped :
    (rounds k : ℕ) (counts : ℕ → ℕ) (unit i : ℕ)
    → 1 ≤ counts k
    → i ≤ k
    → k < i + rounds
    → total rounds (dropped k counts) unit i + 2 ^ k * unit ≡ total rounds counts unit i
unfolding total
total-dropped zero k counts unit i some' l h = absurd (omega arith)
total-dropped (suc rounds) k counts unit i some' l h = elim (Bool-cases (i == k)) [
  | inl e ↦
      let same : i ≡ k = ground arith in
      rw (e, same, total_past rounds k counts unit (k + 1) (omega arith))
        (omega (arith, one_less (counts k) (2 ^ k) unit some'))
  | inr ne ↦
      let ih = total-dropped rounds k counts unit (i + 1) some' (ground arith) (omega arith) in
      rw ne (omega (arith, ih))
]
