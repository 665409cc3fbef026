-- ===== src/Types/Clz.antt =====
-- `fls` rests on the compiler's `__builtin_clzl`, which is a parameter here with what it documents.
use native.Mathlib.Nat.{pow-le-pow_right, le_trans, not-le_of_lt}
use native.Mathlib.Decide.{dec_lt}
use new_explorer_aios.Prelude.{
  ℕ, zero, suc, ◌+◌, ◌-◌, ◌*◌, ◌^◌, ◌≤◌, ◌<◌, ◌≡◌, ◌≢◌, refl, suc-==_zero, arith,
}
use new_explorer_aios.Bits.Word.{word_mod}
use new_explorer_aios.Types.{fls_word, fls, fls64}
use new_explorer_aios.Types.Fls.{shift_small, exponent, fls_word_lem}

-- For a number that is not 0, the count of the zero digits above its highest one.
pub record IsClz (clzl : ℕ → ℕ) : Type 0 where
  pub top : (x : ℕ) → x ≢ 0 → x < word_mod → 2 ^ 63 ≤ x * 2 ^ clzl x
  pub fits : (x : ℕ) → x ≢ 0 → x < word_mod → x * 2 ^ clzl x < word_mod

-- At most one exponent fits a number.
exponent_le : (x a b : ℕ) → 2 ^ a ≤ x → x < 2 ^ (b + 1) → a ≤ b
exponent_le x a b lo hi = elim (dec_lt b a) [
  | yes h ↦ absurd (
      not-le_of_lt hi
        (le_trans (pow-le-pow_right {n = 2} (omega arith) {i = b + 1} {j = a} (omega arith)) lo))
  | no h ↦ omega arith
]

pub exponent_unique :
    (x a b : ℕ) → 2 ^ a ≤ x → x < 2 ^ (a + 1) → 2 ^ b ≤ x → x < 2 ^ (b + 1) → a ≡ b
exponent_unique x a b p q p' q' = omega (arith, exponent_le x a b p q', exponent_le x b a p' q)

module _ {clzl : ℕ → ℕ} (c : IsClz clzl) where
  -- `fls` of a number that is not 0 is one more than the place of its highest one.
  pub fls_lem :
      (x : ℕ)
      → x ≢ 0
      → x < word_mod
      → (n : ℕ) × (fls clzl x ≡ n + 1) × (n < 64) × (2 ^ n ≤ x) × (x < 2 ^ (n + 1))
  unfolding fls
  fls_lem zero ne lt = absurd (ne refl)
  fls_lem (suc x) ne lt =
      let few =
        shift_small (suc x) (clzl (suc x)) 64 _ refl (omega (arith, c.top (suc x) ne lt))
          (c.fits (suc x) ne lt) in
      let (lo, hi) =
        exponent (suc x) (63 - clzl (suc x)) (clzl (suc x)) (omega arith) (c.top (suc x) ne lt)
          (c.fits (suc x) ne lt) in
      (63 - clzl (suc x), rw (suc-==_zero x) (omega arith), omega arith, lo, hi)

  -- The two ways to find the highest digit agree.
  fls-eq-fls64 : (x : ℕ) → x < word_mod → fls clzl x ≡ fls64 x
  unfolding fls64
  fls-eq-fls64 zero lt = unfold fls in refl
  fls-eq-fls64 (suc x) lt =
      let (n, e, small, lo, hi) = fls_lem (suc x) (λ z. cc) lt in
      let (lo', hi') = fls_word_lem (suc x) (λ z. cc) lt in
      rw (suc-==_zero x, exponent_unique (suc x) (fls_word (suc x)) n lo' hi' lo hi) e
