-- ===== src/Types/CountZeros.antt =====
-- A function for the compiler's `__builtin_clzl`, by `__fls`.
use native.Mathlib.Nat.{pow-le-pow_right, mul-le-mul_right, mul-lt-mul_of_pos_right}
use native.Mathlib.Decide.{dec_lt}
use new_explorer_aios.Prelude.{
  ℕ, ◌+◌, ◌-◌, ◌*◌, ◌^◌, ◌≤◌, ◌<◌, ◌≡◌, ap, ◌∙◌, sym, arith, one-le-pow,
}
use new_explorer_aios.Bits.Word.{word_mod}
use new_explorer_aios.Bits.Field.{pow-add}
use new_explorer_aios.Types.{fls_word}
use new_explorer_aios.Types.Fls.{fls_word_lem}
use new_explorer_aios.Types.Clz.{IsClz}

abbrev pub count_zeros : ℕ → ℕ
count_zeros x = 63 - fls_word x

pub count_zeros-IsClz : IsClz count_zeros
count_zeros-IsClz = record {
  top = λ x ne lt. (bounds x (fls_word x) (fls_word_lem x ne lt) lt).0;
  fits = λ x ne lt. (bounds x (fls_word x) (fls_word_lem x ne lt) lt).1;
}
  where
    bounds :
        (x n : ℕ)
        → (2 ^ n ≤ x) × (x < 2 ^ (n + 1))
        → x < word_mod
        → (2 ^ 63 ≤ x * 2 ^ (63 - n)) × (x * 2 ^ (63 - n) < word_mod)
    bounds x n (lo, hi) lt =
        let small : n < 64 = elim (dec_lt n 64) [
          | yes h ↦ h
          | no h ↦
              absurd (
                omega
                  (arith, pow-le-pow_right {n = 2} (omega arith) {i = 64} {j = n} (omega arith)))
        ] in
        let e : 2 ^ n * 2 ^ (63 - n) ≡ 2 ^ 63 =
          sym (pow-add n (63 - n)) ∙ ap (λ (t : ℕ). 2 ^ t) {y = 63} (omega arith) in
        let e' : 2 ^ (n + 1) * 2 ^ (63 - n) ≡ 2 ^ 64 =
          sym (pow-add (n + 1) (63 - n)) ∙ ap (λ (t : ℕ). 2 ^ t) {y = 64} (omega arith) in
        (
          omega (arith, e, mul-le-mul_right (2 ^ (63 - n)) lo),
          omega (arith, e', mul-lt-mul_of_pos_right hi (one-le-pow (63 - n) 2 (omega arith))),
        )
