-- ===== src/Types/Fls.antt =====
-- `__fls` and `fls64` find the place of the highest digit that is 1, and so does `fls` on a correct
-- count of leading zeros.
use native.Mathlib.Nat.{
  div-lt_iff_lt-mul, div-eq_of_lt, le-div_iff_mul-le, mul-lt-mul_of_pos_right, mul-le-mul_right,
  le_of_mul-le-mul_right, lt_of_mul-lt-mul_right, pow-le-pow_right, mul_assoc, mul_comm,
  mod-eq_of_lt,
}
use native.Mathlib.Decide.{dec_lt}
use new_explorer_aios.Prelude.{
  ℕ, zero, suc, ◌+◌, ◌-◌, ◌*◌, ◌/◌, ◌^◌, ◌≤◌, ◌<◌, bit_and, ◌≡◌, ◌≢◌, ◌∙◌, refl, ap, sym, inl, inr,
  arith, Bool-cases, ◌==◌, ltb, if◌then◌else◌, one-le-pow,
}
use new_explorer_aios.Bits.Field.{pow-add, and_field}
use new_explorer_aios.Bits.Word.{word_mod, ◌<<<◌, complement, shl_lem}
use new_explorer_aios.Types.{raise_high, fls_word}

-- The word has been shifted up by `s`, `num` has gone down by as much, and a digit at `j` or above
-- is 1.
pub record Top (w j : ℕ) (p : ℕ × ℕ) : Type 0 where
  pub s : ℕ
  pub place : p.0 + s ≡ 63
  pub shifted : p.1 ≡ w * 2 ^ s
  pub word : p.1 < word_mod
  pub top : 2 ^ j ≤ p.1

-- The mask of the high `k` digits tests whether the word is below `2 ^ j`.
high_test :
    (k j v : ℕ)
    → j + k ≡ 64
    → complement 0 <<< j ≡ (2 ^ k - 1) * 2 ^ j
    → v < word_mod
    → (bit_and v (complement 0 <<< j) == 0) ≡ ltb v (2 ^ j)
high_test k j v e m h = rw (m, and_field j k v, mod-eq_of_lt high_small) test
  where
    high_small : v / 2 ^ j < 2 ^ k
    high_small =
        (div-lt_iff_lt-mul (one-le-pow j 2 (omega arith))).1
          (rw (mul_comm (2 ^ k) (2 ^ j), ← pow-add j k, e) h)

    test : (v / 2 ^ j * 2 ^ j == 0) ≡ ltb v (2 ^ j)
    test = elim (dec_lt v (2 ^ j)) [
      | yes below ↦ rw (div-eq_of_lt below) (ground arith)
      | no above ↦
          let some_high : 1 ≤ v / 2 ^ j =
            (le-div_iff_mul-le {x = 1} (one-le-pow j 2 (omega arith))).1 (omega arith) in
          ground (
            arith,
            mul-le-mul_right {m = 1} {n = v / 2 ^ j} (2 ^ j) some_high,
            one-le-pow j 2 (omega arith),
          )
    ]

pub shift_small : (w s j v : ℕ) → v ≡ w * 2 ^ s → 0 < v → v < 2 ^ j → s < j
shift_small zero s j v e pos lt = absurd (omega arith)
shift_small (suc w) s j v e pos lt = elim (dec_lt s j) [
  | yes h ↦ h
  | no h ↦ absurd (
      omega (
        arith,
        pow-le-pow_right {n = 2} (omega arith) {i = j} {j = s} (omega arith),
        mul-le-mul_right {m = 1} {n = suc w} (2 ^ s) (omega arith),
      ))
]

raise_high_lem :
    (w k j i : ℕ) (p : ℕ × ℕ)
    → j + k ≡ 64
    → i + k ≡ j
    → complement 0 <<< j ≡ (2 ^ k - 1) * 2 ^ j
    → Top w i p
    → Top w j (raise_high k p)
unfolding raise_high
raise_high_lem w k j i (num, v) e e' m t =
    rw (ap (λ (n : ℕ). complement 0 <<< n) at_j, high_test k j v e m t.word)
      (elim (Bool-cases (ltb v (2 ^ j))) [
        | inl low ↦
            let lt : v < 2 ^ j = ground arith in
            let room = shift_small w t.s j v t.shifted (omega (arith, t.top, one-le-pow i 2)) lt in
            let fits : v * 2 ^ k < word_mod =
              rw (wide) (mul-lt-mul_of_pos_right lt (one-le-pow k 2 (omega arith))) in
            rw (low, shl_lem v k fits)
              (record {
                s = t.s + k;
                place = omega (arith, t.place);
                shifted = rw (pow-add t.s k, t.shifted) (mul_assoc w (2 ^ t.s) (2 ^ k));
                word = fits;
                top = rw (← e', pow-add i k) (mul-le-mul_right (2 ^ k) t.top);
              })
        | inr high ↦ rw high (record {
          s = t.s;
          place = t.place;
          shifted = t.shifted;
          word = t.word;
          top = ground arith;
        })
      ])
  where
    at_j : 64 - k ≡ j
    at_j = omega arith

    wide : word_mod ≡ 2 ^ j * 2 ^ k
    wide = ap (λ (n : ℕ). 2 ^ n) (sym e) ∙ pow-add j k

pub exponent :
    (w n s : ℕ)
    → n + s ≡ 63
    → 2 ^ 63 ≤ w * 2 ^ s
    → w * 2 ^ s < 2 ^ 64
    → (2 ^ n ≤ w) × (w < 2 ^ (n + 1))
exponent w n s e lo hi = (
  le_of_mul-le-mul_right {m = 2 ^ n} {n = w} {k = 2 ^ s} (rw (← pow-add n s, e) lo)
      (one-le-pow s 2 (omega arith)),
  lt_of_mul-lt-mul_right (2 ^ s) {m = w} {n = 2 ^ (n + 1)} (rw (← pow-add (n + 1) s, up) hi),
)
  where
    up : n + 1 + s ≡ 64
    up = omega arith

fls_word-Top : (w : ℕ) → w ≢ 0 → w < word_mod → (p : ℕ × ℕ) × Top w 63 p × (fls_word w ≡ p.0)
unfolding fls_word raise_high
fls_word-Top w ne lt = (raise_high 1 p, raise_high_lem w 1 63 62 p refl refl refl found, last p)
  where
    start : Top w 0 (63, w)
    start = record { s = 0; place = refl; shifted = omega arith; word = lt; top = omega arith }

    p : ℕ × ℕ
    p = raise_high 2 (raise_high 4 (raise_high 8 (raise_high 16 (raise_high 32 (63, w)))))

    found : Top w 62 p
    found = raise_high_lem w 2 62 60 _ refl refl refl (
        raise_high_lem w 4 60 56 _ refl refl refl (
          raise_high_lem w 8 56 48 _ refl refl refl (
            raise_high_lem w 16 48 32 _ refl refl refl
              (raise_high_lem w 32 32 0 (63, w) refl refl refl start))))

    last :
        (q : ℕ × ℕ)
        → (if bit_and q.1 (complement 0 <<< 63) == 0 then q.0 - 1 else q.0) ≡ (raise_high 1 q).0
    last q = elim (Bool-cases (bit_and q.1 (complement 0 <<< 63) == 0)) [
      | inl e ↦ rw e refl
      | inr e ↦ rw e refl
    ]

-- For a word that is not 0, `__fls` returns the exponent of the power of two at or below it.
pub fls_word_lem :
    (w : ℕ) → w ≢ 0 → w < word_mod → (2 ^ fls_word w ≤ w) × (w < 2 ^ (fls_word w + 1))
fls_word_lem w ne lt =
    let (p, t, e) = fls_word-Top w ne lt in
    rw e (exponent w p.0 t.s t.place (rw (← t.shifted) t.top) (rw (← t.shifted) t.word))
