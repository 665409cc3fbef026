-- ===== src/Bits/Word.antt =====
-- 64-bit words of C as numbers below 2 ^ 64. A shift by 64 or more is undefined in C.
use new_explorer_aios.Prelude.{ℕ, ◌+◌, ◌-◌, ◌*◌, ◌/◌, ◌%◌, ◌^◌, ◌<◌, ◌≡◌}
use native.Mathlib.Nat.{mod-eq_of_lt}

abbrev pub word_mod : ℕ
word_mod = 2 ^ 64

infixl 75 ◌<<<◌ ◌>>>◌
-- `x << k` and `x >> k` of an unsigned 64-bit value.
abbrev pub ◌<<<◌ : ℕ → ℕ → ℕ
x <<< k = x * 2 ^ k % word_mod

abbrev pub ◌>>>◌ : ℕ → ℕ → ℕ
x >>> k = x / 2 ^ k

-- `~x`.
abbrev pub complement : ℕ → ℕ
complement x = word_mod - 1 - x

-- `a + b` and `a - b`, which wrap around.
abbrev pub add64 : ℕ → ℕ → ℕ
add64 a b = (a + b) % word_mod

abbrev pub sub64 : ℕ → ℕ → ℕ
sub64 a b = (a + word_mod - b % word_mod) % word_mod

pub shl_lem : (x k : ℕ) → x * 2 ^ k < word_mod → x <<< k ≡ x * 2 ^ k
shl_lem x k h = mod-eq_of_lt h
