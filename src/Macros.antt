-- ===== src/Macros.antt =====
-- The bit manipulation macros of source/tensor_struct.h, lines 65 to 96, on 64-bit words. A macro
-- that assigns to its first argument returns the new value.
pub mod Laws
pub mod Single
use new_explorer_aios.Prelude.{ℕ, ◌-◌, ◌^◌, bit_and, bit_or}
use new_explorer_aios.Bits.Word.{◌<<<◌, ◌>>>◌, complement, add64, sub64}

-- `BIT(x)` and `MASK(x)`.
unfoldable pub bit : ℕ → ℕ
bit x = 1 <<< x

unfoldable pub mask : ℕ → ℕ
unfolding bit
mask x = sub64 (bit x) 1

-- `BM(base, count, val)`: the low `count` digits of `val`, moved to `base`.
unfoldable pub bm : ℕ → ℕ → ℕ → ℕ
bm base count val = bit_and val (sub64 (1 <<< count) 1) <<< base

-- `AM(base, count)`: the mask of `count` digits at `base`.
unfoldable pub am : ℕ → ℕ → ℕ
am base count = sub64 (1 <<< count) 1 <<< base

unfoldable pub su : ℕ → ℕ → ℕ
su me val = bit_or me val

unfoldable pub cu : ℕ → ℕ → ℕ
cu me val = bit_and me (complement val)

unfoldable pub gu : ℕ → ℕ → ℕ
gu me m = bit_and me m

unfoldable pub mu : ℕ → ℕ → ℕ → ℕ
unfolding gu
mu me m val = bit_or (bit_and me (complement (gu me m))) val

unfoldable pub gub : ℕ → ℕ → ℕ → ℕ
gub me m base = bit_and me m >>> base

unfoldable pub gui : ℕ → ℕ → ℕ → ℕ → ℕ
unfolding gub
gui me m base val = add64 (gub me m base) val

unfoldable pub gud : ℕ → ℕ → ℕ → ℕ → ℕ
unfolding gub
gud me m base val = sub64 (gub me m base) val

-- Set, get, clear and modify the field of `count` digits at `base`.
unfoldable pub sr : ℕ → ℕ → ℕ → ℕ → ℕ
unfolding su bm
sr me base count val = su me (bm base count val)

unfoldable pub gr : ℕ → ℕ → ℕ → ℕ
unfolding gu am
gr me base count = gu me (am base count) >>> base

unfoldable pub cr : ℕ → ℕ → ℕ → ℕ → ℕ
unfolding cu bm
cr me base count val = cu me (bm base count val)

unfoldable pub zr : ℕ → ℕ → ℕ → ℕ
unfolding cu am
zr me base count = cu me (am base count)

unfoldable pub mr : ℕ → ℕ → ℕ → ℕ → ℕ
unfolding mu am bm
mr me base count val = mu me (am base count) (bm base count val)

unfoldable pub ir : ℕ → ℕ → ℕ → ℕ → ℕ
unfolding mu am bm gui
ir me base count val = mu me (am base count) (bm base count (gui me (am base count) base val))

unfoldable pub dr : ℕ → ℕ → ℕ → ℕ → ℕ
unfolding mu am bm gud
dr me base count val = mu me (am base count) (bm base count (gud me (am base count) base val))

-- Set, get and clear one digit.
unfoldable pub sb : ℕ → ℕ → ℕ
unfolding bit
sb me base = bit_or me (bit base)

unfoldable pub gb : ℕ → ℕ → ℕ
unfolding bit
gb me base = bit_and me (bit base) >>> base

unfoldable pub cb : ℕ → ℕ → ℕ
unfolding bit
cb me base = bit_and me (complement (bit base))
