-- ===== src/Base/Word.antt =====
-- Machine words as native numbers. An s32 is kept as its 32-bit two's complement pattern, so that
-- the C code's conversions between s32 and u32 are the identity, and `x < 0` is the top bit.
use Prim.Native.Nat.{ℕ, ◌+◌, ◌-◌, ◌%◌, ◌^◌}
use mathlib.Core.Bool.{Bool}
use scx_goland_core.Base.Tests.{leb}

-- Wrapping u64 addition and subtraction.
abbrev pub add64 : ℕ → ℕ → ℕ
add64 a b = (a + b) % 2 ^ 64

abbrev pub sub64 : ℕ → ℕ → ℕ
sub64 a b = (a + 2 ^ 64 - b) % 2 ^ 64

-- `x < 0` of an s32.
abbrev pub is_neg : ℕ → Bool
is_neg x = leb (2 ^ 31) x

-- `-e` of a small error number, as an s32.
abbrev pub neg : ℕ → ℕ
neg e = 2 ^ 32 - e

abbrev pub enoent : ℕ
enoent = 2

abbrev pub esrch : ℕ
esrch = 3

abbrev pub enomem : ℕ
enomem = 12

abbrev pub ebusy : ℕ
ebusy = 16

abbrev pub einval : ℕ
einval = 22
