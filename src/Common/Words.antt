-- ===== src/Common/Words.antt =====
-- Machine words as native numbers below 2 ^ w. An `i32` is its two's complement bit pattern, below
-- 2 ^ 32. Arithmetic wraps, as in a release build.
use Prim.Native.Nat.{ℕ, ◌+◌, ◌*◌, ◌/◌, ◌%◌, ◌^◌, ◌<◌}
use mathlib.Core.Path.{◌≡◌}
use mathlib.Core.Bool.{Bool, ◌&&◌}
use mathlib.Core.List.{List, [], ◌∷◌}
use native.Mathlib.Omega.{arith}
use kcp_scream_testspace.Common.Logic.{ltb, leb}

abbrev pub u8 : ℕ → ℕ
u8 x = x % 2 ^ 8

abbrev pub u16 : ℕ → ℕ
u16 x = x % 2 ^ 16

abbrev pub u32 : ℕ → ℕ
u32 x = x % 2 ^ 32

-- `usize` on a 64-bit target.
abbrev pub u64 : ℕ → ℕ
u64 x = x % 2 ^ 64

abbrev pub IsU8 : ℕ → Type 0
IsU8 x = x < 2 ^ 8

abbrev pub IsU16 : ℕ → Type 0
IsU16 x = x < 2 ^ 16

abbrev pub IsU32 : ℕ → Type 0
IsU32 x = x < 2 ^ 32

-- The sign of an `i32` given by its bit pattern.
abbrev pub is_negative : ℕ → Bool
is_negative w = leb (2 ^ 31) w

abbrev pub is_positive : ℕ → Bool
is_positive w = leb 1 w && ltb w (2 ^ 31)

-- The little-endian encodings that `bytes` gives to `u16` and `u32`.
unfoldable pub put_u16_le : ℕ → List ℕ
put_u16_le x = x % 256 ∷ x / 256 % 256 ∷ []

unfoldable pub put_u32_le : ℕ → List ℕ
put_u32_le x = x % 256 ∷ x / 256 % 256 ∷ x / 65536 % 256 ∷ x / 16777216 % 256 ∷ []

abbrev pub le16 : ℕ → ℕ → ℕ
le16 a b = a + 256 * b

abbrev pub le32 : ℕ → ℕ → ℕ → ℕ → ℕ
le32 a b c d = a + 256 * b + 65536 * c + 16777216 * d

pub le16-put : (x : ℕ) → IsU16 x → le16 (x % 256) (x / 256 % 256) ≡ x
le16-put x h = omega arith

pub le32-put :
    (x : ℕ) → IsU32 x → le32 (x % 256) (x / 256 % 256) (x / 65536 % 256) (x / 16777216 % 256) ≡ x
le32-put x h = omega arith
