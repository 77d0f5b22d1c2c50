-- ===== src/Common/Words.antt =====
-- Machine words: byte order, and the integer that a 32-bit pattern stands for.
use Prim.Native.Nat.{ℕ, ◌+◌, ◌-◌, ◌*◌, ◌/◌, ◌%◌, ◌^◌, ◌<◌}
use mathlib.Core.Path.{◌≡◌, refl}
use mathlib.Core.List.{[], ◌∷◌}
use native.Mathlib.Omega.{arith}
use async_sctp.Common.Lists.{ltb, if◌then◌else◌, Bytes}

-- `negsuc n` is -(n + 1).
pub data ℤ : Type 0 where
  pos : ℕ → ℤ
  negsuc : ℕ → ℤ

-- The `i32` with these 32 bits.
abbrev pub signed32 : ℕ → ℤ
signed32 w = if ltb w (2 ^ 31) then pos w else negsuc (2 ^ 32 - w - 1)

-- `x as c_int` of an unsigned number: the low 32 bits, read as an `i32`.
abbrev pub as_c_int : ℕ → ℤ
as_c_int x = signed32 (x % 2 ^ 32)

-- The order in which the machine stores the bytes of a number.
pub data Endian : Type 0 where
  little big : Endian

-- The number whose bytes in memory these are.
abbrev pub from_ne_bytes16 : Endian → ℕ × ℕ → ℕ
from_ne_bytes16 little (a, b) = a + 256 * b
from_ne_bytes16 big (a, b) = b + 256 * a

abbrev pub from_ne_bytes32 : Endian → ℕ × ℕ × ℕ × ℕ → ℕ
from_ne_bytes32 little (a, b, c, d) = a + 256 * b + 65536 * c + 16777216 * d
from_ne_bytes32 big (a, b, c, d) = d + 256 * c + 65536 * b + 16777216 * a

-- The bytes in memory of a number.
abbrev pub to_ne_bytes16 : Endian → ℕ → Bytes
to_ne_bytes16 little x = x % 256 ∷ x / 256 % 256 ∷ []
to_ne_bytes16 big x = x / 256 % 256 ∷ x % 256 ∷ []

abbrev pub to_ne_bytes32 : Endian → ℕ → Bytes
to_ne_bytes32 little x = x % 256 ∷ x / 256 % 256 ∷ x / 65536 % 256 ∷ x / 16777216 % 256 ∷ []
to_ne_bytes32 big x = x / 16777216 % 256 ∷ x / 65536 % 256 ∷ x / 256 % 256 ∷ x % 256 ∷ []

-- `Ipv4Addr::from(u32)`: the four octets, the most significant first.
abbrev pub octets_of : ℕ → ℕ × ℕ × ℕ × ℕ
octets_of x = (x / 16777216 % 256, x / 65536 % 256, x / 256 % 256, x % 256)

-- `to_be` and `from_be` of `u16` and `u32`: they swap the bytes on a little-endian machine.
abbrev pub to_be16 : Endian → ℕ → ℕ
to_be16 little x = x % 256 * 256 + x / 256 % 256
to_be16 big x = x

abbrev pub to_be32 : Endian → ℕ → ℕ
to_be32 little x =
    x % 256 * 16777216 + x / 256 % 256 * 65536 + x / 65536 % 256 * 256 + x / 16777216 % 256
to_be32 big x = x

abbrev pub from_be16 : Endian → ℕ → ℕ
from_be16 = to_be16

abbrev pub from_be32 : Endian → ℕ → ℕ
from_be32 = to_be32

pub from_be16-to_be16 : (e : Endian) (x : ℕ) → x < 2 ^ 16 → from_be16 e (to_be16 e x) ≡ x
from_be16-to_be16 little x h = omega arith
from_be16-to_be16 big x h = refl

pub from_be32-to_be32 : (e : Endian) (x : ℕ) → x < 2 ^ 32 → from_be32 e (to_be32 e x) ≡ x
from_be32-to_be32 little x h = omega arith
from_be32-to_be32 big x h = refl

pub to_be16-lt : (e : Endian) (x : ℕ) → x < 2 ^ 16 → to_be16 e x < 2 ^ 16
to_be16-lt little x h = omega arith
to_be16-lt big x h = h

pub to_be32-lt : (e : Endian) (x : ℕ) → x < 2 ^ 32 → to_be32 e x < 2 ^ 32
to_be32-lt little x h = omega arith
to_be32-lt big x h = h

-- A number from its bytes, the lowest first.
pub u16-bytes : (x : ℕ) → x < 2 ^ 16 → x % 256 + 256 * (x / 256 % 256) ≡ x
u16-bytes x h = omega arith

pub u32-bytes :
    (x : ℕ)
    → x < 2 ^ 32
    → x % 256 + 256 * (x / 256 % 256) + 65536 * (x / 65536 % 256) + 16777216 * (x / 16777216 % 256)
      ≡ x
u32-bytes x h = omega arith
