-- ===== src/Common/Format.antt =====
-- Text as its bytes (every text of the crate is ASCII), and numbers written in a base.
use Prim.Native.Nat.{ℕ, zero, suc, ◌+◌, ◌-◌, ◌/◌, ◌%◌}
use Prim.Native.Char.{code}
use Prim.Native.String.{String}
use mathlib.Core.Bool.{Bool, true, false, ◌&&◌}
use mathlib.Core.List.{[], ◌∷◌, ◌++◌}
use async_sctp.Common.Lists.{◌==◌, Bytes, ltb, length, replicate, if◌then◌else◌}
use async_sctp.Common.Words.{ℤ, pos, negsuc}

abbrev pub Text : Type 0
Text = Bytes

abbrev pub codes : String → Text
codes String.[] = []
codes (String.◌∷◌ c s) = code c ∷ codes s

-- One digit, in lower case beyond nine.
abbrev pub digit : ℕ → ℕ
digit d = if ltb d 10 then b'0' + d else b'a' + (d - 10)

-- The digits of `n` before `out`. A number has at most as many digits as one more than itself.
unfoldable pub digits_onto : ℕ → ℕ → ℕ → Text → Text
digits_onto base zero n out = out
digits_onto base (suc fuel) n out =
    let more = digits_onto base fuel (n / base) (digit (n % base) ∷ out) in
    if ltb n base then digit n ∷ out else more

-- `{n}` of a format string.
unfoldable pub decimal : ℕ → Text
unfolding digits_onto
decimal n = digits_onto 10 (suc n) n []

-- `{n:04x}`.
unfoldable pub hex4 : ℕ → Text
unfolding digits_onto
hex4 n = let h = digits_onto 16 (suc n) n [] in replicate (4 - length h) b'0' ++ h

-- `{n}` of an `i32`.
unfoldable pub decimal_ℤ : ℤ → Text
unfolding decimal
decimal_ℤ (pos n) = decimal n
decimal_ℤ (negsuc n) = b'-' ∷ decimal (suc n)

-- Whether two texts are equal.
abbrev pub same : Text → Text → Bool
same [] [] = true
same [] (y ∷ ys) = false
same (x ∷ xs) [] = false
same (x ∷ xs) (y ∷ ys) = (x == y) && same xs ys
