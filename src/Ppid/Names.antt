-- ===== src/Ppid/Names.antt =====
-- What a reader gets back from the names of src/ppid.rs.
use async_sctp.Common.{
  ℕ, zero, suc, ◌<◌, ◌+◌, ◌-◌, ◌*◌, ◌/◌, ◌%◌, ◌≡◌, refl, ap, ◌∙◌, arith, Bool, Bool-cases, not, inl,
  inr, true, ltb, leb, List, [], ◌∷◌, ◌++◌, append_assoc, ◌==◌, ◌&&◌, if◌then◌else◌, Text, codes,
  decimal, digit,
}
use async_sctp.Common.Format.{digits_onto}
use async_sctp.Ppid.{registry, row_of, name, display, display_as}

abbrev is_digit : ℕ → Bool
is_digit c = leb b'0' c && leb c b'9'

-- The number whose first digits are those of `v`, and whose further ones begin the text.
unfoldable read_onto : ℕ → Text → ℕ
read_onto v [] = v
read_onto v (c ∷ t) = let more = read_onto (v * 10 + (c - b'0')) t in if is_digit c then more else v

-- The number behind the first parenthesis of a text.
unfoldable pub number_of : Text → ℕ
unfolding read_onto
number_of [] = 0
number_of (c ∷ t) = let more = number_of t in if c == b'(' then read_onto 0 t else more

read_onto-digit :
    (v d : ℕ) (t : Text) → d < 10 → read_onto v ((b'0' + d) ∷ t) ≡ read_onto (v * 10 + d) t
unfolding read_onto
read_onto-digit v d t h = ground arith

digit_lem : (d : ℕ) → d < 10 → digit d ≡ b'0' + d
digit_lem d h = ground arith

read_onto-div_mod :
    (n : ℕ) (out : Text) → read_onto (n / 10) (digit (n % 10) ∷ out) ≡ read_onto n out
read_onto-div_mod n out =
    let recomposed : n / 10 * 10 + n % 10 ≡ n = omega arith in
    rw (
      digit_lem (n % 10) (omega arith),
      read_onto-digit (n / 10) (n % 10) out (omega arith),
      recomposed,
    )

-- Reading the digits of a number before a text is reading on from the number.
read_onto-digits_onto :
    (fuel n : ℕ) (out : Text) → n < fuel → read_onto 0 (digits_onto 10 fuel n out) ≡ read_onto n out
unfolding digits_onto
read_onto-digits_onto zero n out h = ground arith
read_onto-digits_onto (suc fuel) n out h = elim (Bool-cases (ltb n 10)) [
  | inl e ↦
      rw e (read_onto-digit 0 n out (ground arith) ∙ ap (λ (v : ℕ). read_onto v out) (omega arith))
  | inr e ↦ rw e (
      read_onto-digits_onto fuel (n / 10) (digit (n % 10) ∷ out) (ground arith)
      ∙ read_onto-div_mod n out)
]

digits_onto-append :
    (fuel n : ℕ) (out rest : Text)
    → digits_onto 10 fuel n out ++ rest ≡ digits_onto 10 fuel n (out ++ rest)
unfolding digits_onto
digits_onto-append zero n out rest = refl
digits_onto-append (suc fuel) n out rest = elim (Bool-cases (ltb n 10)) [
  | inl e ↦ rw e
  | inr e ↦ rw e (digits_onto-append fuel (n / 10) (digit (n % 10) ∷ out) rest)
]

append-decimal : (n : ℕ) (rest : Text) → decimal n ++ rest ≡ digits_onto 10 (suc n) n rest
unfolding decimal
append-decimal n rest = digits_onto-append (suc n) n [] rest

number_of-decimal : (n : ℕ) → number_of (codes "(" ++ (decimal n ++ codes ")")) ≡ n
unfolding number_of read_onto
number_of-decimal n =
    rw (append-decimal n (codes ")")) (read_onto-digits_onto (suc n) n (codes ")") (omega arith))

-- A text without an opening parenthesis.
abbrev is_plain : Text → Bool
is_plain [] = true
is_plain (c ∷ t) = not (c == b'(') && is_plain t

number_of-append :
    (s t : Text)
    → is_plain s ≡ true
    → number_of (s ++ (codes "(" ++ t)) ≡ number_of (codes "(" ++ t)
unfolding number_of
number_of-append [] t e = refl
number_of-append (c ∷ s) t e = elim (Bool-cases (c == b'(')) [
  | inl f ↦ (ground arith)
  | inr f ↦ rw f (number_of-append s t (ground arith))
]

number_of-shown :
    (s : Text) (n : ℕ)
    → is_plain s ≡ true
    → number_of (s ++ codes "(" ++ decimal n ++ codes ")") ≡ n
number_of-shown s n e =
    rw
      (
        append_assoc (s ++ codes "(") (decimal n) (codes ")"),
        append_assoc s (codes "(") (decimal n ++ codes ")"),
      )
      (number_of-append s (decimal n ++ codes ")") e ∙ number_of-decimal n)

abbrev are_plain : List (ℕ × Text) → Bool
are_plain [] = true
are_plain ((n, s) ∷ rows) = is_plain s && are_plain rows

number_of-display_as :
    (rows : List (ℕ × Text)) (n : ℕ)
    → are_plain rows ≡ true
    → number_of (display_as (row_of rows n) n) ≡ n
number_of-display_as [] n e = number_of-shown (codes "PPID") n refl
number_of-display_as ((k, s) ∷ rows) n e = elim (Bool-cases (n == k)) [
  | inl f ↦ rw f (number_of-shown s n (ground arith))
  | inr f ↦ rw f (number_of-display_as rows n (ground arith))
]

-- The number in what `display` gives, between the parentheses, is the identifier.
pub number_of-display : (n : ℕ) → number_of (display n) ≡ n
unfolding display name
number_of-display n = number_of-display_as registry n refl
