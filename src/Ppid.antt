-- ===== src/Ppid.antt =====
-- src/ppid.rs: the registry of payload protocol identifiers.
pub mod Cases
pub mod Names
use async_sctp.Common.{
  ℕ, List, [], ◌∷◌, ◌++◌, Option, none, some, ◌==◌, if◌then◌else◌, Text, codes, decimal,
}

abbrev pub unspecified : ℕ
unspecified = 0

abbrev pub iua : ℕ
iua = 1

abbrev pub m2ua : ℕ
m2ua = 2

abbrev pub m3ua : ℕ
m3ua = 3

abbrev pub sua : ℕ
sua = 4

abbrev pub m2pa : ℕ
m2pa = 5

abbrev pub v5ua : ℕ
v5ua = 6

abbrev pub h248 : ℕ
h248 = 7

abbrev pub bicc : ℕ
bicc = 8

abbrev pub tali : ℕ
tali = 9

abbrev pub dua : ℕ
dua = 10

abbrev pub asap : ℕ
asap = 11

abbrev pub enrp : ℕ
enrp = 12

abbrev pub s1ap : ℕ
s1ap = 18

abbrev pub x2ap : ℕ
x2ap = 27

abbrev pub ngap : ℕ
ngap = 60

abbrev pub xnap : ℕ
xnap = 61

abbrev pub f1ap : ℕ
f1ap = 62

abbrev pub e1ap : ℕ
e1ap = 64

abbrev pub diameter : ℕ
diameter = 46

abbrev pub diameter_dtls : ℕ
diameter_dtls = 47

-- The rows of `name`, in its order.
abbrev pub registry : List (ℕ × Text)
registry =
    (unspecified, codes "UNSPECIFIED")
    ∷ (iua, codes "IUA")
    ∷ (m2ua, codes "M2UA")
    ∷ (m3ua, codes "M3UA")
    ∷ (sua, codes "SUA")
    ∷ (m2pa, codes "M2PA")
    ∷ (v5ua, codes "V5UA")
    ∷ (h248, codes "H248")
    ∷ (bicc, codes "BICC")
    ∷ (tali, codes "TALI")
    ∷ (dua, codes "DUA")
    ∷ (asap, codes "ASAP")
    ∷ (enrp, codes "ENRP")
    ∷ (s1ap, codes "S1AP")
    ∷ (x2ap, codes "X2AP")
    ∷ (ngap, codes "NGAP")
    ∷ (xnap, codes "XNAP")
    ∷ (f1ap, codes "F1AP")
    ∷ (e1ap, codes "E1AP")
    ∷ (diameter, codes "DIAMETER")
    ∷ (diameter_dtls, codes "DIAMETER_DTLS")
    ∷ []

-- The first row of a table for the identifier.
abbrev pub row_of : List (ℕ × Text) → ℕ → Option Text
row_of [] ppid = none
row_of ((n, s) ∷ rows) ppid = if ppid == n then some s else row_of rows ppid

unfoldable pub name : ℕ → Option Text
name ppid = row_of registry ppid

abbrev pub display_as : Option Text → ℕ → Text
display_as (some n) ppid = n ++ codes "(" ++ decimal ppid ++ codes ")"
display_as none ppid = codes "PPID(" ++ decimal ppid ++ codes ")"

unfoldable pub display : ℕ → Text
display ppid = display_as (name ppid) ppid
