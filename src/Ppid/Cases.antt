-- ===== src/Ppid/Cases.antt =====
-- The unit tests of src/ppid.rs.
use async_sctp.Common.{ℕ, ◌≡◌, refl, Bool, true, false, ◌&&◌, Option, none, some, Text, codes, same}
use async_sctp.Ppid.{m3ua, m2pa, ngap, s1ap, diameter, name, display}

abbrev is_some : Option Text → Text → Bool
is_some none text = false
is_some (some t) text = same t text

abbrev is_none : Option Text → Bool
is_none none = true
is_none (some t) = false

unfoldable well_known_names : Bool
well_known_names =
    is_some (name m3ua) (codes "M3UA")
    && is_some (name m2pa) (codes "M2PA")
    && is_some (name ngap) (codes "NGAP")
    && is_some (name s1ap) (codes "S1AP")
    && is_some (name diameter) (codes "DIAMETER")
    && is_none (name 99999)

unfoldable display_format : Bool
display_format =
    same (display ngap) (codes "NGAP(60)") && same (display 99999) (codes "PPID(99999)")

names_known : well_known_names ≡ true
unfolding well_known_names name
names_known = refl

formats : display_format ≡ true
unfolding display_format display name async_sctp.Common.decimal async_sctp.Common.Format.digits_onto
formats = refl
