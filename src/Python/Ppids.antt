-- ===== src/Python/Ppids.antt =====
-- `PPIDS`, the payload protocol identifiers that the Python module has as constants.
use async_sctp.Common.{ℕ, List, [], ◌∷◌, Text, codes}
use async_sctp.Ppid.{iua, m2ua, m3ua, sua, m2pa, v5ua, s1ap, x2ap, ngap, xnap, f1ap, e1ap, diameter}

abbrev pub ppids : List (Text × ℕ)
ppids =
    (codes "IUA", iua)
    ∷ (codes "M2UA", m2ua)
    ∷ (codes "M3UA", m3ua)
    ∷ (codes "SUA", sua)
    ∷ (codes "M2PA", m2pa)
    ∷ (codes "V5UA", v5ua)
    ∷ (codes "S1AP", s1ap)
    ∷ (codes "X2AP", x2ap)
    ∷ (codes "NGAP", ngap)
    ∷ (codes "XNAP", xnap)
    ∷ (codes "F1AP", f1ap)
    ∷ (codes "E1AP", e1ap)
    ∷ (codes "DIAMETER", diameter)
    ∷ []
