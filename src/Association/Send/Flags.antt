-- ===== src/Association/Send/Flags.antt =====
-- The flag word of a send.
use async_sctp.Common.{ℕ, ◌%◌, ◌^◌, ◌≡◌, refl, Bool, true, false}
use async_sctp.Sys.{sctp_unordered, sctp_abort, sctp_eof}
use async_sctp.Recv.{has_flag}
use async_sctp.Association.{SendOptions, sinfo_flags}

abbrev Spells : SendOptions → Type 0
Spells o =
    (has_flag (sinfo_flags o) sctp_unordered ≡ o.unordered)
    × (has_flag (sinfo_flags o) sctp_abort ≡ o.abort)
    × (has_flag (sinfo_flags o) sctp_eof ≡ o.eof)
    × (sinfo_flags o % 2 ^ 16 ≡ sinfo_flags o)

abbrev options : Bool → Bool → Bool → ℕ → SendOptions
options u a e ms = record { unordered = u; ttl_ms = ms; abort = a; eof = e }

spells : (u a e : Bool) (ms : ℕ) → Spells (options u a e ms)
unfolding sinfo_flags
spells true true true ms = (refl, refl, refl, refl)
spells true true false ms = (refl, refl, refl, refl)
spells true false true ms = (refl, refl, refl, refl)
spells true false false ms = (refl, refl, refl, refl)
spells false true true ms = (refl, refl, refl, refl)
spells false true false ms = (refl, refl, refl, refl)
spells false false true ms = (refl, refl, refl, refl)
spells false false false ms = (refl, refl, refl, refl)

-- Each option of a send is the bit of its own in the flag word, whatever the other options are,
-- and the word fits in the 16 bits to which the server cuts it.
pub has_flag-sinfo_flags :
    (o : SendOptions)
    → (has_flag (sinfo_flags o) sctp_unordered ≡ o.unordered)
      × (has_flag (sinfo_flags o) sctp_abort ≡ o.abort)
      × (has_flag (sinfo_flags o) sctp_eof ≡ o.eof)
      × (sinfo_flags o % 2 ^ 16 ≡ sinfo_flags o)
has_flag-sinfo_flags o = spells o.unordered o.abort o.eof o.ttl_ms
