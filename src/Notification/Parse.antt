-- ===== src/Notification/Parse.antt =====
-- The parser against what the kernel writes.
use async_sctp.Common.{
  u16-bytes, u32-bytes, ltb→lt, ltb_false→le, Bool-cases, inl, inr, ◌⊎◌, ltb, if◌then◌else◌, ℕ, ◌+◌,
  ◌*◌, ◌/◌, ◌%◌, ap, ◌∙◌, ◌-◌, ◌<◌, ◌≤◌, ◌^◌, ◌≡◌, refl, ◌++◌, arith, Bytes, ℤ, pos, negsuc,
  signed32, length, le→ltb_false, Endian, little, big, to_ne_bytes16, to_ne_bytes32,
}
use async_sctp.Sys.{
  sctp_send_failed, SctpAssocChange, SctpShutdownEvent, sctp_assoc_change, sctp_shutdown_event,
}
use async_sctp.Notification.{
  AssocChangeState, comm_up, comm_lost, restart, shutdown_comp, cant_str_assoc, unknown_state,
  Notification, assoc_change, shutdown, send_failed, unknown, state_from, event_of,
  read_assoc_change, read_shutdown_event, parse_body, parse_notification, size_header,
  size_assoc_change, size_shutdown_event, u16_at, i32_at,
}

-- The 32 bits of an `i32`.
abbrev pub bits32 : ℤ → ℕ
bits32 (pos n) = n
bits32 (negsuc n) = 2 ^ 32 - 1 - n

abbrev pub IsI32 : ℤ → Type 0
IsI32 (pos n) = n < 2 ^ 31
IsI32 (negsuc n) = n < 2 ^ 31

signed32-bits32 : (x : ℤ) → IsI32 x → signed32 (bits32 x) ≡ x
signed32-bits32 (pos n) h = ground arith
signed32-bits32 (negsuc n) h = ground arith

bits32-lt : (x : ℤ) → IsI32 x → bits32 x < 2 ^ 32
bits32-lt (pos n) h = omega arith
bits32-lt (negsuc n) h = omega arith

-- The bytes of a `sctp_assoc_change`, before its variable part.
abbrev pub assoc_change_bytes : Endian → SctpAssocChange → Bytes
assoc_change_bytes e s =
    to_ne_bytes16 e s.sac_type
    ++ to_ne_bytes16 e s.sac_flags
    ++ to_ne_bytes32 e s.sac_length
    ++ to_ne_bytes16 e s.sac_state
    ++ to_ne_bytes16 e s.sac_error
    ++ to_ne_bytes16 e s.sac_outbound_streams
    ++ to_ne_bytes16 e s.sac_inbound_streams
    ++ to_ne_bytes32 e (bits32 s.sac_assoc_id)

pub record IsAssocChange (s : SctpAssocChange) : Type 0 where
  pub type : s.sac_type ≡ sctp_assoc_change
  pub state : s.sac_state < 2 ^ 16
  pub error : s.sac_error < 2 ^ 16
  pub outbound : s.sac_outbound_streams < 2 ^ 16
  pub inbound : s.sac_inbound_streams < 2 ^ 16
  pub assoc_id : IsI32 s.sac_assoc_id

i32-bytes :
    (x : ℤ)
    → IsI32 x
    → let n = bits32 x in
      signed32 (
        n % 256
        + 256 * (n / 256 % 256)
        + 65536 * (n / 65536 % 256)
        + 16777216 * (n / 16777216 % 256))
      ≡ x
i32-bytes x h = ap signed32 (u32-bytes (bits32 x) (bits32-lt x h)) ∙ signed32-bits32 x h

event_of-read :
    (e : Endian) (s : SctpAssocChange) (info : Bytes)
    → IsAssocChange s
    → event_of e (read_assoc_change e (assoc_change_bytes e s ++ info)) ≡ event_of e s
unfolding read_assoc_change
event_of-read little s info h = cc (
  u16-bytes s.sac_state h.state,
  u16-bytes s.sac_error h.error,
  u16-bytes s.sac_outbound_streams h.outbound,
  u16-bytes s.sac_inbound_streams h.inbound,
  i32-bytes s.sac_assoc_id h.assoc_id,
)
event_of-read big s info h = cc (
  u16-bytes s.sac_state h.state,
  u16-bytes s.sac_error h.error,
  u16-bytes s.sac_outbound_streams h.outbound,
  u16-bytes s.sac_inbound_streams h.inbound,
  i32-bytes s.sac_assoc_id h.assoc_id,
)

parse_at_assoc_change :
    (e : Endian) (buf : Bytes)
    → size_assoc_change ≤ length buf
    → u16_at e buf 0 ≡ sctp_assoc_change
    → parse_notification e buf ≡ assoc_change (event_of e (read_assoc_change e buf))
unfolding parse_notification parse_body
parse_at_assoc_change e buf long type =
    rw (le→ltb_false (length buf) size_header (omega arith))
      (rw type (rw (le→ltb_false (length buf) size_assoc_change long)))

-- The bytes of a `sctp_assoc_change` whose fields are within their ranges, with any variable part
-- after them, parse to the event with its fields, on a machine of either byte order.
pub parse-assoc_change :
    (e : Endian) (s : SctpAssocChange) (info : Bytes)
    → IsAssocChange s
    → parse_notification e (assoc_change_bytes e s ++ info) ≡ assoc_change (event_of e s)
parse-assoc_change little s info h =
    parse_at_assoc_change little (assoc_change_bytes little s ++ info) (omega arith) (rw h.type)
    ∙ ap assoc_change (event_of-read little s info h)
parse-assoc_change big s info h =
    parse_at_assoc_change big (assoc_change_bytes big s ++ info) (omega arith) (rw h.type)
    ∙ ap assoc_change (event_of-read big s info h)

-- The bytes of a `sctp_shutdown_event`.
abbrev pub shutdown_bytes : Endian → SctpShutdownEvent → Bytes
shutdown_bytes e s =
    to_ne_bytes16 e s.sse_type
    ++ to_ne_bytes16 e s.sse_flags
    ++ to_ne_bytes32 e s.sse_length
    ++ to_ne_bytes32 e (bits32 s.sse_assoc_id)

parse_at_shutdown :
    (e : Endian) (buf : Bytes)
    → size_shutdown_event ≤ length buf
    → u16_at e buf 0 ≡ sctp_shutdown_event
    → parse_notification e buf ≡ shutdown (i32_at e buf 8)
unfolding parse_notification parse_body read_shutdown_event
parse_at_shutdown e buf long type =
    rw (le→ltb_false (length buf) size_header (omega arith))
      (rw type (rw (le→ltb_false (length buf) size_shutdown_event long)))

-- The bytes of a `sctp_shutdown_event` with an `i32` for its association, whatever follows them,
-- parse to the shutdown of that association, on a machine of either byte order.
pub parse-shutdown :
    (e : Endian) (s : SctpShutdownEvent) (rest : Bytes)
    → s.sse_type ≡ sctp_shutdown_event
    → IsI32 s.sse_assoc_id
    → parse_notification e (shutdown_bytes e s ++ rest) ≡ shutdown s.sse_assoc_id
parse-shutdown little s rest type h =
    parse_at_shutdown little (shutdown_bytes little s ++ rest) (omega arith) (rw type)
    ∙ ap shutdown (i32-bytes s.sse_assoc_id h)
parse-shutdown big s rest type h =
    parse_at_shutdown big (shutdown_bytes big s ++ rest) (omega arith) (rw type)
    ∙ ap shutdown (i32-bytes s.sse_assoc_id h)

-- What a notification says of the bytes that it was parsed from: its type is the one in the
-- header, and the structure that its fields were read from lies within the buffer.
abbrev pub Backed : Endian → Bytes → Notification → Type 0
Backed e buf (assoc_change ev) =
    (size_assoc_change ≤ length buf)
    × (u16_at e buf 0 ≡ sctp_assoc_change)
    × (ev ≡ event_of e (read_assoc_change e buf))
Backed e buf (shutdown id) =
    (size_shutdown_event ≤ length buf)
    × (u16_at e buf 0 ≡ sctp_shutdown_event)
    × (id ≡ i32_at e buf 8)
Backed e buf (send_failed id) =
    (size_header ≤ length buf)
    × (u16_at e buf 0 ≡ sctp_send_failed)
    × (id ≡ (if ltb (length buf) 12 then pos 0 else i32_at e buf 8))
Backed e buf (unknown t) =
    ((length buf < size_header) × (t ≡ 0)) ⊎ ((size_header ≤ length buf) × (t ≡ u16_at e buf 0))

parse_body-Backed :
    (e : Endian) (buf : Bytes)
    → size_header ≤ length buf
    → Backed e buf (parse_body e (u16_at e buf 0) buf)
unfolding parse_body read_shutdown_event
parse_body-Backed e buf long = ground arith

-- Every notification is backed by its buffer: no field is read beyond the end.
pub parse-Backed : (e : Endian) (buf : Bytes) → Backed e buf (parse_notification e buf)
unfolding parse_notification
parse-Backed e buf = elim (Bool-cases (ltb (length buf) size_header)) [
  | inl short ↦ rw short (inl (ltb→lt _ _ short, refl))
  | inr long ↦ rw long (parse_body-Backed e buf (ltb_false→le _ _ long))
]

-- The code of a state.
abbrev pub code_of : AssocChangeState → ℕ
code_of comm_up = 0
code_of comm_lost = 1
code_of restart = 2
code_of shutdown_comp = 3
code_of cant_str_assoc = 4
code_of (unknown_state v) = v

-- No information of the code is lost in the state.
pub code_of-state_from : (value : ℕ) → code_of (state_from value) ≡ value
unfolding state_from
code_of-state_from value = ground arith
