-- ===== src/Notification/Event.antt =====
-- The event that a change of an association is parsed to, by its numbers.
use async_sctp.Common.{ℕ, ◌≤◌, ◌≡◌, refl, arith, ◌++◌, Bytes, Endian}
use async_sctp.Sys.{SctpAssocChange}
use async_sctp.Notification.{
  AssocChangeState, comm_up, comm_lost, restart, shutdown_comp, cant_str_assoc, unknown_state,
  AssocChangeEvent, Notification, assoc_change, state_from, event_of, parse_notification,
}
use async_sctp.Notification.Parse.{assoc_change_bytes, IsAssocChange, parse-assoc_change}

-- The state of a number, by the enumeration `sctp_sac_state` of the kernel.
abbrev pub StateOf : ℕ → AssocChangeState → Type 0
StateOf v comm_up = v ≡ 0
StateOf v comm_lost = v ≡ 1
StateOf v restart = v ≡ 2
StateOf v shutdown_comp = v ≡ 3
StateOf v cant_str_assoc = v ≡ 4
StateOf v (unknown_state w) = (w ≡ v) × (5 ≤ v)

state_from-StateOf : (v : ℕ) → StateOf v (state_from v)
unfolding state_from
state_from-StateOf v = ground arith

-- The notification is the event that the structure says.
pub record Tells (s : SctpAssocChange) (n : Notification) : Type 0 where
  pub event : AssocChangeEvent
  pub is_event : n ≡ assoc_change event
  pub state : StateOf s.sac_state event.state
  pub error : event.error ≡ s.sac_error
  pub outbound : event.outbound_streams ≡ s.sac_outbound_streams
  pub inbound : event.inbound_streams ≡ s.sac_inbound_streams
  pub assoc_id : event.assoc_id ≡ s.sac_assoc_id

-- The bytes of a `sctp_assoc_change` whose fields are within their ranges, its fields one after
-- the other in either byte order and any variable part after them, parse to an event of an
-- association change. Its state is that of the number in the enumeration of the kernel, or the
-- unknown one with that number beyond it; its error, its outbound streams, its inbound streams and
-- its association are those of the structure.
pub parse-Tells :
    (e : Endian) (s : SctpAssocChange) (info : Bytes)
    → IsAssocChange s
    → Tells s (parse_notification e (assoc_change_bytes e s ++ info))
parse-Tells e s info is = record {
  event = event_of e s;
  is_event = parse-assoc_change e s info is;
  state = state_from-StateOf s.sac_state;
  error = refl;
  outbound = refl;
  inbound = refl;
  assoc_id = refl;
}
