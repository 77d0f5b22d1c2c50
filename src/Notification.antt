-- ===== src/Notification.antt =====
-- src/notification.rs: association-change states and events, notifications, their text, and the
-- parser of the bytes that the kernel delivers as a notification.
pub mod Event
pub mod Parse
use async_sctp.Common.{
  ℕ, suc, ◌+◌, ◌++◌, ◌∷◌, [], Bytes, ℤ, signed32, ltb, ◌==◌, if◌then◌else◌, length, get_or, Endian,
  from_ne_bytes16, from_ne_bytes32, Text, codes, decimal, decimal_ℤ, hex4, pos,
}
use async_sctp.Sys.{
  sctp_comm_up, sctp_comm_lost, sctp_restart, sctp_shutdown_comp, sctp_cant_str_assoc,
  sctp_assoc_change, sctp_shutdown_event, sctp_send_failed, SctpAssocChange, SctpShutdownEvent,
}

pub data AssocChangeState : Type 0 where
  comm_up comm_lost restart shutdown_comp cant_str_assoc : AssocChangeState
  unknown_state : ℕ → AssocChangeState

pub record AssocChangeEvent : Type 0 where
  pub state : AssocChangeState
  pub error : ℕ
  pub outbound_streams : ℕ
  pub inbound_streams : ℕ
  pub assoc_id : ℤ

pub data Notification : Type 0 where
  assoc_change : AssocChangeEvent → Notification
  shutdown : (assoc_id : ℤ) → Notification
  send_failed : (assoc_id : ℤ) → Notification
  unknown : (sn_type : ℕ) → Notification

-- `AssocChangeState::from(u16)`.
unfoldable pub state_from : ℕ → AssocChangeState
state_from value =
    if value == sctp_comm_up
    then comm_up
    else if value == sctp_comm_lost
    then comm_lost
    else if value == sctp_restart
    then restart
    else if value == sctp_shutdown_comp
    then shutdown_comp
    else if value == sctp_cant_str_assoc
    then cant_str_assoc
    else unknown_state value

-- The `Display` of a state, of an event and of a notification.
unfoldable pub state_text : AssocChangeState → Text
state_text comm_up = codes "COMM_UP"
state_text comm_lost = codes "COMM_LOST"
state_text restart = codes "RESTART"
state_text shutdown_comp = codes "SHUTDOWN_COMP"
state_text cant_str_assoc = codes "CANT_STR_ASSOC"
state_text (unknown_state v) = codes "UNKNOWN(" ++ decimal v ++ codes ")"

unfoldable pub event_text : AssocChangeEvent → Text
event_text e =
    codes "AssocChange [state="
    ++ state_text e.state
    ++ codes ", error="
    ++ decimal e.error
    ++ codes ", out_streams="
    ++ decimal e.outbound_streams
    ++ codes ", in_streams="
    ++ decimal e.inbound_streams
    ++ codes ", assoc_id="
    ++ decimal_ℤ e.assoc_id
    ++ codes "]"

unfoldable pub notification_text : Notification → Text
notification_text (assoc_change evt) = codes "Notification::" ++ event_text evt
notification_text (shutdown assoc_id) =
    codes "Notification::Shutdown [assoc_id=" ++ decimal_ℤ assoc_id ++ codes "]"
notification_text (send_failed assoc_id) =
    codes "Notification::SendFailed [assoc_id=" ++ decimal_ℤ assoc_id ++ codes "]"
notification_text (unknown sn_type) =
    codes "Notification::Unknown [type=0x" ++ hex4 sn_type ++ codes "]"

-- `size_of` of the C structures of `sys`: they are `repr(C)` and have no padding.
abbrev pub size_header : ℕ
size_header = 8

abbrev pub size_assoc_change : ℕ
size_assoc_change = 20

abbrev pub size_shutdown_event : ℕ
size_shutdown_event = 12

module _ (e : Endian) where
  abbrev pub u16_at : Bytes → ℕ → ℕ
  u16_at buf i = from_ne_bytes16 e (get_or buf i 0, get_or buf (suc i) 0)

  abbrev pub u32_at : Bytes → ℕ → ℕ
  u32_at buf i = from_ne_bytes32 e (
    get_or buf i 0,
    get_or buf (suc i) 0,
    get_or buf (suc (suc i)) 0,
    get_or buf (suc (suc (suc i))) 0,
  )

  abbrev pub i32_at : Bytes → ℕ → ℤ
  i32_at buf i = signed32 (u32_at buf i)

  -- The structures at the start of the buffer, by the offsets of their fields.
  unfoldable pub read_assoc_change : Bytes → SctpAssocChange
  read_assoc_change buf = record {
    sac_type = u16_at buf 0;
    sac_flags = u16_at buf 2;
    sac_length = u32_at buf 4;
    sac_state = u16_at buf 8;
    sac_error = u16_at buf 10;
    sac_outbound_streams = u16_at buf 12;
    sac_inbound_streams = u16_at buf 14;
    sac_assoc_id = i32_at buf 16;
  }

  unfoldable pub read_shutdown_event : Bytes → SctpShutdownEvent
  read_shutdown_event buf = record {
    sse_type = u16_at buf 0;
    sse_flags = u16_at buf 2;
    sse_length = u32_at buf 4;
    sse_assoc_id = i32_at buf 8;
  }

  abbrev pub event_of : SctpAssocChange → AssocChangeEvent
  event_of sac = record {
    state = state_from sac.sac_state;
    error = sac.sac_error;
    outbound_streams = sac.sac_outbound_streams;
    inbound_streams = sac.sac_inbound_streams;
    assoc_id = sac.sac_assoc_id;
  }

  -- By the type of the notification, once the header is there.
  unfoldable pub parse_body : ℕ → Bytes → Notification
  parse_body sn_type buf =
      if sn_type == sctp_assoc_change
      then (if ltb (length buf) size_assoc_change
          then unknown sn_type
          else assoc_change (event_of (read_assoc_change buf)))
      else if sn_type == sctp_shutdown_event
      then (if ltb (length buf) size_shutdown_event
          then unknown sn_type
          else shutdown (read_shutdown_event buf).sse_assoc_id)
      else if sn_type == sctp_send_failed
      then send_failed (if ltb (length buf) 12 then pos 0 else i32_at buf 8)
      else unknown sn_type

  unfoldable pub parse_notification : Bytes → Notification
  parse_notification buf =
      if ltb (length buf) size_header then unknown 0 else parse_body (u16_at buf 0) buf
