-- ===== src/Sys.antt =====
-- src/sys.rs: the constants and the C structures of the kernel's SCTP interface.
use async_sctp.Common.{ℕ, ℤ}

abbrev pub ipproto_sctp : ℕ
ipproto_sctp = 132

abbrev pub sol_sctp : ℕ
sol_sctp = 132

abbrev pub sctp_initmsg : ℕ
sctp_initmsg = 2

abbrev pub sctp_nodelay : ℕ
sctp_nodelay = 3

abbrev pub sctp_autoclose : ℕ
sctp_autoclose = 4

abbrev pub sctp_events : ℕ
sctp_events = 11

abbrev pub sctp_bindx_add_addr : ℕ
sctp_bindx_add_addr = 1

abbrev pub sctp_unordered : ℕ
sctp_unordered = 1

abbrev pub sctp_abort : ℕ
sctp_abort = 4

abbrev pub sctp_eof : ℕ
sctp_eof = 0x200

abbrev pub sctp_sn_type_base : ℕ
sctp_sn_type_base = 0x8000

abbrev pub sctp_assoc_change : ℕ
sctp_assoc_change = 0x8001

abbrev pub sctp_send_failed : ℕ
sctp_send_failed = 0x8004

abbrev pub sctp_shutdown_event : ℕ
sctp_shutdown_event = 0x8005

abbrev pub sctp_comm_up : ℕ
sctp_comm_up = 0

abbrev pub sctp_comm_lost : ℕ
sctp_comm_lost = 1

abbrev pub sctp_restart : ℕ
sctp_restart = 2

abbrev pub sctp_shutdown_comp : ℕ
sctp_shutdown_comp = 3

abbrev pub sctp_cant_str_assoc : ℕ
sctp_cant_str_assoc = 4

abbrev pub msg_notification : ℕ
msg_notification = 0x8000

abbrev pub msg_eor : ℕ
msg_eor = 0x80

pub record SctpInitMsg : Type 0 where
  pub sinit_num_ostreams : ℕ
  pub sinit_max_instreams : ℕ
  pub sinit_max_attempts : ℕ
  pub sinit_max_init_timeo : ℕ

pub record SctpSndRcvInfo : Type 0 where
  pub sinfo_stream : ℕ
  pub sinfo_ssn : ℕ
  pub sinfo_flags : ℕ
  pub sinfo_ppid : ℕ
  pub sinfo_context : ℕ
  pub sinfo_timetolive : ℕ
  pub sinfo_tsn : ℕ
  pub sinfo_cumtsn : ℕ
  pub sinfo_assoc_id : ℤ

pub record SctpEventSubscribe : Type 0 where
  pub sctp_data_io_event : ℕ
  pub sctp_association_event : ℕ
  pub sctp_address_event : ℕ
  pub sctp_send_failure_event : ℕ
  pub sctp_peer_error_event : ℕ
  pub sctp_shutdown_event : ℕ
  pub sctp_partial_delivery_event : ℕ
  pub sctp_adaptation_layer_event : ℕ
  pub sctp_authentication_event : ℕ
  pub sctp_sender_dry_event : ℕ
  pub sctp_stream_reset_event : ℕ
  pub sctp_assoc_reset_event : ℕ
  pub sctp_stream_change_event : ℕ
  pub sctp_send_failure_event_event : ℕ

-- `SctpEventSubscribe::default`.
abbrev pub default_events : SctpEventSubscribe
default_events = record {
  sctp_data_io_event = 1;
  sctp_association_event = 1;
  sctp_address_event = 0;
  sctp_send_failure_event = 1;
  sctp_peer_error_event = 0;
  sctp_shutdown_event = 1;
  sctp_partial_delivery_event = 0;
  sctp_adaptation_layer_event = 0;
  sctp_authentication_event = 0;
  sctp_sender_dry_event = 0;
  sctp_stream_reset_event = 0;
  sctp_assoc_reset_event = 0;
  sctp_stream_change_event = 0;
  sctp_send_failure_event_event = 0;
}

-- `SctpAssocChange`, without the variable part that may follow.
pub record SctpAssocChange : Type 0 where
  pub sac_type : ℕ
  pub sac_flags : ℕ
  pub sac_length : ℕ
  pub sac_state : ℕ
  pub sac_error : ℕ
  pub sac_outbound_streams : ℕ
  pub sac_inbound_streams : ℕ
  pub sac_assoc_id : ℤ

pub record SctpShutdownEvent : Type 0 where
  pub sse_type : ℕ
  pub sse_flags : ℕ
  pub sse_length : ℕ
  pub sse_assoc_id : ℤ
