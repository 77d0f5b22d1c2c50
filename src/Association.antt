-- ===== src/Association.antt =====
-- src/association.rs: the state of an association, its send options and what a receive returns.
-- The child modules have its operations.
pub mod Addrs
pub mod Connect
pub mod Lifetime
pub mod Receive
pub mod Send
pub mod Shared
use async_sctp.Common.{ℕ, Bool, true, false, Bytes, bit_or, if◌then◌else◌}
use async_sctp.Sys.{sctp_unordered, sctp_abort, sctp_eof}
use async_sctp.Kernel.{Fd}
use async_sctp.Notification.{
  AssocChangeState, comm_lost, shutdown_comp, cant_str_assoc, comm_up, restart, unknown_state,
  Notification, assoc_change, shutdown, send_failed, unknown,
}
use async_sctp.Types.{RecvInfo}
use async_sctp.Recv.{Reassembly, empty}

-- `ended` says whether the semaphore is closed: it never has a permit.
pub record SctpAssociation : Type 0 where
  pub fd : Fd
  pub recv_state : Reassembly
  pub ended : Bool

-- An association on a registered descriptor.
abbrev pub fresh : Fd → SctpAssociation
fresh fd = record { fd = fd; recv_state = empty; ended = false }

pub record SendOptions : Type 0 where
  pub unordered : Bool
  pub ttl_ms : ℕ
  pub abort : Bool
  pub eof : Bool

abbrev pub default_options : SendOptions
default_options = record { unordered = false; ttl_ms = 0; abort = false; eof = false }

unfoldable pub unordered : SendOptions → Bool → SendOptions
unordered o v = record o { unordered = v }

unfoldable pub ttl_ms : SendOptions → ℕ → SendOptions
ttl_ms o ms = record o { ttl_ms = ms }

unfoldable pub sinfo_flags : SendOptions → ℕ
sinfo_flags o =
    let f0 : ℕ = 0 in
    let f1 = if o.unordered then bit_or f0 sctp_unordered else f0 in
    let f2 = if o.abort then bit_or f1 sctp_abort else f1 in
    if o.eof then bit_or f2 sctp_eof else f2

abbrev pub state_ends : AssocChangeState → Bool
state_ends comm_lost = true
state_ends shutdown_comp = true
state_ends cant_str_assoc = true
state_ends comm_up = false
state_ends restart = false
state_ends (unknown_state v) = false

unfoldable pub ends : Notification → Bool
ends (assoc_change change) = state_ends change.state
ends (shutdown id) = false
ends (send_failed id) = false
ends (unknown t) = false

pub data RecvResult : Type 0 where
  message : Bytes → RecvInfo → RecvResult
  notice : Notification → RecvResult
