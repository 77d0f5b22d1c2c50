-- ===== src/Server.antt =====
-- src/server.rs: `SctpServer`, a one-to-many socket. Which outcome each `readable().await` or
-- `writable().await` has is an argument; where the list ends the future is still waiting.
pub mod Cancel
pub mod Closes
pub mod Made
pub mod Receive
pub mod Send
pub mod Steps
use async_sctp.Common.{
  ℕ, ◌%◌, ◌^◌, ℤ, true, Bytes, List, [], ◌∷◌, Option, none, some, codes, to_be32,
}
use async_sctp.Error.{io, custom, invalid_input, invalid_data, Result, ok, err}
use async_sctp.Platform.{Platform}
use async_sctp.Sys.{ipproto_sctp, SctpSndRcvInfo}
use async_sctp.Addr.{SocketAddr}
use async_sctp.Kernel.{Fd, Call, Io, pure, throw, wait, ◌>>=◌, ◌>>◌, syscall, syscall_, closing}
use async_sctp.Config.{SctpConfig, default_config, apply}
use async_sctp.Notification.{Notification}
use async_sctp.Types.{RecvInfo}
use async_sctp.Recv.{
  Reassembly, empty, Step, would_block, more, notified, complete, stop, recv_step,
}
use async_sctp.Socket.{
  register, set_nonblocking, set_reuseaddr, configure_events, domain_of, allow_v4, bind_primary,
  bind_further, local_addr_of,
}
use async_sctp.Association.{SctpAssociation, SendOptions, default_options, sinfo_flags}
use async_sctp.Association.Receive.{Wake, readable, reactor_error}
use async_sctp.Association.Send.{Readiness, ready, attempt}
use async_sctp.Association.Connect.{from_raw_fd}

pub record SctpServer : Type 0 where
  pub fd : Fd
  pub recv_state : Reassembly

pub data ServerMessage : Type 0 where
  message : Bytes → RecvInfo → SocketAddr → ServerMessage
  notice : Notification → ServerMessage

-- The calls of `setup` before the registration.
unfoldable pub prepare :
    Platform → Fd → SocketAddr → List SocketAddr → ℕ → SctpConfig → Io (Unit {0})
prepare p fd primary addrs domain config = do
  set_reuseaddr p fd
  allow_v4 p domain fd
  apply p config fd
  configure_events fd
  bind_primary p fd primary
  bind_further p fd addrs
  syscall_ (Call.listen fd 128)
  set_nonblocking p fd

unfoldable pub setup : Platform → Fd → SocketAddr → List SocketAddr → ℕ → SctpConfig → Io (Unit {0})
setup p fd primary addrs domain config = do prepare p fd primary addrs domain config; register fd

-- On an error of `setup` the descriptor is closed.
unfoldable pub bind_impl : Platform → List SocketAddr → SctpConfig → Io SctpServer
bind_impl p [] config = throw (io (custom invalid_input (codes "no bind addresses")))
bind_impl p (primary ∷ further) config = do
  let addrs = primary ∷ further
  let domain = domain_of p addrs
  fd ← syscall (Call.socket domain p.sock_seqpacket ipproto_sctp)
  closing fd (setup p fd primary addrs domain config)
  pure (record { fd = fd; recv_state = empty })

unfoldable pub bind : Platform → SocketAddr → Io SctpServer
bind p addr = bind_impl p (addr ∷ []) default_config

unfoldable pub bind_config : Platform → SocketAddr → SctpConfig → Io SctpServer
bind_config p addr config = bind_impl p (addr ∷ []) config

unfoldable pub bind_multi : Platform → List SocketAddr → Io SctpServer
bind_multi p addrs = bind_impl p addrs default_config

unfoldable pub bind_multi_with : Platform → List SocketAddr → SctpConfig → Io SctpServer
bind_multi_with p addrs config = bind_impl p addrs config

-- A receive that has returned, with what is left to come, or one that waits.
pub data Poll : Type 0 where
  returned : Result ServerMessage → SctpServer → List Wake → Poll
  pending : SctpServer → Poll

-- A message without the address of its peer is an error.
abbrev pub addressed : Bytes → RecvInfo → Option SocketAddr → Result ServerMessage
addressed bytes info (some addr) = ok (message bytes info addr)
addressed bytes info none =
    err (io (custom invalid_data (codes "sctp: data message without a peer address")))

-- The `match` on a step; `again` is the next round of the loop.
abbrev pub on_step : Step → SctpServer → List Wake → Poll → Poll
on_step would_block s ws again = again
on_step more s ws again = again
on_step (notified n) s ws again = returned (ok (notice n)) s ws
on_step (complete bytes info addr) s ws again = returned (addressed bytes info addr) s ws
on_step (stop e) s ws again = returned (err e) s ws

unfoldable pub recv : Platform → SctpServer → List Wake → Poll
recv p s [] = pending s
recv p s (reactor_error e ∷ ws) = returned (err (io e)) s ws
recv p s (readable r ∷ ws) =
    let (step, st) = recv_step p true s.recv_state r in
    let t = record s { recv_state = st } in on_step step t ws (recv p t ws)

-- The arguments of `sctp_send`; the flags are cut to 16 bits.
unfoldable pub send_call : Platform → Fd → ℤ → Bytes → ℕ → ℕ → SendOptions → Call
send_call p fd assoc_id msg stream ppid opts = Call.send fd msg (record {
  sinfo_stream = stream;
  sinfo_ssn = 0;
  sinfo_flags = sinfo_flags opts % 2 ^ 16;
  sinfo_ppid = to_be32 p.endian ppid;
  sinfo_context = 0;
  sinfo_timetolive = opts.ttl_ms;
  sinfo_tsn = 0;
  sinfo_cumtsn = 0;
  sinfo_assoc_id = assoc_id;
})

unfoldable pub send_loop : Platform → Fd → Call → List Readiness → Io ℕ
send_loop p fd call [] = wait
send_loop p fd call (ready ∷ rs) = attempt p fd call (send_loop p fd call rs)
send_loop p fd call (Readiness.reactor_error e ∷ rs) = throw (io e)

unfoldable pub send_with :
    Platform → SctpServer → ℤ → Bytes → ℕ → ℕ → SendOptions → List Readiness → Io ℕ
send_with p s assoc_id msg stream ppid opts =
    send_loop p s.fd (send_call p s.fd assoc_id msg stream ppid opts)

unfoldable pub send : Platform → SctpServer → ℤ → Bytes → ℕ → ℕ → List Readiness → Io ℕ
send p s assoc_id msg stream ppid = send_with p s assoc_id msg stream ppid default_options

unfoldable pub peeloff : Platform → SctpServer → ℤ → Io SctpAssociation
peeloff p s assoc_id = do fd ← syscall (Call.peeloff s.fd assoc_id); from_raw_fd p fd

unfoldable pub local_addr : Platform → SctpServer → Io SocketAddr
local_addr p s = local_addr_of p s.fd
