-- ===== src/Server/Closes.antt =====
-- What the binding of a server and `peeloff` do to the descriptor that they open.
use async_sctp.Common.{ℕ, ℤ, ◌≡◌, List, ◌∷◌}
use async_sctp.Platform.{Platform}
use async_sctp.Sys.{ipproto_sctp}
use async_sctp.Addr.{SocketAddr}
use async_sctp.Kernel.{Fd, Call, ret, History, Os, ◌>>=◌, issue, checked, pure}
use async_sctp.Kernel.Frame.{Quiet}
use async_sctp.Kernel.Prompt.{IsPrompt}
use async_sctp.Config.{SctpConfig}
use async_sctp.Recv.{empty}
use async_sctp.Socket.{domain_of}
use async_sctp.Socket.Quiet.{quiet_socket}
use async_sctp.Socket.Prompt.{prompt_socket}
use async_sctp.Socket.Ownership.{ClosedAgain, ClosedAgain-socket, ClosedIfRegistered}
use async_sctp.Association.Connect.Closes.{from_raw_fd-ClosedIfRegistered}
use async_sctp.Server.{SctpServer, prepare, setup, bind_impl, bind_multi_with, peeloff}

module _ (p : Platform) (d : Fd) (primary : SocketAddr) (addrs : List SocketAddr) (domain : ℕ)
    (config : SctpConfig) where
  Quiet-prepare : (fd : Fd) → Quiet fd (prepare p d primary addrs domain config)
  unfolding prepare
  Quiet-prepare fd = search quiet_socket depth 12

  IsPrompt-prepare : IsPrompt (prepare p d primary addrs domain config)
  unfolding prepare
  IsPrompt-prepare = search prompt_socket depth 12

-- Once the kernel has given the socket `fd`, a bind of a server that succeeds leaves it open and
-- registered, and one that fails has closed it once, and a second time if the failure is that of
-- the registration. A bind always returns.
pub bind_multi_with-ClosedAgain :
    (p : Platform) (primary : SocketAddr) (further : List SocketAddr) (config : SctpConfig)
    (os : Os) (h : History) (fd : Fd)
    → (os h (Call.socket (domain_of p (primary ∷ further)) p.sock_seqpacket ipproto_sctp)).result
      ≡ ret fd
    → ClosedAgain fd h (bind_multi_with p (primary ∷ further) config os h)
unfolding bind_multi_with bind_impl setup ◌>>=◌ issue checked pure
bind_multi_with-ClosedAgain p primary further config os h fd e =
    let addrs = primary ∷ further in
    let domain = domain_of p addrs in
    rw e (
      ClosedAgain-socket fd domain p.sock_seqpacket ipproto_sctp os h
        (record { fd = fd; recv_state = empty }) (Quiet-prepare p fd primary addrs domain config fd)
        (IsPrompt-prepare p fd primary addrs domain config))

-- A descriptor from `sctp_peeloff` is open and registered where an association is returned, and
-- otherwise closed exactly if the registration was tried.
pub peeloff-ClosedIfRegistered :
    (p : Platform) (s : SctpServer) (assoc_id : ℤ) (os : Os) (h : History) (fd : Fd)
    → (os h (Call.peeloff s.fd assoc_id)).result ≡ ret fd
    → ClosedIfRegistered fd h (peeloff p s assoc_id os h)
unfolding peeloff ◌>>=◌ issue checked pure
peeloff-ClosedIfRegistered p s assoc_id os h fd e =
    rw e (from_raw_fd-ClosedIfRegistered p fd os (Call.peeloff s.fd assoc_id ∷ h))
