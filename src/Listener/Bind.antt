-- ===== src/Listener/Bind.antt =====
-- What `SctpListener::bind_impl` does to the descriptor that it opens.
use async_sctp.Common.{ℕ, ◌≡◌, List, ◌∷◌}
use async_sctp.Platform.{Platform}
use async_sctp.Sys.{ipproto_sctp}
use async_sctp.Addr.{SocketAddr}
use async_sctp.Kernel.{Fd, Call, ret, History, Os, ◌>>=◌, issue, checked, pure}
use async_sctp.Kernel.Frame.{Quiet}
use async_sctp.Kernel.Prompt.{IsPrompt}
use async_sctp.Config.{SctpConfig}
use async_sctp.Socket.{domain_of}
use async_sctp.Socket.Quiet.{quiet_socket}
use async_sctp.Socket.Prompt.{prompt_socket}
use async_sctp.Socket.Ownership.{ClosedAgain, ClosedAgain-socket}
use async_sctp.Listener.{prepare, setup, bind_impl}

module _ (p : Platform) (d : Fd) (primary : SocketAddr) (addrs : List SocketAddr) (domain : ℕ)
    (config : SctpConfig) where
  Quiet-prepare : (fd : Fd) → Quiet fd (prepare p d primary addrs domain config)
  unfolding prepare
  Quiet-prepare fd = search quiet_socket depth 12

  IsPrompt-prepare : IsPrompt (prepare p d primary addrs domain config)
  unfolding prepare
  IsPrompt-prepare = search prompt_socket depth 12

-- Once the kernel has given the socket `fd`, a bind that succeeds leaves it open and registered,
-- and one that fails has closed it once, and a second time if the failure is that of the
-- registration. A bind always returns.
pub bind_impl-ClosedAgain :
    (p : Platform) (primary : SocketAddr) (further : List SocketAddr) (config : SctpConfig)
    (os : Os) (h : History) (fd : Fd)
    → (os h (Call.socket (domain_of p (primary ∷ further)) p.sock_stream ipproto_sctp)).result
      ≡ ret fd
    → ClosedAgain fd h (bind_impl p (primary ∷ further) config os h)
unfolding bind_impl setup ◌>>=◌ issue checked pure
bind_impl-ClosedAgain p primary further config os h fd e =
    let addrs = primary ∷ further in
    let domain = domain_of p addrs in
    rw e (
      ClosedAgain-socket fd domain p.sock_stream ipproto_sctp os h (record { fd = fd })
        (Quiet-prepare p fd primary addrs domain config fd)
        (IsPrompt-prepare p fd primary addrs domain config))
