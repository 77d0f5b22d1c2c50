-- ===== src/Association/Connect/Closes.antt =====
-- What `from_raw_fd` and `connect_bound` do to the descriptor that they are given or open.
use async_sctp.Common.{ℕ, ◌≡◌, ◌∷◌, [], ◌++◌, Bool, true, false, List, is_empty}
use async_sctp.Platform.{Platform}
use async_sctp.Sys.{ipproto_sctp}
use async_sctp.Addr.{SocketAddr}
use async_sctp.Kernel.{
  Fd, Call, Ret, ret, fail, History, Os, Io, closing, ◌>>=◌, ◌>>◌, issue, checked, pure,
}
use async_sctp.Kernel.Frame.{
  Quiet, Quiet-wait, Quiet-throw, Quiet-pure, quiet_laws, Quiet-issue, Quiet-bind,
}
use async_sctp.Config.{SctpConfig}
use async_sctp.Socket.{Connecting, established, failed, pending, domain_of, register}
use async_sctp.Socket.Quiet.{
  quiet_socket, Quiet-outcome, Quiet-set_nonblocking, Quiet-configure_events,
}
use async_sctp.Socket.Prompt.{IsPrompt-set_nonblocking, IsPrompt-configure_events}
use async_sctp.Socket.Ownership.{
  ClosedIfRegistered, ClosedIfRegistered-bind, ClosedIfRegistered-result,
  register-ClosedIfRegistered, ClosedOnce, ClosedOnce-closing, register-ClosedOnce, ClosedOnce-bind,
  ClosedOnce-pure,
}
use async_sctp.Association.{fresh}
use async_sctp.Association.Connect.{
  from_raw_fd, bind_local, Wake, writable, readable, writable_error, readable_error, settle,
  settle_writable, wait_established, connect_started, ports_differ, prepare, start, connect_socket,
  connect_bound,
}

-- A descriptor from `accept` or `peeloff` that becomes no association is closed only if the
-- failure is that of the registration: after a failure to make it non-blocking or to subscribe to
-- the events it stays open, and nothing owns it.
pub from_raw_fd-ClosedIfRegistered :
    (p : Platform) (fd : Fd) (os : Os) (h : History)
    → ClosedIfRegistered fd h (from_raw_fd p fd os h)
unfolding from_raw_fd
from_raw_fd-ClosedIfRegistered p fd os h =
    ClosedIfRegistered-bind fd _ _ os h (Quiet-set_nonblocking fd p fd)
      (IsPrompt-set_nonblocking p fd)
      λ _ g.
        ClosedIfRegistered-bind fd _ _ os g (Quiet-configure_events fd p fd)
          (IsPrompt-configure_events p fd)
          λ _ k.
            ClosedIfRegistered-result fd _ os k (λ _. fresh fd)
              (register-ClosedIfRegistered fd os k)

module _ (fd : Fd) (p : Platform) where
  Quiet-settle :
      (d : Fd) {m : Io (Unit {0})} (o : Connecting) → Quiet fd m → Quiet fd (settle_writable d o m)
  Quiet-settle d established q = Quiet-pure fd tt
  Quiet-settle d failed q = Quiet-throw fd (Unit {0}) _
  Quiet-settle d pending q = search quiet_laws

  Quiet-settle_readable : {m : Io (Unit {0})} (o : Connecting) → Quiet fd m → Quiet fd (settle o m)
  Quiet-settle_readable established q = Quiet-pure fd tt
  Quiet-settle_readable failed q = Quiet-throw fd (Unit {0}) _
  Quiet-settle_readable pending q = q

  Quiet-wait_established :
      (both : Bool) (ws : List Wake) (d : Fd) → Quiet fd (wait_established p d both ws)
  unfolding wait_established
  Quiet-wait_established both [] d = Quiet-wait fd (Unit {0})
  Quiet-wait_established both (writable ∷ ws) d =
      Quiet-bind fd (Quiet-outcome fd p d)
        (λ o. Quiet-settle d o (Quiet-wait_established both ws d))
  Quiet-wait_established both (writable_error e ∷ ws) d = Quiet-throw fd (Unit {0}) _
  Quiet-wait_established true (readable ∷ ws) d =
      Quiet-bind fd (Quiet-outcome fd p d)
        (λ o. Quiet-settle_readable o (Quiet-wait_established false ws d))
  Quiet-wait_established true (readable_error e ∷ ws) d = Quiet-throw fd (Unit {0}) _
  Quiet-wait_established false (readable ∷ ws) d = Quiet-wait_established false ws d
  Quiet-wait_established false (readable_error e ∷ ws) d = Quiet-wait_established false ws d

  Quiet-bind_local : (d : Fd) (local : List SocketAddr) → Quiet fd (bind_local p d local)
  unfolding bind_local
  Quiet-bind_local d [] = search quiet_socket
  Quiet-bind_local d (primary ∷ further) = search quiet_socket

  pub Quiet-prepare :
      (d : Fd) (local : List SocketAddr) (domain : ℕ) (config : SctpConfig)
      → Quiet fd (prepare p d local domain config)
  unfolding prepare
  Quiet-prepare d local domain config = search (quiet_socket, Quiet-bind_local) depth 10

  Quiet-connect_started : (r : Ret) → Quiet fd (connect_started p r)
  unfolding connect_started
  Quiet-connect_started (ret n) = Quiet-pure fd tt
  Quiet-connect_started (fail errno) = search quiet_laws

  pub Quiet-start :
      (d : Fd) (addrs : List SocketAddr) (ws : List Wake) → Quiet fd (start p d addrs ws)
  unfolding start
  Quiet-start d addrs ws =
      search (quiet_laws, Quiet-issue, Quiet-connect_started, Quiet-wait_established)

-- The part of a connect after the `socket` call.
opened :
    (p : Platform) (local addrs : List SocketAddr) (domain : ℕ) (config : SctpConfig)
    (ws : List Wake) (os : Os) (h : History) (fd : Fd)
    → ClosedOnce fd h (
        (closing fd (prepare p fd local domain config)
            >> (register fd >> (closing fd (start p fd addrs ws) >> pure (fresh fd))))
          os h)
opened p local addrs domain config ws os h fd =
    ClosedOnce-bind fd _ _ os h
      (ClosedOnce-closing fd os h (Quiet-prepare fd p fd local domain config))
      λ _ g. ClosedOnce-bind fd _ _ os g (register-ClosedOnce fd os g) λ _ k.
        ClosedOnce-bind fd _ _ os k (ClosedOnce-closing fd os k (Quiet-start fd p fd addrs ws))
          λ _ l. ClosedOnce-pure fd _ os l

-- Once the kernel has given the socket `fd`, a connect that fails has closed it exactly once, also
-- where the registration fails or the association is refused, and one that succeeds or still waits
-- has not closed it.
pub connect_bound-ClosedOnce :
    (p : Platform) (local addrs : List SocketAddr) (config : SctpConfig) (ws : List Wake) (os : Os)
    (h : History) (fd : Fd)
    → is_empty addrs ≡ false
    → ports_differ local ≡ false
    → (os h (Call.socket (domain_of p (addrs ++ local)) p.sock_stream ipproto_sctp)).result ≡ ret fd
    → ClosedOnce fd h (connect_bound p local addrs config ws os h)
unfolding connect_bound connect_socket
connect_bound-ClosedOnce p local addrs config ws os h fd some_addrs one_port e =
    rw (some_addrs, one_port)
      (unfold ◌>>=◌ issue checked pure in
        rw e (opened p local addrs (domain_of p (addrs ++ local)) config ws os _ fd))
