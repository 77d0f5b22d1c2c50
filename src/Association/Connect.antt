-- ===== src/Association/Connect.antt =====
-- How an association comes about: `from_raw_fd`, the `connect` family, `bind_local` and
-- `established`. Which branch of the `select!` of `established` is done at each round is an
-- argument; where the list ends the future is still waiting.
pub mod Closes
pub mod Ledger
pub mod Made
pub mod Outcome
use async_sctp.Common.{
  ℕ, Bool, true, false, not, List, [], ◌∷◌, ◌++◌, ◌==◌, if◌then◌else◌, length, any, is_empty, codes,
}
use async_sctp.Error.{IoError, os_error, custom, invalid_input, io, invalid_address, not_connected}
use async_sctp.Platform.{Platform}
use async_sctp.Sys.{ipproto_sctp}
use async_sctp.Addr.{SocketAddr, port, pack}
use async_sctp.Kernel.{
  Fd, Call, Ret, ret, fail, Io, pure, throw, wait, ◌>>=◌, ◌>>◌, issue, ignore, syscall, closing,
  when,
}
use async_sctp.Config.{SctpConfig, default_config, apply}
use async_sctp.Socket.{
  register, set_nonblocking, set_reuseaddr, configure_events, Connecting, established, failed,
  pending, outcome, domain_of, allow_v4, bind_primary, bind_further,
}
use async_sctp.Association.{SctpAssociation, fresh}

unfoldable pub from_raw_fd : Platform → Fd → Io SctpAssociation
from_raw_fd p fd = do set_nonblocking p fd; configure_events fd; register fd; pure (fresh fd)

-- `bind_local`, a helper by the list of local addresses.
unfoldable pub bind_local : Platform → Fd → List SocketAddr → Io (Unit {0})
bind_local p fd [] = set_reuseaddr p fd
bind_local p fd (primary ∷ further) = do
  set_reuseaddr p fd
  bind_primary p fd primary
  bind_further p fd (primary ∷ further)

-- The branch of the `select!` that is done: the socket is writable or readable, or waiting for
-- that failed.
pub data Wake : Type 0 where
  writable readable : Wake
  writable_error readable_error : IoError → Wake

-- The `match` at the end of a round; `again` is the next one.
abbrev pub settle : Connecting → Io (Unit {0}) → Io (Unit {0})
settle established again = pure tt
settle failed again = throw not_connected
settle pending again = again

-- A writable round whose outcome is pending clears the readiness first.
abbrev pub settle_writable : Fd → Connecting → Io (Unit {0}) → Io (Unit {0})
settle_writable fd established again = settle established again
settle_writable fd failed again = settle failed again
settle_writable fd pending again = ignore (Call.clear_ready fd) >> settle pending again

-- `both` says that readability is waited for too; the branch is disabled once it was taken.
unfoldable pub wait_established : Platform → Fd → Bool → List Wake → Io (Unit {0})
wait_established p fd both [] = wait
wait_established p fd both (writable ∷ ws) =
    outcome p fd >>= λ o. settle_writable fd o (wait_established p fd both ws)
wait_established p fd both (writable_error e ∷ ws) = throw (io e)
wait_established p fd true (readable ∷ ws) =
    outcome p fd >>= λ o. settle o (wait_established p fd false ws)
wait_established p fd true (readable_error e ∷ ws) = throw (io e)
wait_established p fd false (readable ∷ ws) = wait_established p fd false ws
wait_established p fd false (readable_error e ∷ ws) = wait_established p fd false ws

-- A connect that is under way is no error.
unfoldable pub connect_started : Platform → Ret → Io (Unit {0})
connect_started p (ret n) = pure tt
connect_started p (fail errno) =
    if errno == p.einprogress then pure tt else throw (io (os_error errno))

-- `local.first()`, and whether another local address has another port.
abbrev pub ports_differ : List SocketAddr → Bool
ports_differ [] = false
ports_differ (first ∷ others) = any (λ a. not (port a == port first)) (first ∷ others)

-- The calls while `socket` owns the descriptor.
unfoldable pub prepare : Platform → Fd → List SocketAddr → ℕ → SctpConfig → Io (Unit {0})
prepare p fd local domain config = do
  set_nonblocking p fd
  allow_v4 p domain fd
  apply p config fd
  configure_events fd
  when (not (is_empty local)) (bind_local p fd local)

-- The calls while `inner` owns it, to the end of the wait.
unfoldable pub start : Platform → Fd → List SocketAddr → List Wake → Io (Unit {0})
start p fd addrs ws = do
  a ← issue (Call.connectx fd (pack p addrs) (length addrs))
  connect_started p a.result
  wait_established p fd true ws

unfoldable pub connect_socket :
    Platform → List SocketAddr → List SocketAddr → SctpConfig → List Wake → Io SctpAssociation
connect_socket p local addrs config ws = do
  let domain = domain_of p (addrs ++ local)
  fd ← syscall (Call.socket domain p.sock_stream ipproto_sctp)
  closing fd (prepare p fd local domain config)
  register fd
  closing fd (start p fd addrs ws)
  pure (fresh fd)

unfoldable pub connect_bound :
    Platform → List SocketAddr → List SocketAddr → SctpConfig → List Wake → Io SctpAssociation
connect_bound p local addrs config ws =
    if is_empty addrs
    then throw (io (custom invalid_input (codes "no connect addresses")))
    else if ports_differ local
    then throw (invalid_address (codes "the local addresses of one endpoint share one port"))
    else connect_socket p local addrs config ws

unfoldable pub connect_impl :
    Platform → List SocketAddr → SctpConfig → List Wake → Io SctpAssociation
connect_impl p addrs config = connect_bound p [] addrs config

unfoldable pub connect : Platform → SocketAddr → List Wake → Io SctpAssociation
connect p addr = connect_impl p (addr ∷ []) default_config

unfoldable pub connect_with : Platform → SocketAddr → SctpConfig → List Wake → Io SctpAssociation
connect_with p addr config = connect_impl p (addr ∷ []) config

unfoldable pub connect_multi : Platform → List SocketAddr → List Wake → Io SctpAssociation
connect_multi p addrs = connect_impl p addrs default_config

unfoldable pub connect_multi_with :
    Platform → List SocketAddr → SctpConfig → List Wake → Io SctpAssociation
connect_multi_with p addrs config = connect_impl p addrs config

unfoldable pub connect_from :
    Platform → List SocketAddr → List SocketAddr → SctpConfig → List Wake → Io SctpAssociation
connect_from p local peer config = connect_bound p local peer config
