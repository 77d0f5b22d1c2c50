-- ===== src/Listener.antt =====
-- src/listener.rs: `SctpListener`, a one-to-one listener.
pub mod Accept
pub mod Bind
pub mod Made
pub mod Open
pub mod Peer
use async_sctp.Common.{ℕ, List, [], ◌∷◌, codes}
use async_sctp.Error.{io, custom, invalid_input}
use async_sctp.Platform.{Platform}
use async_sctp.Sys.{ipproto_sctp}
use async_sctp.Addr.{SocketAddr}
use async_sctp.Kernel.{Fd, Call, Io, pure, throw, ◌>>=◌, ◌>>◌, syscall, syscall_, closing}
use async_sctp.Config.{SctpConfig, default_config, apply}
use async_sctp.Socket.{
  register, set_nonblocking, set_reuseaddr, domain_of, allow_v4, bind_primary, bind_further,
}

-- The listener is its descriptor, registered with the runtime.
pub record SctpListener : Type 0 where
  pub fd : Fd

-- The calls of `setup` before the registration.
unfoldable pub prepare :
    Platform → Fd → SocketAddr → List SocketAddr → ℕ → SctpConfig → Io (Unit {0})
prepare p fd primary addrs domain config = do
  set_reuseaddr p fd
  allow_v4 p domain fd
  apply p config fd
  bind_primary p fd primary
  bind_further p fd addrs
  syscall_ (Call.listen fd 128)
  set_nonblocking p fd

unfoldable pub setup : Platform → Fd → SocketAddr → List SocketAddr → ℕ → SctpConfig → Io (Unit {0})
setup p fd primary addrs domain config = do prepare p fd primary addrs domain config; register fd

-- On an error of `setup` the descriptor is closed.
unfoldable pub bind_impl : Platform → List SocketAddr → SctpConfig → Io SctpListener
bind_impl p [] config = throw (io (custom invalid_input (codes "no bind addresses")))
bind_impl p (primary ∷ further) config = do
  let addrs = primary ∷ further
  let domain = domain_of p addrs
  fd ← syscall (Call.socket domain p.sock_stream ipproto_sctp)
  closing fd (setup p fd primary addrs domain config)
  pure (record { fd = fd })

unfoldable pub bind : Platform → SocketAddr → Io SctpListener
bind p addr = bind_impl p (addr ∷ []) default_config

unfoldable pub bind_config : Platform → SocketAddr → SctpConfig → Io SctpListener
bind_config p addr config = bind_impl p (addr ∷ []) config

unfoldable pub bind_multi : Platform → List SocketAddr → Io SctpListener
bind_multi p addrs = bind_impl p addrs default_config

unfoldable pub bind_multi_with : Platform → List SocketAddr → SctpConfig → Io SctpListener
bind_multi_with p addrs config = bind_impl p addrs config
