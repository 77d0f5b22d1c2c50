-- ===== src/Listener/Peer.antt =====
-- The association and the peer that `accept` returns where no call of the kernel is refused.
use async_sctp.Common.{ℕ, ◌≡◌, List, [], ◌∷◌, ◌++◌}
use async_sctp.Platform.{Platform, IsPlatform}
use async_sctp.Addr.{SocketAddr, to_raw}
use async_sctp.Addr.RoundTrip.{IsAddr, from_raw-to_raw}
use async_sctp.Kernel.{Fd, Call, ret, History, Os, done, ◌>>=◌, issue, pure}
use async_sctp.Kernel.Script.{since, Grants, Does, Does-bind, Does-result}
use async_sctp.Socket.{lift}
use async_sctp.Socket.Script.{
  events_call, nonblocking_calls, Does-set_nonblocking, Does-configure_events, Does-register,
}
use async_sctp.Association.{fresh}
use async_sctp.Association.Connect.{from_raw_fd}
use async_sctp.Listener.{SctpListener}
use async_sctp.Listener.Accept.{Wake, readable, accepted, accept}

-- The calls that make an association of a descriptor, in order.
abbrev pub wrap_calls : Platform → Fd → ℕ → List Call
wrap_calls p fd flags = nonblocking_calls p fd flags ++ events_call p fd ∷ Call.register fd ∷ []

module _ (os : Os) (grants : Grants os) (p : Platform) (fd : Fd) (flags : ℕ)
    (gives : (g : History) → (os g (Call.fcntl_getfl fd)).result ≡ ret flags) where
  Does-from_raw_fd : Does os (from_raw_fd p fd) (fresh fd) (wrap_calls p fd flags)
  unfolding from_raw_fd
  Does-from_raw_fd = Does-bind os _ _ _ _ _ _ (Does-set_nonblocking os grants p fd flags gives) (
      Does-bind os _ _ _ _ _ _ (Does-configure_events os grants p fd)
        (Does-result os _ _ (fresh fd) _ (Does-register os grants p fd)))

  -- When the socket is readable and `accept` gives the descriptor `fd` and the raw form of an
  -- address within the ranges of its types, on a kernel that refuses no call, `accept` returns a
  -- new association on `fd` and that address, after making `fd` non-blocking, subscribing to the
  -- events and registering it, each once and in this order.
  pub accept-since :
      (is : IsPlatform p) (l : SctpListener) (ws : List Wake) (peer : SocketAddr) (h : History)
      → IsAddr peer
      → (os h (Call.accept l.fd)).result ≡ ret fd
      → (os h (Call.accept l.fd)).storage ≡ (to_raw p peer).0
      → accept p l (readable ∷ ws) os h
        ≡ done (fresh fd, peer) (since (wrap_calls p fd flags) (Call.accept l.fd ∷ h))
  unfolding accept accepted ◌>>=◌ issue lift pure
  accept-since is l ws peer h is_addr r s =
      rw (r, s, from_raw-to_raw p is peer is_addr, Does-from_raw_fd.does (Call.accept l.fd ∷ h))
