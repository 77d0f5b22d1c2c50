-- ===== src/Listener/Made.antt =====
-- The calls of a bind that no call of the kernel refuses.
use async_sctp.Common.{ℕ, ◌≡◌, List, [], ◌∷◌, ◌++◌}
use async_sctp.Platform.{Platform}
use async_sctp.Sys.{ipproto_sctp}
use async_sctp.Addr.{SocketAddr}
use async_sctp.Kernel.{Fd, Call, ret, History, Os, done}
use async_sctp.Kernel.Script.{
  since, Grants, Does, Does-bind, Does-syscall, Does-syscall_, Does-closing, Does-result,
}
use async_sctp.Config.{SctpConfig}
use async_sctp.Socket.{domain_of}
use async_sctp.Socket.Script.{
  reuse_call, allow_calls, config_calls, address_calls, nonblocking_calls, Does-apply,
  Does-set_nonblocking, Does-set_reuseaddr, Does-allow_v4, Does-bind_addrs, Does-register,
}
use async_sctp.Listener.{prepare, setup, bind_impl}

-- The calls that make the socket ready to be registered, in order.
abbrev pub prepare_calls : Platform → Fd → ℕ → SocketAddr → List SocketAddr → SctpConfig → List Call
prepare_calls p fd flags primary addrs config =
    reuse_call p fd
    ∷ (allow_calls p fd (domain_of p addrs)
        ++ (config_calls p fd config
            ++ (address_calls p fd primary addrs
                ++ Call.listen fd 128 ∷ nonblocking_calls p fd flags)))

-- All calls of a bind, in order.
abbrev pub bind_calls : Platform → Fd → ℕ → SocketAddr → List SocketAddr → SctpConfig → List Call
bind_calls p fd flags primary addrs config =
    Call.socket (domain_of p addrs) p.sock_stream ipproto_sctp
    ∷ (prepare_calls p fd flags primary addrs config ++ Call.register fd ∷ [])

module _ (os : Os) (grants : Grants os) (p : Platform) (fd : Fd) (flags : ℕ) where
  Does-prepare :
      (primary : SocketAddr) (addrs : List SocketAddr) (config : SctpConfig)
      → ((h : History) → (os h (Call.fcntl_getfl fd)).result ≡ ret flags)
      → Does os
          (prepare p fd primary addrs (domain_of p addrs) config)
          tt
          (prepare_calls p fd flags primary addrs config)
  unfolding prepare
  Does-prepare primary addrs config gives =
      Does-bind os _ _ _ _ _ _ (Does-set_reuseaddr os grants p fd) (
        Does-bind os _ _ _ _ _ _ (Does-allow_v4 os grants p fd (domain_of p addrs)) (
          Does-bind os _ _ _ _ _ _ (Does-apply os grants p fd config) (
            Does-bind_addrs os grants p fd primary addrs _ _ (
              Does-bind os _ _ _ _ _ _ (Does-syscall_ os grants _)
                (Does-set_nonblocking os grants p fd flags gives)))))

  Does-bind_impl :
      (primary : SocketAddr) (further : List SocketAddr) (config : SctpConfig)
      → ((h : History) → (os h (Call.fcntl_getfl fd)).result ≡ ret flags)
      → ((h : History)
          → (os h (Call.socket (domain_of p (primary ∷ further)) p.sock_stream ipproto_sctp)).result
            ≡ ret fd)
      → Does os
          (bind_impl p (primary ∷ further) config)
          (record { fd = fd })
          (bind_calls p fd flags primary (primary ∷ further) config)
  unfolding bind_impl setup
  Does-bind_impl primary further config gives socket =
      Does-bind os _ _ _ _ _ _ (Does-syscall os _ fd socket) (
        Does-result os _ _ _ _ (
          Does-closing os fd _ _ _ (
            Does-bind os _ _ _ _ _ _ (Does-prepare primary (primary ∷ further) config gives)
              (Does-register os grants p fd))))

  -- On a kernel that refuses no call a bind succeeds, with exactly these calls in this order:
  -- the socket, of IPv6 as soon as one address is; the address reuse; IPv4 let in on an IPv6
  -- socket; the settings of the configuration; one `bind` to the first address and one
  -- `sctp_bindx` for the others, if any; `listen`; the flags that are there with `O_NONBLOCK`
  -- added; and the registration.
  pub bind_impl-since :
      (primary : SocketAddr) (further : List SocketAddr) (config : SctpConfig) (h : History)
      → ((g : History) → (os g (Call.fcntl_getfl fd)).result ≡ ret flags)
      → ((g : History)
          → (os g (Call.socket (domain_of p (primary ∷ further)) p.sock_stream ipproto_sctp)).result
            ≡ ret fd)
      → bind_impl p (primary ∷ further) config os h
        ≡ done
            (record { fd = fd })
            (since (bind_calls p fd flags primary (primary ∷ further) config) h)
  bind_impl-since primary further config h gives socket =
      (Does-bind_impl primary further config gives socket).does h
