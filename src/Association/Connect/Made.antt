-- ===== src/Association/Connect/Made.antt =====
-- The calls of a connect that no call of the kernel refuses.
use async_sctp.Common.{ℕ, ◌≡◌, true, false, not, List, [], ◌∷◌, ◌++◌, is_empty, length}
use async_sctp.Platform.{Platform}
use async_sctp.Sys.{ipproto_sctp}
use async_sctp.Addr.{SocketAddr, pack}
use async_sctp.Kernel.{Fd, Call, ret, History, Os, done, ◌>>=◌, issue, checked, pure, when}
use async_sctp.Kernel.Script.{
  since, Grants, Does, Does-bind, Does-pure, Does-syscall, Does-closing, Does-result,
}
use async_sctp.Config.{SctpConfig}
use async_sctp.Socket.{established, connecting, check_so_error, probe, outcome, domain_of}
use async_sctp.Socket.Script.{
  reuse_call, allow_calls, config_calls, events_call, address_calls, nonblocking_calls, Does-apply,
  Does-set_nonblocking, Does-set_reuseaddr, Does-configure_events, Does-allow_v4, Does-bind_primary,
  Does-bind_further, Does-register,
}
use async_sctp.Association.{fresh}
use async_sctp.Association.Connect.{
  bind_local, Wake, writable, wait_established, connect_started, ports_differ, prepare, start,
  connect_socket, connect_bound,
}
use async_sctp.Association.Connect.Outcome.{so_call, poll_call}

-- The binding to the local addresses, if any.
abbrev pub local_calls : Platform → Fd → List SocketAddr → List Call
local_calls p fd [] = []
local_calls p fd (primary ∷ further) =
    reuse_call p fd ∷ address_calls p fd primary (primary ∷ further)

-- The calls that make the socket ready to be registered, in order.
abbrev pub prepare_calls : Platform → Fd → ℕ → List SocketAddr → ℕ → SctpConfig → List Call
prepare_calls p fd flags local domain config =
    nonblocking_calls p fd flags
    ++ (allow_calls p fd domain
        ++ (config_calls p fd config ++ events_call p fd ∷ local_calls p fd local))

-- All calls of a connect that is established when the socket is first writable, in order.
abbrev pub connect_calls :
    Platform → Fd → ℕ → List SocketAddr → List SocketAddr → SctpConfig → List Call
connect_calls p fd flags local addrs config =
    let domain = domain_of p (addrs ++ local) in
    Call.socket domain p.sock_stream ipproto_sctp
    ∷ (prepare_calls p fd flags local domain config
        ++ Call.register fd
          ∷ Call.connectx fd (pack p addrs) (length addrs)
          ∷ so_call p fd
          ∷ poll_call p fd
          ∷ [])

-- The kernel refuses no call, and says that the socket `fd` is connected.
pub record Connects (p : Platform) (os : Os) (fd : Fd) (flags : ℕ) : Type 0 where
  pub grants : Grants os
  pub gives_flags : (h : History) → (os h (Call.fcntl_getfl fd)).result ≡ ret flags
  pub no_error : (h : History) → (os h (so_call p fd)).value ≡ 0
  pub is_writable :
      (h : History)
      → connecting p (os h (poll_call p fd)).result (os h (poll_call p fd)).value ≡ established

module _ (p : Platform) (os : Os) (fd : Fd) (flags : ℕ) (connects : Connects p os fd flags) where
  Does-local :
      (local : List SocketAddr)
      → Does os (when (not (is_empty local)) (bind_local p fd local)) tt (local_calls p fd local)
  unfolding bind_local
  Does-local [] = Does-pure os tt
  Does-local (primary ∷ further) =
      Does-bind os _ _ _ _ _ _ (Does-set_reuseaddr os connects.grants p fd) (
        Does-bind os _ _ _ _ _ _ (Does-bind_primary os connects.grants p fd primary)
          (Does-bind_further os connects.grants p fd (primary ∷ further)))

  Does-prepare :
      (local : List SocketAddr) (domain : ℕ) (config : SctpConfig)
      → Does os (prepare p fd local domain config) tt (prepare_calls p fd flags local domain config)
  unfolding prepare
  Does-prepare local domain config =
      Does-bind os _ _ _ _ _ _
        (Does-set_nonblocking os connects.grants p fd flags connects.gives_flags)
        (Does-bind os _ _ _ _ _ _ (Does-allow_v4 os connects.grants p fd domain) (
          Does-bind os _ _ _ _ _ _ (Does-apply os connects.grants p fd config) (
            Does-bind os _ _ _ _ _ _ (Does-configure_events os connects.grants p fd)
              (Does-local local))))

  Does-outcome : Does os (outcome p fd) established (so_call p fd ∷ poll_call p fd ∷ [])
  unfolding outcome check_so_error probe ◌>>=◌ issue checked pure
  Does-outcome = record {
    does = λ h. rw (
      (connects.grants h (so_call p fd)).1,
      connects.no_error h,
      connects.is_writable (so_call p fd ∷ h),
    );
  }

  Does-wait :
      (ws : List Wake)
      → Does os (wait_established p fd true (writable ∷ ws)) tt (so_call p fd ∷ poll_call p fd ∷ [])
  unfolding wait_established
  Does-wait ws = Does-bind os _ _ _ _ _ _ Does-outcome (Does-pure os tt)

  Does-start :
      (addrs : List SocketAddr) (ws : List Wake)
      → Does os
          (start p fd addrs (writable ∷ ws))
          tt
          (Call.connectx fd (pack p addrs) (length addrs) ∷ so_call p fd ∷ poll_call p fd ∷ [])
  unfolding start ◌>>=◌ issue connect_started pure
  Does-start addrs ws = record {
    does = λ h.
        rw ((connects.grants h (Call.connectx fd (pack p addrs) (length addrs))).1)
          ((Does-wait ws).does (Call.connectx fd (pack p addrs) (length addrs) ∷ h));
  }

  -- Where the kernel refuses no call and says that the socket is connected when it is first
  -- writable, a connect to some addresses, from local addresses of one port or none, succeeds
  -- with exactly these calls in this order: the socket, of IPv6 as soon as one address is; the
  -- flags that are there with `O_NONBLOCK` added; IPv4 let in on an IPv6 socket; the settings of
  -- the configuration; the subscription to the events; the binding to the local addresses, if
  -- any; the registration; one `sctp_connectx` with all addresses of the peer; and the questions
  -- for the socket error and for what `poll` says.
  pub connect_bound-since :
      (local addrs : List SocketAddr) (config : SctpConfig) (ws : List Wake) (h : History)
      → is_empty addrs ≡ false
      → ports_differ local ≡ false
      → ((g : History)
          → (os g (Call.socket (domain_of p (addrs ++ local)) p.sock_stream ipproto_sctp)).result
            ≡ ret fd)
      → connect_bound p local addrs config (writable ∷ ws) os h
        ≡ done (fresh fd) (since (connect_calls p fd flags local addrs config) h)
  unfolding connect_bound connect_socket
  connect_bound-since local addrs config ws h some_addrs one_port socket =
      rw (some_addrs, one_port)
        ((Does-bind os _ _ _ _ _ _ (Does-syscall os _ fd socket) (
            Does-bind os _ _ _ _ _ _
              (Does-closing os fd _ _ _ (Does-prepare local (domain_of p (addrs ++ local)) config))
              (Does-bind os _ _ _ _ _ _ (Does-register os connects.grants p fd) (
                Does-result os _ _ (fresh fd) _
                  (Does-closing os fd _ _ _ (Does-start addrs ws)))))).does
          h)
