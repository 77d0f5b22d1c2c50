-- ===== src/Socket/Script.antt =====
-- The calls of the helpers on a descriptor where none is refused.
use async_sctp.Common.{
  ℕ, ◌-◌, ◌≡◌, refl, List, [], ◌∷◌, ◌++◌, map, bit_or, ltb, ◌==◌, if◌then◌else◌, length, drop, pos,
}
use async_sctp.Platform.{Platform}
use async_sctp.Sys.{sol_sctp, sctp_events, default_events, sctp_bindx_add_addr}
use async_sctp.Addr.{SocketAddr, to_raw, pack}
use async_sctp.Kernel.{Fd, OptionValue, Call, Ret, ret, fail, History, Os, Run, done, Io, ◌>>◌}
use async_sctp.Kernel.Script.{
  since, Grants, Does, Does-bind, Does-syscall, Does-syscall_, Does-ignore, Does-closing, Does-when,
}
use async_sctp.Config.{SctpConfig, apply}
use async_sctp.Config.Apply.{
  Setting, set_call, requested, Applied, all_set, set, refused, apply-Applied,
}
use async_sctp.Socket.{
  register, set_nonblocking, set_v6only, set_reuseaddr, configure_events, allow_v4, bind_primary,
  bind_further,
}

module _ (p : Platform) (fd : Fd) where
  abbrev pub reuse_call : Call
  reuse_call = Call.setsockopt fd p.sol_socket p.so_reuseaddr (OptionValue.int (pos 1))

  abbrev pub v6only_call : Call
  v6only_call = Call.setsockopt fd p.ipproto_ipv6 p.ipv6_v6only (OptionValue.int (pos 0))

  abbrev pub events_call : Call
  events_call = Call.setsockopt fd sol_sctp sctp_events (OptionValue.events default_events)

  -- IPv4 is let in on an IPv6 socket.
  abbrev pub allow_calls : ℕ → List Call
  allow_calls domain = if domain == p.af_inet6 then v6only_call ∷ [] else []

  abbrev pub config_calls : SctpConfig → List Call
  config_calls config = map (set_call fd) (requested p config)

  -- One `sctp_bindx` for the addresses after the first.
  abbrev pub further_calls : List SocketAddr → List Call
  further_calls addrs =
      if ltb 1 (length addrs)
      then Call.bindx fd (pack p (drop 1 addrs)) (length addrs - 1) sctp_bindx_add_addr ∷ []
      else []

  abbrev pub address_calls : SocketAddr → List SocketAddr → List Call
  address_calls primary addrs =
      Call.bind fd (to_raw p primary).0 (to_raw p primary).1 ∷ further_calls addrs

  abbrev pub nonblocking_calls : ℕ → List Call
  nonblocking_calls flags =
      Call.fcntl_getfl fd ∷ Call.fcntl_setfl fd (bit_or flags p.o_nonblock) ∷ []

no_refusal : {n errno : ℕ} {r : Ret} → r ≡ ret n → r ≡ fail errno → ⊥
no_refusal a b = cc (a, b)

module _ (os : Os) (grants : Grants os) (p : Platform) (fd : Fd) where
  all_granted :
      (h : History) (ss : List Setting) (r : Run (Unit {0}))
      → Applied os fd h ss r
      → r ≡ done tt (since (map (set_call fd) ss) h)
  all_granted h [] r all_set = refl
  all_granted h (s ∷ ss) r (set n e more) = all_granted (set_call fd s ∷ h) ss _ more
  all_granted h (s ∷ ss) r (refused errno e) = absurd (no_refusal ((grants h (set_call fd s)).1) e)

  pub Does-apply : (config : SctpConfig) → Does os (apply p config fd) tt (config_calls p fd config)
  Does-apply config = record {
    does = λ h. all_granted h (requested p config) _ (apply-Applied os fd p config h);
  }

  pub Does-set_nonblocking :
      (flags : ℕ)
      → ((h : History) → (os h (Call.fcntl_getfl fd)).result ≡ ret flags)
      → Does os (set_nonblocking p fd) tt (nonblocking_calls p fd flags)
  unfolding set_nonblocking
  Does-set_nonblocking flags e =
      Does-bind os _ _ _ _ _ _ (Does-syscall os _ flags e) (Does-syscall_ os grants _)

  pub Does-set_reuseaddr : Does os (set_reuseaddr p fd) tt (reuse_call p fd ∷ [])
  unfolding set_reuseaddr
  Does-set_reuseaddr = Does-ignore os _

  pub Does-configure_events : Does os (configure_events fd) tt (events_call p fd ∷ [])
  unfolding configure_events
  Does-configure_events = Does-syscall_ os grants _

  pub Does-allow_v4 : (domain : ℕ) → Does os (allow_v4 p domain fd) tt (allow_calls p fd domain)
  unfolding set_v6only
  Does-allow_v4 domain = Does-when os (domain == p.af_inet6) _ _ (Does-ignore os _)

  pub Does-bind_primary :
      (primary : SocketAddr)
      → Does os
          (bind_primary p fd primary)
          tt
          (Call.bind fd (to_raw p primary).0 (to_raw p primary).1 ∷ [])
  unfolding bind_primary
  Does-bind_primary primary = Does-syscall_ os grants _

  pub Does-bind_further :
      (addrs : List SocketAddr) → Does os (bind_further p fd addrs) tt (further_calls p fd addrs)
  unfolding bind_further
  Does-bind_further addrs = Does-when os (ltb 1 (length addrs)) _ _ (Does-syscall_ os grants _)

  pub Does-bind_addrs :
      (primary : SocketAddr) (addrs : List SocketAddr) (m : Io (Unit {0})) (cs : List Call)
      → Does os m tt cs
      → Does os
          (bind_primary p fd primary >> (bind_further p fd addrs >> m))
          tt
          (address_calls p fd primary addrs ++ cs)
  Does-bind_addrs primary addrs m cs d =
      Does-bind os _ _ _ _ _ _ (Does-bind_primary primary)
        (Does-bind os _ _ _ _ _ _ (Does-bind_further addrs) d)

  pub Does-register : Does os (register fd) tt (Call.register fd ∷ [])
  unfolding register
  Does-register = Does-closing os fd _ _ _ (Does-syscall_ os grants _)
