-- ===== src/Python/Reparsed.antt =====
-- The texts of addresses that Python gets, given back to the bindings.
use async_sctp.Common.{◌≡◌, List, [], ◌∷◌, ◌++◌, Option, none, Bytes, All, length, map, pos}
use async_sctp.Platform.{Platform, IsPlatform}
use async_sctp.Addr.{SocketAddr, pack}
use async_sctp.Addr.RoundTrip.{IsAddr}
use async_sctp.Kernel.{Call, ret, Os}
use async_sctp.Association.Addrs.{peer_addrs-pack}
use async_sctp.Association.Connect
use async_sctp.Association.Connect.{connect_from}
use async_sctp.Python.{
  parse_addrs, Std, IsStd, HasNoFlow, World, init_runtime, returned, call, pure, ◌>>=◌,
}
use async_sctp.Python.Association.{PyAssociation, peer_addrs, connect_multi}
use async_sctp.Python.Config.{PyConfig, config_of}
use async_sctp.Python.Invalid.{Parsed, no_text, text_of, built, parse_addrs_good}

map-Parsed :
    (s : Std) (is : IsStd s) (addrs : List SocketAddr)
    → All IsAddr addrs
    → All HasNoFlow addrs
    → Parsed s (map s.socket_addr_text addrs) addrs
map-Parsed s is [] are no_flow = no_text
map-Parsed s is (a ∷ addrs) are no_flow =
    text_of (s.socket_addr_text a) a (is.parse-text a are.0 no_flow.0)
      (map-Parsed s is addrs are.1 no_flow.1)

-- The world after `peer_addrs`.
abbrev pub after_peer_addrs : PyAssociation → World → World
after_peer_addrs a w = record w {
  history = Call.freepaddrs ∷ Call.getpaddrs a.inner.fd (pos 0) ∷ w.history;
}

peer_addrs-texts :
    (s : Std) (p : Platform) (is : IsPlatform p) (a : PyAssociation) (os : Os) (w : World)
    (addrs : List SocketAddr) (rest : Bytes)
    → All IsAddr addrs
    → (os w.history (Call.getpaddrs a.inner.fd (pos 0))).result ≡ ret (length addrs)
    → (os w.history (Call.getpaddrs a.inner.fd (pos 0))).array ≡ pack p addrs ++ rest
    → peer_addrs s p a os w ≡ returned (map s.socket_addr_text addrs) (after_peer_addrs a w)
unfolding peer_addrs call ◌>>=◌
peer_addrs-texts s p is a os w addrs rest are r e =
    rw (peer_addrs-pack p is a.inner os w.history addrs rest are r e)

-- Where the kernel answers with a packed array of the peer's addresses, and none of them has flow
-- information, the texts that `peer_addrs` gives to Python, given to `connect_multi`, connect from
-- any local address to just these addresses, in their order.
pub connect_multi-peer_addrs :
    (s : Std) (is_std : IsStd s) (p : Platform) (is : IsPlatform p) (a : PyAssociation) (os : Os)
    (w : World) (addrs : List SocketAddr) (rest : Bytes) (config : Option PyConfig)
    (ws : List Connect.Wake)
    → All IsAddr addrs
    → All HasNoFlow addrs
    → (os w.history (Call.getpaddrs a.inner.fd (pos 0))).result ≡ ret (length addrs)
    → (os w.history (Call.getpaddrs a.inner.fd (pos 0))).array ≡ pack p addrs ++ rest
    → (peer_addrs s p a >>= λ texts. connect_multi s p texts config none ws) os w
      ≡ (call s (connect_from p [] addrs (config_of config) ws) >>= λ inner.
            pure (record { inner = inner }))
          os
          (built s (after_peer_addrs a w))
unfolding connect_multi init_runtime ◌>>=◌ parse_addrs call
connect_multi-peer_addrs s is_std p is a os w addrs rest config ws are no_flow r e =
    let asked : World = after_peer_addrs a w in
    rw (
      peer_addrs-texts s p is a os w addrs rest are r e,
      parse_addrs_good s os (map s.socket_addr_text addrs) addrs (built s asked)
          (map-Parsed s is_std addrs are no_flow),
    )
