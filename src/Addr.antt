-- ===== src/Addr.antt =====
-- src/addr.rs: socket addresses and raw `sockaddr` structures.
pub mod RoundTrip
use async_sctp.Common.{
  ℕ, zero, suc, Bool, false, true, List, [], ◌∷◌, ◌++◌, Option, none, some, Bytes, ◌==◌,
  if◌then◌else◌, take, drop, to_be16, from_be16, from_be32, from_ne_bytes32, octets_of, codes,
  decimal,
}
use async_sctp.Error.{invalid_address, Result, ok, err}
use async_sctp.Platform.{Platform, SockaddrIn, SockaddrIn6, zero_extend}

-- `SocketAddrV4` and `SocketAddrV6` of std: the octets of the address and the port.
pub record SocketAddrV4 : Type 0 where
  pub octets : ℕ × ℕ × ℕ × ℕ
  pub port : ℕ

pub record SocketAddrV6 : Type 0 where
  pub octets : Bytes
  pub port : ℕ
  pub flowinfo : ℕ
  pub scope_id : ℕ

pub data SocketAddr : Type 0 where
  v4 : SocketAddrV4 → SocketAddr
  v6 : SocketAddrV6 → SocketAddr

abbrev pub is_ipv6 : SocketAddr → Bool
is_ipv6 (v4 a) = false
is_ipv6 (v6 a) = true

abbrev pub port : SocketAddr → ℕ
port (v4 a) = a.port
port (v6 a) = a.port

module _ (p : Platform) where
  unfoldable pub sockaddr_in : SocketAddrV4 → SockaddrIn
  sockaddr_in a = record {
    sin_family = p.af_inet;
    sin_port = to_be16 p.endian a.port;
    s_addr = from_ne_bytes32 p.endian a.octets;
  }

  unfoldable pub sockaddr_in6 : SocketAddrV6 → SockaddrIn6
  sockaddr_in6 a = record {
    sin6_family = p.af_inet6;
    sin6_port = to_be16 p.endian a.port;
    sin6_flowinfo = a.flowinfo;
    s6_addr = a.octets;
    sin6_scope_id = a.scope_id;
  }

  -- The storage, zero beyond the structure, and the length that is valid.
  unfoldable pub to_raw : SocketAddr → Bytes × ℕ
  to_raw (v4 a) = (zero_extend p (p.bytes_in (sockaddr_in a)), p.size_in)
  to_raw (v6 a) = (zero_extend p (p.bytes_in6 (sockaddr_in6 a)), p.size_in6)

  unfoldable pub from_in : SockaddrIn → SocketAddr
  from_in s = v4 (record {
    octets = octets_of (from_be32 p.endian s.s_addr);
    port = from_be16 p.endian s.sin_port;
  })

  unfoldable pub from_in6 : SockaddrIn6 → SocketAddr
  from_in6 s = v6 (record {
    octets = s.s6_addr;
    port = from_be16 p.endian s.sin6_port;
    flowinfo = s.sin6_flowinfo;
    scope_id = s.sin6_scope_id;
  })

  unfoldable pub from_raw : Bytes → Result SocketAddr
  from_raw storage =
      let family = p.read_family storage in
      if family == p.af_inet
      then ok (from_in (p.read_in storage))
      else if family == p.af_inet6
      then ok (from_in6 (p.read_in6 storage))
      else err (invalid_address (codes "unsupported address family: " ++ decimal family))

  unfoldable pub pack : List SocketAddr → Bytes
  pack [] = []
  pack (addr ∷ addrs) = let (storage, len) = to_raw addr in take len storage ++ pack addrs

  -- `if let Ok(a) = from_raw(&storage) { out.push(a) }`.
  abbrev pub push_ok : Result SocketAddr → List SocketAddr → List SocketAddr
  push_ok (ok a) out = a ∷ out
  push_ok (err e) out = out

  -- The step of the walk for an address family; `none` ends the walk.
  unfoldable pub step_of : ℕ → Option ℕ
  step_of family =
      if family == p.af_inet
      then some p.size_in
      else if family == p.af_inet6
      then some p.size_in6
      else none

  -- The walk over `count` entries from the bytes at the pointer.
  unfoldable pub parse_array : Bytes → ℕ → List SocketAddr
  parse_array bytes zero = []
  parse_array bytes (suc count) = elim (step_of (p.read_family bytes)) [
    | none ↦ []
    | some step ↦
        push_ok (from_raw (zero_extend p (take step bytes))) (parse_array (drop step bytes) count)
  ]
