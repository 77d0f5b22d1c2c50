-- ===== src/Addr/RoundTrip.antt =====
-- `to_raw` and `from_raw`, `pack` and `parse_array` undo one another.
use async_sctp.Common.{
  ℕ, suc, ◌<◌, ◌^◌, ◌≡◌, refl, ap, ◌∙◌, some, arith, List, [], ◌∷◌, ◌++◌, append_assoc, Bytes, All,
  length, take, eq→==, from_be16-to_be16, to_be16-lt, from_be32, from_ne_bytes32, octets_of,
  take-length_append, take-append_of_length, drop-length_append, Endian,
}
use async_sctp.Error.{ok}
use async_sctp.Platform.{Platform, IsPlatform, InRange, InRange6, zero_extend}
use async_sctp.Addr.{
  SocketAddrV4, SocketAddrV6, SocketAddr, v4, v6, sockaddr_in, sockaddr_in6, to_raw, from_in,
  from_in6, from_raw, pack, step_of, parse_array,
}

-- What the types of std guarantee of an address.
abbrev pub IsAddrV4 : SocketAddrV4 → Type 0
IsAddrV4 a =
    (a.octets.0 < 256)
    × (a.octets.1 < 256)
    × (a.octets.2 < 256)
    × (a.octets.3 < 256)
    × (a.port < 2 ^ 16)

abbrev pub IsAddrV6 : SocketAddrV6 → Type 0
IsAddrV6 a =
    (length a.octets ≡ 16) × (a.port < 2 ^ 16) × (a.flowinfo < 2 ^ 32) × (a.scope_id < 2 ^ 32)

abbrev pub IsAddr : SocketAddr → Type 0
IsAddr (v4 a) = IsAddrV4 a
IsAddr (v6 a) = IsAddrV6 a

from_ne_bytes32-lt :
    (e : Endian) (a b c d : ℕ)
    → a < 256
    → b < 256
    → c < 256
    → d < 256
    → from_ne_bytes32 e (a, b, c, d) < 2 ^ 32
from_ne_bytes32-lt Endian.little a b c d ha hb hc hd = omega arith
from_ne_bytes32-lt Endian.big a b c d ha hb hc hd = omega arith

-- The octets of an IPv4 address come back in their order on either kind of machine.
octets-from_ne_bytes32 :
    (e : Endian) (a b c d : ℕ)
    → a < 256
    → b < 256
    → c < 256
    → d < 256
    → octets_of (from_be32 e (from_ne_bytes32 e (a, b, c, d))) ≡ (a, b, c, d)
octets-from_ne_bytes32 Endian.little a b c d ha hb hc hd = ground arith
octets-from_ne_bytes32 Endian.big a b c d ha hb hc hd = ground arith

module _ (p : Platform) (is : IsPlatform p) where
  sockaddr_in-InRange : (a : SocketAddrV4) → IsAddrV4 a → InRange (sockaddr_in p a)
  unfolding sockaddr_in
  sockaddr_in-InRange a h = (
    is.inet_in_range,
    to_be16-lt p.endian a.port h.4,
    from_ne_bytes32-lt p.endian _ _ _ _ h.0 h.1 h.2 h.3,
  )

  sockaddr_in6-InRange6 : (a : SocketAddrV6) → IsAddrV6 a → InRange6 (sockaddr_in6 p a)
  unfolding sockaddr_in6
  sockaddr_in6-InRange6 a h = (is.inet6_in_range, to_be16-lt p.endian a.port h.1, h.2, h.0, h.3)

  from_in-sockaddr_in : (a : SocketAddrV4) → IsAddrV4 a → from_in p (sockaddr_in p a) ≡ v4 a
  unfolding from_in sockaddr_in
  from_in-sockaddr_in a h = ground (
    arith,
    from_be16-to_be16 p.endian a.port h.4,
    octets-from_ne_bytes32 p.endian _ _ _ _ h.0 h.1 h.2 h.3,
  )

  from_in6-sockaddr_in6 : (a : SocketAddrV6) → IsAddrV6 a → from_in6 p (sockaddr_in6 p a) ≡ v6 a
  unfolding from_in6 sockaddr_in6
  from_in6-sockaddr_in6 a h = ground (arith, from_be16-to_be16 p.endian a.port h.1)

  from_raw_inet :
      (bytes : Bytes)
      → p.read_family bytes ≡ p.af_inet
      → from_raw p bytes ≡ ok (from_in p (p.read_in bytes))
  unfolding from_raw
  from_raw_inet bytes e = rw (eq→== e)

  from_raw_inet6 :
      (bytes : Bytes)
      → p.read_family bytes ≡ p.af_inet6
      → from_raw p bytes ≡ ok (from_in6 p (p.read_in6 bytes))
  unfolding from_raw
  from_raw_inet6 bytes e = ground (arith, is.families_ne)

  -- The bytes of an address, however they go on, are read back as that address.
  from_raw_bytes4 :
      (a : SocketAddrV4) (rest : Bytes)
      → IsAddrV4 a
      → from_raw p (p.bytes_in (sockaddr_in p a) ++ rest) ≡ ok (v4 a)
  unfolding sockaddr_in
  from_raw_bytes4 a rest h =
      let s = sockaddr_in p a in
      let ok_s = sockaddr_in-InRange a h in
      cc (
        from_raw_inet (p.bytes_in s ++ rest) (is.family-bytes_in s rest ok_s.0),
        is.read-bytes_in s rest ok_s,
        from_in-sockaddr_in a h,
      )

  from_raw_bytes6 :
      (a : SocketAddrV6) (rest : Bytes)
      → IsAddrV6 a
      → from_raw p (p.bytes_in6 (sockaddr_in6 p a) ++ rest) ≡ ok (v6 a)
  unfolding sockaddr_in6
  from_raw_bytes6 a rest h =
      let s = sockaddr_in6 p a in
      let ok_s = sockaddr_in6-InRange6 a h in
      cc (
        from_raw_inet6 (p.bytes_in6 s ++ rest) (is.family-bytes_in6 s rest ok_s.0),
        is.read-bytes_in6 s rest ok_s,
        from_in6-sockaddr_in6 a h,
      )

  -- An address within the ranges of its types, converted to a raw structure and back, is the same
  -- address, where libc's structures are laid out as `IsPlatform` says.
  pub from_raw-to_raw : (addr : SocketAddr) → IsAddr addr → from_raw p (to_raw p addr).0 ≡ ok addr
  unfolding to_raw
  from_raw-to_raw (v4 a) h = from_raw_bytes4 a _ h
  from_raw-to_raw (v6 a) h = from_raw_bytes6 a _ h

  step_of_inet6 : step_of p p.af_inet6 ≡ some p.size_in6
  unfolding step_of
  step_of_inet6 = ground (arith, is.families_ne)

  step_of_inet : step_of p p.af_inet ≡ some p.size_in
  unfolding step_of
  step_of_inet = ground arith

  -- One round of the walk over the bytes of one entry.
  parse_array_round :
      (entry rest : Bytes) (addr : SocketAddr) (count : ℕ)
      → step_of p (p.read_family (entry ++ rest)) ≡ some (length entry)
      → from_raw p (zero_extend p entry) ≡ ok addr
      → parse_array p (entry ++ rest) (suc count) ≡ addr ∷ parse_array p rest count
  unfolding parse_array
  parse_array_round entry rest addr count e r =
      rw (e, parse_array) (rw (take-length_append entry rest, drop-length_append entry rest, r))

  -- The valid part of a raw structure is the bytes of the address.
  entry4 :
      (a : SocketAddrV4)
      → take (to_raw p (v4 a)).1 (to_raw p (v4 a)).0 ≡ p.bytes_in (sockaddr_in p a)
  unfolding to_raw
  entry4 a = take-append_of_length p.size_in _ _ (is.length-bytes_in (sockaddr_in p a))

  entry6 :
      (a : SocketAddrV6)
      → length a.octets ≡ 16
      → take (to_raw p (v6 a)).1 (to_raw p (v6 a)).0 ≡ p.bytes_in6 (sockaddr_in6 p a)
  unfolding to_raw sockaddr_in6
  entry6 a h = take-append_of_length p.size_in6 _ _ (is.length-bytes_in6 (sockaddr_in6 p a) h)

  parse_array_step :
      (addr : SocketAddr) (rest : Bytes) (count : ℕ)
      → IsAddr addr
      → parse_array p (take (to_raw p addr).1 (to_raw p addr).0 ++ rest) (suc count)
        ≡ addr ∷ parse_array p rest count
  unfolding sockaddr_in sockaddr_in6
  parse_array_step (v4 a) rest count h =
      let s = sockaddr_in p a in
      rw (entry4 a) (
        parse_array_round (p.bytes_in s) rest (v4 a) count
          (cc (is.family-bytes_in s rest is.inet_in_range, step_of_inet, is.length-bytes_in s))
          (from_raw_bytes4 a _ h))
  parse_array_step (v6 a) rest count h =
      let s = sockaddr_in6 p a in
      rw (entry6 a h.0) (
        parse_array_round (p.bytes_in6 s) rest (v6 a) count
          (cc (
            is.family-bytes_in6 s rest is.inet6_in_range,
            step_of_inet6,
            is.length-bytes_in6 s h.0,
          ))
          (from_raw_bytes6 a _ h))

  -- The walk over packed addresses, v4 and v6 mixed, each within the ranges of its types, gives
  -- them back in order, whatever bytes follow them, where libc's structures are laid out as
  -- `IsPlatform` says.
  pub parse_array-pack :
      (addrs : List SocketAddr) (rest : Bytes)
      → All IsAddr addrs
      → parse_array p (pack p addrs ++ rest) (length addrs) ≡ addrs
  unfolding pack
  parse_array-pack [] rest h = unfold parse_array in refl
  parse_array-pack (addr ∷ addrs) rest h = rw append_assoc (
      parse_array_step addr (pack p addrs ++ rest) (length addrs) h.0
      ∙ ap (λ r. addr ∷ r) (parse_array-pack addrs rest h.1))
