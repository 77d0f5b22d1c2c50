-- ===== src/Platform.antt =====
-- What the crate takes from the `libc` crate and from the machine: byte order, constants, and the
-- layout of the socket address structures. None of it is code of this repository, so all of it is
-- a parameter, with the documented facts that proofs rely on in `IsPlatform`.
use async_sctp.Common.{
  ℕ, ◌-◌, ◌<◌, ◌^◌, ◌≡◌, ◌≢◌, Bool, ◌||◌, ◌++◌, Bytes, Endian, ◌==◌, length, replicate,
}

-- `libc::sockaddr_in` and `libc::sockaddr_in6`, without padding.
pub record SockaddrIn : Type 0 where
  pub sin_family : ℕ
  pub sin_port : ℕ
  pub s_addr : ℕ

pub record SockaddrIn6 : Type 0 where
  pub sin6_family : ℕ
  pub sin6_port : ℕ
  pub sin6_flowinfo : ℕ
  pub s6_addr : Bytes
  pub sin6_scope_id : ℕ

pub record Platform : Type 0 where
  pub endian : Endian
  pub af_inet : ℕ
  pub af_inet6 : ℕ
  pub sock_stream : ℕ
  pub sock_seqpacket : ℕ
  pub sol_socket : ℕ
  pub so_reuseaddr : ℕ
  pub so_rcvbuf : ℕ
  pub so_sndbuf : ℕ
  pub so_error : ℕ
  pub ipproto_ipv6 : ℕ
  pub ipv6_v6only : ℕ
  pub o_nonblock : ℕ
  pub pollout : ℕ
  pub pollerr : ℕ
  pub pollhup : ℕ
  pub pollnval : ℕ
  pub shut_wr : ℕ
  pub einprogress : ℕ
  pub eagain : ℕ
  pub ewouldblock : ℕ
  -- `size_of` of `sockaddr_in`, `sockaddr_in6` and `sockaddr_storage`.
  pub size_in : ℕ
  pub size_in6 : ℕ
  pub size_storage : ℕ
  -- The bytes of a structure, and the structure at the start of some bytes.
  pub bytes_in : SockaddrIn → Bytes
  pub bytes_in6 : SockaddrIn6 → Bytes
  pub read_in : Bytes → SockaddrIn
  pub read_in6 : Bytes → SockaddrIn6
  -- `sa_family`, which is `ss_family`, `sin_family` and `sin6_family` too.
  pub read_family : Bytes → ℕ

-- `io::Error::kind` is `WouldBlock` for these two error numbers.
abbrev pub is_would_block : Platform → ℕ → Bool
is_would_block p errno = errno == p.eagain || errno == p.ewouldblock

-- Bytes after `bytes` up to the size of a `sockaddr_storage`, all zero.
abbrev pub zero_extend : Platform → Bytes → Bytes
zero_extend p bytes = bytes ++ replicate (p.size_storage - length bytes) 0

abbrev pub InRange : SockaddrIn → Type 0
InRange s = (s.sin_family < 2 ^ 16) × (s.sin_port < 2 ^ 16) × (s.s_addr < 2 ^ 32)

abbrev pub InRange6 : SockaddrIn6 → Type 0
InRange6 s =
    (s.sin6_family < 2 ^ 16)
    × (s.sin6_port < 2 ^ 16)
    × (s.sin6_flowinfo < 2 ^ 32)
    × (length s.s6_addr ≡ 16)
    × (s.sin6_scope_id < 2 ^ 32)

-- The two structures are laid out without overlap, so what is written is what is read, whatever
-- bytes follow.
pub record IsPlatform (p : Platform) : Type 0 where
  pub families_ne : p.af_inet ≢ p.af_inet6
  pub inet_in_range : p.af_inet < 2 ^ 16
  pub inet6_in_range : p.af_inet6 < 2 ^ 16
  pub length-bytes_in : (s : SockaddrIn) → length (p.bytes_in s) ≡ p.size_in
  pub length-bytes_in6 :
      (s : SockaddrIn6) → length s.s6_addr ≡ 16 → length (p.bytes_in6 s) ≡ p.size_in6
  pub read-bytes_in :
      (s : SockaddrIn) (rest : Bytes) → InRange s → p.read_in (p.bytes_in s ++ rest) ≡ s
  pub read-bytes_in6 :
      (s : SockaddrIn6) (rest : Bytes) → InRange6 s → p.read_in6 (p.bytes_in6 s ++ rest) ≡ s
  pub family-bytes_in :
      (s : SockaddrIn) (rest : Bytes)
      → s.sin_family < 2 ^ 16
      → p.read_family (p.bytes_in s ++ rest) ≡ s.sin_family
  pub family-bytes_in6 :
      (s : SockaddrIn6) (rest : Bytes)
      → s.sin6_family < 2 ^ 16
      → p.read_family (p.bytes_in6 s ++ rest) ≡ s.sin6_family
