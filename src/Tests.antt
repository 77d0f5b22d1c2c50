-- ===== src/Tests.antt =====
-- A platform to run the code on: x86-64 Linux, whose structures stand in memory one field after
-- the other. The child modules have the tests.
pub mod Wire
pub mod Clients
pub mod Made
pub mod Program
pub mod Examples
pub mod Python
pub mod Reads
pub mod Receive
pub mod Descriptors
use async_sctp.Common.{
  ◌<◌, ◌^◌, ◌≡◌, refl, ap, ◌∙◌, arith, ◌++◌, append_assoc, Bytes, little, length, take, drop,
  replicate, length-append, take-append_of_length, drop-append_of_length, to_ne_bytes16,
  to_ne_bytes32, u16-bytes, u32-bytes,
}
use async_sctp.Notification.{u16_at, u32_at}
use async_sctp.Platform.{SockaddrIn, SockaddrIn6, Platform, InRange, InRange6, IsPlatform}

abbrev pub bytes_in : SockaddrIn → Bytes
bytes_in s =
    to_ne_bytes16 little s.sin_family
    ++ (to_ne_bytes16 little s.sin_port ++ (to_ne_bytes32 little s.s_addr ++ replicate 8 0))

abbrev pub bytes_in6 : SockaddrIn6 → Bytes
bytes_in6 s =
    to_ne_bytes16 little s.sin6_family
    ++ (to_ne_bytes16 little s.sin6_port
        ++ (to_ne_bytes32 little s.sin6_flowinfo
            ++ (s.s6_addr ++ to_ne_bytes32 little s.sin6_scope_id)))

abbrev pub read_in : Bytes → SockaddrIn
read_in b = record {
  sin_family = u16_at little b 0;
  sin_port = u16_at little b 2;
  s_addr = u32_at little b 4;
}

abbrev pub read_in6 : Bytes → SockaddrIn6
read_in6 b = record {
  sin6_family = u16_at little b 0;
  sin6_port = u16_at little b 2;
  sin6_flowinfo = u32_at little b 4;
  s6_addr = take 16 (drop 8 b);
  sin6_scope_id = u32_at little (drop 16 (drop 8 b)) 0;
}

abbrev pub linux : Platform
linux = record {
  endian = little;
  af_inet = 2;
  af_inet6 = 10;
  sock_stream = 1;
  sock_seqpacket = 5;
  sol_socket = 1;
  so_reuseaddr = 2;
  so_rcvbuf = 8;
  so_sndbuf = 7;
  so_error = 4;
  ipproto_ipv6 = 41;
  ipv6_v6only = 26;
  o_nonblock = 2048;
  pollout = 4;
  pollerr = 8;
  pollhup = 16;
  pollnval = 32;
  shut_wr = 1;
  einprogress = 115;
  eagain = 11;
  ewouldblock = 11;
  size_in = 16;
  size_in6 = 28;
  size_storage = 128;
  bytes_in = bytes_in;
  bytes_in6 = bytes_in6;
  read_in = read_in;
  read_in6 = read_in6;
  read_family = λ b. u16_at little b 0;
}

linux_read_in : (s : SockaddrIn) (rest : Bytes) → InRange s → read_in (bytes_in s ++ rest) ≡ s
linux_read_in s rest h =
    cc (u16-bytes s.sin_family h.0, u16-bytes s.sin_port h.1, u32-bytes s.s_addr h.2)

module _ (s : SockaddrIn6) (rest : Bytes) (h : length s.s6_addr ≡ 16) where
  linux_addr : take 16 (drop 8 (bytes_in6 s ++ rest)) ≡ s.s6_addr
  linux_addr = ap (take 16) (append_assoc s.s6_addr _ rest) ∙ take-append_of_length 16 s.s6_addr _ h

  linux_scope :
      s.sin6_scope_id < 2 ^ 32
      → u32_at little (drop 16 (drop 8 (bytes_in6 s ++ rest))) 0 ≡ s.sin6_scope_id
  linux_scope r =
      ap (λ b. u32_at little b 0)
        (ap (drop 16) (append_assoc s.s6_addr (to_ne_bytes32 little s.sin6_scope_id) rest)
          ∙ drop-append_of_length 16 s.s6_addr _ h)
      ∙ u32-bytes s.sin6_scope_id r

linux_read_in6 : (s : SockaddrIn6) (rest : Bytes) → InRange6 s → read_in6 (bytes_in6 s ++ rest) ≡ s
linux_read_in6 s rest h = cc (
  u16-bytes s.sin6_family h.0,
  u16-bytes s.sin6_port h.1,
  u32-bytes s.sin6_flowinfo h.2,
  linux_addr s rest h.3,
  linux_scope s rest h.3 h.4,
)

linux_length_in6 : (s : SockaddrIn6) → length s.s6_addr ≡ 16 → length (bytes_in6 s) ≡ 28
linux_length_in6 s h = omega (arith, length-append s.s6_addr (to_ne_bytes32 little s.sin6_scope_id))

pub linux-IsPlatform : IsPlatform linux
linux-IsPlatform = record {
  families_ne = λ e. absurd (omega (arith, e));
  inet_in_range = omega arith;
  inet6_in_range = omega arith;
  length-bytes_in = λ s. refl;
  length-bytes_in6 = linux_length_in6;
  read-bytes_in = linux_read_in;
  read-bytes_in6 = linux_read_in6;
  family-bytes_in = λ s rest h. u16-bytes s.sin_family h;
  family-bytes_in6 = λ s rest h. u16-bytes s.sin6_family h;
}
