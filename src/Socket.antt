-- ===== src/Socket.antt =====
-- The helpers on a descriptor that src/association.rs shares with the listener and the server,
-- the binding of addresses that the three repeat, and src/reactor.rs.
pub mod Prompt
pub mod Quiet
pub mod Script
pub mod Ownership
use async_sctp.Common.{
  ℕ, ◌-◌, Bool, true, not, ◌&&◌, List, bit_and, bit_or, ltb, ◌==◌, if◌then◌else◌, length, drop, any,
  pos,
}
use async_sctp.Error.{io, os_error, Result, ok, err}
use async_sctp.Platform.{Platform}
use async_sctp.Sys.{sol_sctp, sctp_events, default_events, sctp_bindx_add_addr}
use async_sctp.Addr.{SocketAddr, is_ipv6, to_raw, from_raw, pack}
use async_sctp.Kernel.{
  Fd, OptionValue, Call, Ret, ret, fail, Answer, Io, pure, throw, ◌>>=◌, ◌>>◌, issue, ignore,
  checked, syscall, syscall_, closing, when,
}
use async_sctp.Config.{bool_as_c_int}

-- `reactor::register`: the runtime takes the socket by value, so a registration that fails drops
-- it, and the drop closes the descriptor.
unfoldable pub register : Fd → Io (Unit {0})
register fd = closing fd (syscall_ (Call.register fd))

unfoldable pub set_nonblocking : Platform → Fd → Io (Unit {0})
set_nonblocking p fd = do
  flags ← syscall (Call.fcntl_getfl fd)
  syscall_ (Call.fcntl_setfl fd (bit_or flags p.o_nonblock))

unfoldable pub set_v6only : Platform → Fd → Bool → Io (Unit {0})
set_v6only p fd on =
    ignore (Call.setsockopt fd p.ipproto_ipv6 p.ipv6_v6only (OptionValue.int (bool_as_c_int on)))

unfoldable pub set_reuseaddr : Platform → Fd → Io (Unit {0})
set_reuseaddr p fd =
    ignore (Call.setsockopt fd p.sol_socket p.so_reuseaddr (OptionValue.int (pos 1)))

unfoldable pub configure_events : Fd → Io (Unit {0})
configure_events fd =
    syscall_ (Call.setsockopt fd sol_sctp sctp_events (OptionValue.events default_events))

-- The error that `SO_ERROR` holds, if it holds one.
abbrev pub so_error_of : ℕ → Io (Unit {0})
so_error_of err_val = if err_val == 0 then pure tt else throw (io (os_error err_val))

unfoldable pub check_so_error : Platform → Fd → Io (Unit {0})
check_so_error p fd = do
  a ← issue (Call.getsockopt fd p.sol_socket p.so_error)
  _ ← checked a.result
  so_error_of a.value

pub data Connecting : Type 0 where
  established failed pending : Connecting

-- What the answer of `poll` says.
abbrev pub connecting : Platform → Ret → ℕ → Connecting
connecting p (ret n) revents =
    if ltb 0 n && not (bit_and revents p.pollout == 0)
    then established
    else if ltb 0 n && not (bit_and revents (bit_or (bit_or p.pollerr p.pollhup) p.pollnval) == 0)
    then failed
    else pending
connecting p (fail errno) revents = pending

unfoldable pub probe : Platform → Fd → Io Connecting
probe p fd = do a ← issue (Call.poll fd p.pollout); pure (connecting p a.result a.value)

unfoldable pub outcome : Platform → Fd → Io Connecting
outcome p fd = check_so_error p fd >> probe p fd

-- `AF_INET6` as soon as one address is IPv6.
abbrev pub domain_of : Platform → List SocketAddr → ℕ
domain_of p addrs = if any is_ipv6 addrs then p.af_inet6 else p.af_inet

-- `if domain == AF_INET6 { set_v6only(fd, false) }`.
abbrev pub allow_v4 : Platform → ℕ → Fd → Io (Unit {0})
allow_v4 p domain fd = when (domain == p.af_inet6) (set_v6only p fd Bool.false)

unfoldable pub bind_primary : Platform → Fd → SocketAddr → Io (Unit {0})
bind_primary p fd primary =
    let (sockaddr, socklen) = to_raw p primary in syscall_ (Call.bind fd sockaddr socklen)

-- The addresses after the first are added by one `sctp_bindx`.
unfoldable pub bind_further : Platform → Fd → List SocketAddr → Io (Unit {0})
bind_further p fd addrs =
    when (ltb 1 (length addrs))
      (syscall_ (Call.bindx fd (pack p (drop 1 addrs)) (length addrs - 1) sctp_bindx_add_addr))

-- `?` on a `Result`.
unfoldable pub lift : {A : Type 0} → Result A → Io A
lift (ok a) = pure a
lift (err e) = throw e

-- `local_addr` of the listener and of the server.
unfoldable pub local_addr_of : Platform → Fd → Io SocketAddr
local_addr_of p fd = do
  a ← issue (Call.getsockname fd)
  _ ← checked a.result
  lift (from_raw p a.storage)
