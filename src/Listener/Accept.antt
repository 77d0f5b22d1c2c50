-- ===== src/Listener/Accept.antt =====
-- `accept` and `local_addr` of a listener. Which outcome each `readable().await` of `accept` has
-- is an argument; where the list ends the future is still waiting.
use async_sctp.Common.{◌≡◌, arith, List, [], ◌∷◌, Bytes, if◌then◌else◌}
use async_sctp.Error.{IoError, os_error, io, Result, ok, err}
use async_sctp.Platform.{Platform, is_would_block}
use async_sctp.Addr.{SocketAddr, from_raw}
use async_sctp.Kernel.{
  Fd, Call, Ret, ret, fail, History, Os, Io, pure, throw, wait, ◌>>=◌, ◌>>◌, issue, ignore,
}
use async_sctp.Socket.{lift, local_addr_of}
use async_sctp.Socket.Ownership.{ClosedIfRegistered, ClosedIfRegistered-result}
use async_sctp.Association.{SctpAssociation}
use async_sctp.Association.Connect.{from_raw_fd}
use async_sctp.Association.Connect.Closes.{from_raw_fd-ClosedIfRegistered}
use async_sctp.Listener.{SctpListener}

pub data Wake : Type 0 where
  readable : Wake
  reactor_error : IoError → Wake

-- What follows the `accept` call; `again` is the next round of the loop.
unfoldable pub accepted :
    Platform
    → Fd
    → Bytes
    → Ret
    → Io (SctpAssociation × SocketAddr)
    → Io (SctpAssociation × SocketAddr)
accepted p fd storage (fail errno) again =
    if is_would_block p errno
    then ignore (Call.clear_ready fd) >> again
    else throw (io (os_error errno))
accepted p fd storage (ret new_fd) again = do
  peer ← lift (from_raw p storage)
  assoc ← from_raw_fd p new_fd
  pure (assoc, peer)

unfoldable pub accept : Platform → SctpListener → List Wake → Io (SctpAssociation × SocketAddr)
accept p l [] = wait
accept p l (reactor_error e ∷ ws) = throw (io e)
accept p l (readable ∷ ws) =
    issue (Call.accept l.fd) >>= λ a. accepted p l.fd a.storage a.result (accept p l ws)

unfoldable pub local_addr : Platform → SctpListener → Io SocketAddr
local_addr p l = local_addr_of p l.fd

-- What follows an `accept` call that gave the descriptor `fd`.
accepted-ClosedIfRegistered :
    (p : Platform) (fd : Fd) (peer : Result SocketAddr) (os : Os) (h : History)
    → ClosedIfRegistered {A = SctpAssociation × SocketAddr} fd h
        ((lift peer >>= λ a. (from_raw_fd p fd >>= λ assoc. pure (assoc, a))) os h)
unfolding lift ◌>>=◌ pure throw
accepted-ClosedIfRegistered p fd (ok a) os h =
    unfold ◌>>=◌ pure in
    ClosedIfRegistered-result fd (from_raw_fd p fd) os h (λ assoc. (assoc, a))
      (from_raw_fd-ClosedIfRegistered p fd os h)
accepted-ClosedIfRegistered p fd (err e) os h = ground arith

-- When the socket is readable and `accept` gives the descriptor `fd`, a success has registered
-- `fd` and left it open, and a failure has closed it exactly if the registration was tried: a
-- peer address of another family, or a failure to make `fd` non-blocking or to subscribe to the
-- events, leaves it open with no owner. The wait is over.
pub accept-ClosedIfRegistered :
    (p : Platform) (l : SctpListener) (ws : List Wake) (os : Os) (h : History) (fd : Fd)
    → (os h (Call.accept l.fd)).result ≡ ret fd
    → ClosedIfRegistered fd h (accept p l (readable ∷ ws) os h)
unfolding accept accepted ◌>>=◌ issue
accept-ClosedIfRegistered p l ws os h fd e = rw e (
    accepted-ClosedIfRegistered p fd (from_raw p (os h (Call.accept l.fd)).storage) os
      (Call.accept l.fd ∷ h))
