-- ===== src/Association/Send.antt =====
-- `send_with`, `send`, `shutdown` and `abort` of an association. What the runtime shows to the
-- waiting task is an argument, a list of polls; where it ends the future is still waiting.
pub mod Flags
pub mod Over
pub mod Sent
use async_sctp.Common.{
  ℕ, Bool, Bytes, List, [], ◌∷◌, Option, none, some, to_be32, true, if◌then◌else◌,
}
use async_sctp.Error.{IoError, os_error, io, not_connected}
use async_sctp.Platform.{Platform, is_would_block}
use async_sctp.Kernel.{
  Fd, Call, Ret, ret, fail, Io, pure, throw, wait, ◌>>=◌, ◌>>◌, issue, ignore, syscall_,
}
use async_sctp.Association.{SctpAssociation, SendOptions, default_options, sinfo_flags}

-- What `ready(WRITABLE | ERROR)` gives when it is done.
pub data Readiness : Type 0 where
  ready : Readiness
  reactor_error : IoError → Readiness

-- One poll of the biased `select!`: the readiness if there is any, and whether `ended` is closed.
pub record SelectPoll : Type 0 where
  pub readiness : Option Readiness
  pub closed : Bool

-- The arguments of `sctp_sendmsg`.
unfoldable pub sendmsg_call : Platform → Fd → Bytes → ℕ → ℕ → SendOptions → Call
sendmsg_call p fd msg stream ppid opts =
    Call.sendmsg fd msg (to_be32 p.endian ppid) (sinfo_flags opts) stream opts.ttl_ms

-- What follows the call; `again` is the next round of the loop.
unfoldable pub after_send : Platform → Fd → Ret → Io ℕ → Io ℕ
after_send p fd (ret n) again = pure n
after_send p fd (fail errno) again =
    if is_would_block p errno
    then ignore (Call.clear_ready fd) >> again
    else throw (io (os_error errno))

abbrev pub attempt : Platform → Fd → Call → Io ℕ → Io ℕ
attempt p fd call again = issue call >>= λ a. after_send p fd a.result again

-- The branch that `select!` takes. With neither branch done the task waits on.
unfoldable pub on_poll : Platform → Fd → Call → Option Readiness → Bool → Io ℕ → Io ℕ
on_poll p fd call (some ready) closed again = attempt p fd call again
on_poll p fd call (some (reactor_error e)) closed again = throw (io e)
on_poll p fd call none closed again = if closed then throw not_connected else again

unfoldable pub send_loop : Platform → Fd → Call → List SelectPoll → Io ℕ
send_loop p fd call [] = wait
send_loop p fd call (poll ∷ polls) =
    on_poll p fd call poll.readiness poll.closed (send_loop p fd call polls)

unfoldable pub send_with :
    Platform → SctpAssociation → Bytes → ℕ → ℕ → SendOptions → List SelectPoll → Io ℕ
send_with p a msg stream ppid opts = send_loop p a.fd (sendmsg_call p a.fd msg stream ppid opts)

unfoldable pub send : Platform → SctpAssociation → Bytes → ℕ → ℕ → List SelectPoll → Io ℕ
send p a msg stream ppid = send_with p a msg stream ppid default_options

unfoldable pub shutdown : Platform → SctpAssociation → Io (Unit {0})
shutdown p a = syscall_ (Call.shutdown a.fd p.shut_wr)

unfoldable pub abort : Platform → SctpAssociation → List SelectPoll → Io (Unit {0})
abort p a polls =
    send_with p a [] 0 0 (record default_options { abort = true }) polls >>= λ _. pure tt
