-- ===== src/Kernel.antt =====
-- The boundary of the crate: the calls it makes of the kernel, of libc and of the runtime, as
-- src/sys.rs and `libc` declare them. What a call answers is not code of this repository: it is a
-- parameter `Os`, any function of the calls made before. `Io` is a computation that makes calls
-- and may end in an `SctpError`, the code's `Result<_, SctpError>` with `?`.
pub mod Bind
pub mod Frame
pub mod Ledger
pub mod Open
pub mod Prompt
pub mod Script
use async_sctp.Common.{ℕ, ℤ, Bytes, Bool, List, ◌∷◌, if◌then◌else◌}
use async_sctp.Error.{IoError, os_error, SctpError, io}
use async_sctp.Sys.{SctpInitMsg, SctpSndRcvInfo, SctpEventSubscribe}

abbrev pub Fd : Type 0
Fd = ℕ

-- The value of a socket option: a `c_int`, or one of the structures of `sys`.
pub data OptionValue : Type 0 where
  int : ℤ → OptionValue
  init : SctpInitMsg → OptionValue
  events : SctpEventSubscribe → OptionValue

-- One call with its arguments. `register` is `AsyncFd::register`, `clear_ready` is the
-- `clear_ready` of a readiness guard; `sendmsg` and `send` are `sctp_sendmsg` and
-- `sctp_send`.
pub data Call : Type 0 where
  socket : (domain type protocol : ℕ) → Call
  close : Fd → Call
  setsockopt : Fd → (level name : ℕ) → OptionValue → Call
  getsockopt : Fd → (level name : ℕ) → Call
  fcntl_getfl : Fd → Call
  fcntl_setfl : Fd → (flags : ℕ) → Call
  bind : Fd → (addr : Bytes) → (len : ℕ) → Call
  bindx : Fd → (addrs : Bytes) → (count flags : ℕ) → Call
  connectx : Fd → (addrs : Bytes) → (count : ℕ) → Call
  listen : Fd → (backlog : ℕ) → Call
  accept : Fd → Call
  getsockname : Fd → Call
  poll : Fd → (events : ℕ) → Call
  shutdown : Fd → (how : ℕ) → Call
  peeloff : Fd → (assoc_id : ℤ) → Call
  getpaddrs getladdrs : Fd → (assoc_id : ℤ) → Call
  freepaddrs freeladdrs : Call
  register : Fd → Call
  clear_ready : Fd → Call
  sendmsg : Fd → (msg : Bytes) → (ppid flags stream timetolive : ℕ) → Call
  send : Fd → (msg : Bytes) → SctpSndRcvInfo → Call

-- What a C function returns: a number that is not negative, or a negative one with `errno`.
pub data Ret : Type 0 where
  ret : ℕ → Ret
  fail : ℕ → Ret

-- An answer: the return value, and what the call wrote through its pointers: an address
-- (`accept`, `getsockname`), an option's value or the `revents` of `poll`, an array of addresses.
pub record Answer : Type 0 where
  pub result : Ret
  pub storage : Bytes
  pub value : ℕ
  pub array : Bytes

-- The calls made so far, the latest first.
abbrev pub History : Type 0
History = List Call

abbrev pub Os : Type 0
Os = History → Call → Answer

-- `waiting`: an await of this computation is not over.
pub data Run (A : Type 0) : Type 0 where
  done : A → History → Run A
  failed : SctpError → History → Run A
  waiting : History → Run A

abbrev pub Io : Type 0 → Type 0
Io A = Os → History → Run A

unfoldable pub pure : {A : Type 0} → A → Io A
pure a os h = done a h

unfoldable pub throw : {A : Type 0} → SctpError → Io A
throw e os h = failed e h

-- An await that never ends.
unfoldable pub wait : {A : Type 0} → Io A
wait os h = waiting h

abbrev pub and_then : {A B : Type 0} → Os → Run A → (A → Io B) → Run B
and_then os (done a h) f = f a os h
and_then os (failed e h) f = failed e h
and_then os (waiting h) f = waiting h

infixl 5 ◌>>=◌ ◌>>◌
unfoldable pub ◌>>=◌ : {A B : Type 0} → Io A → (A → Io B) → Io B
◌>>=◌ m f os h = and_then os (m os h) f

abbrev pub ◌>>◌ : {B : Type 0} → Io (Unit {0}) → Io B → Io B
m >> k = m >>= λ _. k

unfoldable pub issue : Call → Io Answer
issue c os h = done (os h c) (c ∷ h)

-- A call whose result the code ignores.
abbrev pub ignore : Call → Io (Unit {0})
ignore c = issue c >>= λ _. pure tt

-- `if ret < 0 { return Err(SctpError::Io(io::Error::last_os_error())) }`.
unfoldable pub checked : Ret → Io ℕ
unfolding pure throw
checked (ret n) = pure n
checked (fail errno) = throw (io (os_error errno))

abbrev pub syscall : Call → Io ℕ
syscall c = issue c >>= λ a. checked a.result

abbrev pub syscall_ : Call → Io (Unit {0})
syscall_ c = syscall c >>= λ _. pure tt

abbrev pub close_failed : {A : Type 0} → Fd → Run A → Run A
close_failed fd (done a h) = done a h
close_failed fd (failed e h) = failed e (close fd ∷ h)
close_failed fd (waiting h) = waiting h

-- `m` while a value owns the descriptor `fd`, which closes it when `m` returns an error.
unfoldable pub closing : {A : Type 0} → Fd → Io A → Io A
closing fd m os h = close_failed fd (m os h)

-- `if b { m }`.
abbrev pub when : Bool → Io (Unit {0}) → Io (Unit {0})
when b m = if b then m else pure tt

pub ruleset io_steps = (◌>>=◌, pure, throw, wait, issue, checked, closing)
