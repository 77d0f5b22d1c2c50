-- ===== src/Python.antt =====
-- src/python.rs: the bindings to Python. An awaitable that Python gets is run to its end: a call
-- that raises before it makes the awaitable and one that raises when it is awaited are not told
-- apart. What std, the environment and the runtime give is a parameter.
pub mod Assembly
pub mod Association
pub mod Config
pub mod Invalid
pub mod Listener
pub mod Ppids
pub mod Reparsed
pub mod Server
use async_sctp.Common.{
  ℕ, ltb, ◌≡◌, Bool, true, false, List, [], ◌∷◌, ◌++◌, Option, none, some, if◌then◌else◌, ℤ, Text,
  codes, decimal, decimal_ℤ,
}
use async_sctp.Error.{
  IoError, SctpError, io, peer_shutdown, notification, invalid_address, not_connected,
}
use async_sctp.Addr.{SocketAddr}
use async_sctp.Addr.RoundTrip.{IsAddr}
use async_sctp.Kernel.{History, Os, Run, done, failed, waiting, Io}
use async_sctp.Types.{RecvInfo}
use async_sctp.Ppid.{name, display}

-- What the bindings take from std and the environment: `FromStr` and `Display` of a `SocketAddr`,
-- `Display` of an `io::Error`, `FromStr` of a `usize`, and the variable
-- `ASYNC_SCTP_WORKER_THREADS`.
pub record Std : Type 0 where
  pub parse_socket_addr : Text → Option SocketAddr
  pub socket_addr_text : SocketAddr → Text
  pub io_error_text : IoError → Text
  pub parse_usize : Text → Option ℕ
  pub worker_threads_var : Option Text

-- The text of a socket address leaves the flow information of an IPv6 address out.
abbrev pub HasNoFlow : SocketAddr → Type 0
HasNoFlow (SocketAddr.v4 a) = Unit {0}
HasNoFlow (SocketAddr.v6 a) = a.flowinfo ≡ 0

pub record IsStd (s : Std) : Type 0 where
  pub parse-text :
      (a : SocketAddr)
      → IsAddr a
      → HasNoFlow a
      → s.parse_socket_addr (s.socket_addr_text a) ≡ some a

-- The two exceptions that the bindings raise.
pub data PyErr : Type 0 where
  sctp_error value_error : Text → PyErr

pub data PyResult (A : Type 0) : Type 0 where
  value : A → PyResult A
  exception : PyErr → PyResult A

-- A receive that is over, with what it leaves of the socket `S` and of the wakes `W`, or that
-- waits.
pub data PyPoll (S W A : Type 0) : Type 0 where
  over : PyResult A → S → List W → PyPoll S W A
  waits : S → PyPoll S W A

-- `Display` of the crate's error.
unfoldable pub error_text : Std → SctpError → Text
error_text s (io e) = codes "I/O error: " ++ s.io_error_text e
error_text s peer_shutdown = codes "association shutdown by peer"
error_text s (notification t) = codes "received SCTP notification: " ++ t
error_text s (invalid_address t) = codes "invalid address: " ++ t
error_text s not_connected = codes "not connected"

abbrev pub err : Std → SctpError → PyErr
err s e = sctp_error (error_text s e)

-- The number of worker threads of the runtime, once it is built, and the calls of the kernel.
pub record World : Type 0 where
  pub runtime : Option ℕ
  pub history : History

pub data PyRun (A : Type 0) : Type 0 where
  returned : A → World → PyRun A
  raised : PyErr → World → PyRun A
  awaiting : World → PyRun A

abbrev pub PyIo : Type 0 → Type 0
PyIo A = Os → World → PyRun A

abbrev pub pure : {A : Type 0} → A → PyIo A
pure a os w = returned a w

abbrev pub raise : {A : Type 0} → PyErr → PyIo A
raise e os w = raised e w

abbrev pub and_then : {A B : Type 0} → Os → PyRun A → (A → PyIo B) → PyRun B
and_then os (returned a w) f = f a os w
and_then os (raised e w) f = raised e w
and_then os (awaiting w) f = awaiting w

infixl 5 ◌>>=◌ ◌>>◌
unfoldable pub ◌>>=◌ : {A B : Type 0} → PyIo A → (A → PyIo B) → PyIo B
◌>>=◌ m f os w = and_then os (m os w) f

abbrev pub ◌>>◌ : {B : Type 0} → PyIo (Unit {0}) → PyIo B → PyIo B
m >> k = m >>= λ _. k

-- `.map_err(err)`.
abbrev pub map_err : {A : Type 0} → Std → World → Run A → PyRun A
map_err s w (done a h) = returned a (record w { history = h })
map_err s w (failed e h) = raised (err s e) (record w { history = h })
map_err s w (waiting h) = awaiting (record w { history = h })

-- A call of the crate.
unfoldable pub call : {A : Type 0} → Std → Io A → PyIo A
call s m os w = map_err s w (m os w.history)

-- The threads that the environment asks for, if it asks for some, else two.
abbrev pub positive_or_two : Option ℕ → ℕ
positive_or_two none = 2
positive_or_two (some n) = if ltb 0 n then n else 2

abbrev pub parsed_var : Std → Option Text → Option ℕ
parsed_var s none = none
parsed_var s (some t) = s.parse_usize t

unfoldable pub worker_threads : Std → ℕ
worker_threads s = positive_or_two (parsed_var s s.worker_threads_var)

-- `call_once`: a runtime that is there stays.
abbrev pub initialised : Std → Option ℕ → Option ℕ
initialised s none = some (worker_threads s)
initialised s (some n) = some n

unfoldable pub init_runtime : Std → PyIo (Unit {0})
init_runtime s os w = returned tt (record w { runtime = initialised s w.runtime })

unfoldable pub in_runtime : {A : Type 0} → Std → Io A → PyIo A
in_runtime s m = init_runtime s >> call s m

abbrev pub or_invalid : Text → Option SocketAddr → PyIo SocketAddr
or_invalid text none = raise (value_error (codes "invalid socket address: " ++ text))
or_invalid text (some a) = pure a

unfoldable pub parse_addr : Std → Text → PyIo SocketAddr
parse_addr s text = or_invalid text (s.parse_socket_addr text)

-- Up to the first text that is no address.
unfoldable pub parse_addrs : Std → List Text → PyIo (List SocketAddr)
parse_addrs s [] = pure []
parse_addrs s (text ∷ texts) = do
  a ← parse_addr s text
  addrs ← parse_addrs s texts
  pure (a ∷ addrs)

pub record PyRecvInfo : Type 0 where
  pub stream : ℕ
  pub ppid : ℕ
  pub assoc_id : ℤ

-- `From<RecvInfo>`.
unfoldable pub from_info : RecvInfo → PyRecvInfo
from_info i = record { stream = i.stream; ppid = i.ppid; assoc_id = i.assoc_id }

unfoldable pub ppid_name : PyRecvInfo → Option Text
ppid_name i = name i.ppid

unfoldable pub repr : PyRecvInfo → Text
repr i =
    codes "RecvInfo(stream="
    ++ decimal i.stream
    ++ codes ", ppid="
    ++ display i.ppid
    ++ codes ", assoc_id="
    ++ decimal_ℤ i.assoc_id
    ++ codes ")"
