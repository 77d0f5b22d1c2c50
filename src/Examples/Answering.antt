-- ===== src/Examples/Answering.antt =====
-- The servers that src/examples/perf.rs and src/examples/leak_check.rs start for their clients:
-- the loop of `recv` and `send`, which ends at the first error of either.
pub mod Answers
pub mod Rounds
use async_sctp.Common.{ℕ, zero, suc, Bytes, List, [], ◌∷◌, length}
use async_sctp.Error.{ok, err}
use async_sctp.Platform.{Platform}
use async_sctp.Kernel.{Run, done, failed, waiting, Io, pure, wait, ◌>>=◌}
use async_sctp.Types.{RecvInfo}
use async_sctp.Association.{SctpAssociation}
use async_sctp.Association.Receive.{Wake, Poll, returned, pending, recv}
use async_sctp.Association.Send
use async_sctp.Association.Send.{SelectPoll}
use async_sctp.Listener.{SctpListener}
use async_sctp.Listener.Accept
use async_sctp.Listener.Accept.{accept}
use async_sctp.Examples.{next_send, later_sends}
use async_sctp.Examples.{owning}
use async_sctp.Examples.EchoServer.{Task}

abbrev pub unless_failed : {A : Type 0} → Run A → Io (Unit {0}) → Io (Unit {0})
unless_failed (done a g) again os h = again os g
unless_failed (failed e g) again os h = done tt g
unless_failed (waiting g) again os h = waiting g

-- `if m.is_err() { break }`, and what follows when there is no error.
unfoldable pub breaking : {A : Type 0} → Io A → Io (Unit {0}) → Io (Unit {0})
breaking m again os h = unless_failed (m os h) again os h

-- The body of `while let Ok((data, info)) = assoc.recv().await`.
abbrev pub on_got :
    Platform → Poll (Bytes × RecvInfo) → List (List SelectPoll) → Task → Io (Unit {0})
on_got p (returned (ok (bytes, info)) a ws) sends again =
    breaking (Send.send p a bytes info.stream info.ppid (next_send sends))
      (again a ws (later_sends sends))
on_got p (returned (err e) a ws) sends again = pure tt
on_got p (pending a) sends again = wait

-- The loop on fuel. Each round takes at least one wake.
unfoldable pub answering_loop : Platform → ℕ → Task
answering_loop p zero a ws sends = wait
answering_loop p (suc fuel) a ws sends = on_got p (recv p a ws) sends (answering_loop p fuel)

unfoldable pub answering : Platform → Task
answering p a ws = answering_loop p (suc (length ws)) a ws

-- The task of the throughput driver: it owns the listener, accepts one
-- association and serves it until it ends.
unfoldable pub serve_one :
    Platform → SctpListener → List Accept.Wake → List Wake → List (List SelectPoll) → Io (Unit {0})
serve_one p listener accepts ws sends =
    owning listener.fd
      (do (a, peer) ← accept p listener accepts; owning a.fd (answering p a ws sends))
