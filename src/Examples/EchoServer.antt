-- ===== src/Examples/EchoServer.antt =====
-- src/examples/echo_server.rs: the task that serves one association, without what it prints.
pub mod Answers
pub mod Program
pub mod Steps
use async_sctp.Common.{ℕ, zero, suc, List, [], ◌∷◌, length}
use async_sctp.Error.{ok, err}
use async_sctp.Platform.{Platform}
use async_sctp.Kernel.{Run, done, failed, waiting, Io, pure, wait, ◌>>=◌, ◌>>◌}
use async_sctp.Association.{SctpAssociation, RecvResult, message, notice}
use async_sctp.Association.Lifetime.{drop_socket}
use async_sctp.Association.Receive.{Wake, Poll, returned, pending, recv_msg}
use async_sctp.Examples.{next_send, later_sends}
use async_sctp.Association.Send
use async_sctp.Association.Send.{SelectPoll}

-- `let _ = m`: an error is dropped.
abbrev pub settled : {A : Type 0} → Run A → Run (Unit {0})
settled (done a h) = done tt h
settled (failed e h) = done tt h
settled (waiting h) = waiting h

unfoldable pub dropping : {A : Type 0} → Io A → Io (Unit {0})
dropping m os h = settled (m os h)

-- The rest of the task from an association, the wakes of its receives, and the polls of its sends.
abbrev pub Task : Type 0
Task = SctpAssociation → List Wake → List (List SelectPoll) → Io (Unit {0})

-- The `match` on what `recv_msg` gave; `again` is the next round of the loop. The task owns the
-- association and drops it when it ends.
abbrev pub on_received : Platform → Poll RecvResult → List (List SelectPoll) → Task → Io (Unit {0})
on_received p (returned (ok (message bytes info)) a ws) sends again =
    dropping (Send.send p a bytes info.stream info.ppid (next_send sends))
    >> again a ws (later_sends sends)
on_received p (returned (ok (notice n)) a ws) sends again = again a ws sends
on_received p (returned (err e) a ws) sends again = drop_socket a
on_received p (pending a) sends again = wait

-- The loop on fuel. Each round takes at least one wake.
unfoldable pub task_loop : Platform → ℕ → Task
task_loop p zero a ws sends = wait
task_loop p (suc fuel) a ws sends = on_received p (recv_msg p a ws) sends (task_loop p fuel)

unfoldable pub task : Platform → Task
task p a ws = task_loop p (suc (length ws)) a ws
