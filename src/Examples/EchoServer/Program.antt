-- ===== src/Examples/EchoServer/Program.antt =====
-- src/examples/echo_server.rs as a program of many tasks, without what it prints. One step is what
-- happens between two points at which a task gives way to others; which task goes on, and what the
-- runtime and the kernel show to it, is the event.
pub mod Descriptors
use async_sctp.Common.{ℕ, zero, suc, Bytes, List, [], ◌∷◌, ◌++◌, Option, none, some, map}
use async_sctp.Error.{ok, err}
use async_sctp.Platform.{Platform}
use async_sctp.Addr.{SocketAddr}
use async_sctp.Kernel.{closing, Fd, History, Os, Run, done, failed, waiting, Io, ◌>>=◌, pure}
use async_sctp.Kernel.Frame.{after}
use async_sctp.Types.{RecvInfo}
use async_sctp.Association.{SctpAssociation, RecvResult, message, notice}
use async_sctp.Association.Lifetime.{drop_socket}
use async_sctp.Association.Receive.{Poll, returned, pending, recv_msg}
use async_sctp.Association.Receive
use async_sctp.Association.Send
use async_sctp.Association.Send.{SelectPoll}
use async_sctp.Listener.{SctpListener, bind}
use async_sctp.Listener.Accept
use async_sctp.Listener.Accept.{accept, local_addr}

-- Where a task waits: for a message, or for room to answer one.
pub data Task : Type 0 where
  receiving : SctpAssociation → Task
  answering : SctpAssociation → Bytes → RecvInfo → Task

abbrev pub association : Task → SctpAssociation
association (receiving a) = a
association (answering a bytes info) = a

-- What the main loop or one of the tasks is shown when it goes on. What it does not come to see
-- has not happened.
pub data Event : Type 0 where
  accepts : List Accept.Wake → Event
  receives : (task : ℕ) → List Receive.Wake → Event
  answers : (task : ℕ) → List SelectPoll → Event

-- The tasks, the calls so far, and the descriptors of the associations that were accepted.
pub record Program : Type 0 where
  pub tasks : List Task
  pub history : History
  pub given : List Fd

-- A task that goes on, or is over and has dropped its association.
abbrev pub Left : Type 0
Left = List Task × History

-- The `match` on what `recv_msg` gave.
abbrev pub on_received : Os → History → Poll RecvResult → Left
on_received os h (returned (ok (message bytes info)) a ws) = (answering a bytes info ∷ [], h)
on_received os h (returned (ok (notice n)) a ws) = (receiving a ∷ [], h)
on_received os h (returned (err e) a ws) = ([], after (drop_socket a os h))
on_received os h (pending a) = (receiving a ∷ [], h)

-- What follows `let _ = assoc.send(..).await`.
abbrev pub on_sent : SctpAssociation → Bytes → RecvInfo → Run ℕ → Left
on_sent a bytes info (done n h) = (receiving a ∷ [], h)
on_sent a bytes info (failed e h) = (receiving a ∷ [], h)
on_sent a bytes info (waiting h) = (answering a bytes info ∷ [], h)

module _ (p : Platform) (os : Os) where
  unfoldable pub go_receive : List Receive.Wake → Task → History → Left
  go_receive ws (receiving a) h = on_received os h (recv_msg p a ws)
  go_receive ws (answering a bytes info) h = (answering a bytes info ∷ [], h)

  unfoldable pub go_answer : List SelectPoll → Task → History → Left
  go_answer polls (receiving a) h = (receiving a ∷ [], h)
  go_answer polls (answering a bytes info) h =
      on_sent a bytes info (Send.send p a bytes info.stream info.ppid polls os h)

  -- The task at a place goes on.
  unfoldable pub task_at : ℕ → (Task → History → Left) → List Task → History → Left
  task_at i go [] h = ([], h)
  task_at zero go (t ∷ ts) h = let (us, g) = go t h in (us ++ ts, g)
  task_at (suc i) go (t ∷ ts) h = let (us, g) = task_at i go ts h in (t ∷ us, g)

  abbrev pub with_tasks : Program → Left → Program
  with_tasks s (ts, h) = record s { tasks = ts; history = h }

  -- What follows `listener.accept().await?`: a new task, or the program returns.
  abbrev pub on_accepted : Program → Run (SctpAssociation × SocketAddr) → Option Program
  on_accepted s (done (a, peer) h) =
      some (record { tasks = receiving a ∷ s.tasks; history = h; given = a.fd ∷ s.given })
  on_accepted s (failed e h) = none
  on_accepted s (waiting h) = some (record s { history = h })

  -- The program after an event, where it still runs.
  unfoldable pub step : SctpListener → Program → Event → Option Program
  step l s (accepts ws) = on_accepted s (accept p l ws os s.history)
  step l s (receives i ws) = some (with_tasks s (task_at i (go_receive ws) s.tasks s.history))
  step l s (answers i polls) = some (with_tasks s (task_at i (go_answer polls) s.tasks s.history))

  abbrev pub and_run : Option Program → (Program → Option Program) → Option Program
  and_run none f = none
  and_run (some s) f = f s

  unfoldable pub run : SctpListener → Program → List Event → Option Program
  run l s [] = some s
  run l s (e ∷ es) = and_run (step l s e) (λ t. run l t es)

-- Up to the loop: the listener, and the question for its address, to print it. An error drops the
-- listener.
unfoldable pub start : Platform → SocketAddr → Io SctpListener
start p addr = do
  listener ← bind p addr
  bound ← closing listener.fd (local_addr p listener)
  pure listener
