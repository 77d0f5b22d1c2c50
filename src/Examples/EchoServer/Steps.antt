-- ===== src/Examples/EchoServer/Steps.antt =====
-- The loop of the task: its fuel never runs out.
use async_sctp.Common.{fun_ext, loop_lem, ℕ, ◌<◌, ◌≡◌, refl, ap, List, length}
use async_sctp.Error.{ok, err}
use async_sctp.Platform.{Platform}
use async_sctp.Kernel.{Io, ◌>>◌}
use async_sctp.Association.{SctpAssociation, RecvResult, message, notice}
use async_sctp.Association.Receive.{Wake, Poll, returned, pending, recv_msg}
use async_sctp.Association.Receive.Steps.{Leaves, recv_msg-Leaves}
use async_sctp.Association.Send
use async_sctp.Association.Send.{SelectPoll}
use async_sctp.Examples.{next_send, later_sends}
use async_sctp.Examples.EchoServer.{dropping, Task, on_received, task_loop, task}

module _ (p : Platform) where
  on_received_agree :
      (n : ℕ) (r : Poll RecvResult) (sends : List (List SelectPoll)) (f g : Task)
      → Leaves n r
      → ((a : SctpAssociation) (ws : List Wake) → length ws < n → f a ws ≡ g a ws)
      → on_received p r sends f ≡ on_received p r sends g
  on_received_agree n (returned (ok (message bytes info)) a ws) sends f g h same =
      ap (λ k. dropping (Send.send p a bytes info.stream info.ppid (next_send sends)) >> k)
        (ap (λ m. m (later_sends sends)) (same a ws h))
  on_received_agree n (returned (ok (notice m)) a ws) sends f g h same =
      ap (λ m. m sends) (same a ws h)
  on_received_agree n (returned (err e) a ws) sends f g h same = refl
  on_received_agree n (pending a) sends f g h same = refl

  -- The loop of the source: each round is a `recv_msg`, and every message or notification makes
  -- another round.
  pub task-on_received :
      (a : SctpAssociation) (ws : List Wake) (sends : List (List SelectPoll))
      → task p a ws sends ≡ on_received p (recv_msg p a ws) sends (task p)
  unfolding task
  task-on_received a ws sends =
      unfold task_loop in
      ap (λ (f : List (List SelectPoll) → Io (Unit {0})). f sends)
        (loop_lem (λ (again : Task) b vs later. on_received p (recv_msg p b vs) later again)
          (λ f g b vs same. fun_ext (λ later.
            on_received_agree (length vs) (recv_msg p b vs) later f g (recv_msg-Leaves p b vs)
              same))
          (task_loop p) (λ n b vs. refl) a ws)
