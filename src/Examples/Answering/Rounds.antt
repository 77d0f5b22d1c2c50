-- ===== src/Examples/Answering/Rounds.antt =====
-- The loop of `recv` and `send`: its fuel never runs out.
use async_sctp.Common.{
  fun_ext, loop_lem, ℕ, zero, suc, ◌<◌, ◌≡◌, refl, ap, arith, Bytes, List, length,
}
use async_sctp.Error.{ok, err}
use async_sctp.Platform.{Platform}
use async_sctp.Kernel.{Io}
use async_sctp.Types.{RecvInfo}
use async_sctp.Association.{SctpAssociation, RecvResult, message, notice}
use async_sctp.Association.Receive.{
  Wake, Poll, returned, pending, recv_msg, on_result, recv_loop, recv,
}
use async_sctp.Association.Receive.Steps.{Leaves, recv_msg-Leaves}
use async_sctp.Association.Send
use async_sctp.Association.Send.{SelectPoll}
use async_sctp.Examples.{next_send, later_sends}
use async_sctp.Examples.EchoServer.{Task}
use async_sctp.Examples.Answering.{breaking, on_got, answering_loop, answering}

Leaves-le : {A : Type 0} (m n : ℕ) (r : Poll A) → m < n → Leaves m r → Leaves n r
Leaves-le m n (returned r a ws) less h = omega arith
Leaves-le m n (pending a) less h = tt

on_result-Leaves :
    (n : ℕ) (r : Poll RecvResult) (again : SctpAssociation → List Wake → Poll (Bytes × RecvInfo))
    → Leaves n r
    → ((a : SctpAssociation) (ws : List Wake) → Leaves (length ws) (again a ws))
    → Leaves n (on_result r again)
on_result-Leaves n (returned (ok (message bytes info)) a ws) again h later = h
on_result-Leaves n (returned (ok (notice m)) a ws) again h later =
    Leaves-le (length ws) n (again a ws) h (later a ws)
on_result-Leaves n (returned (err e) a ws) again h later = h
on_result-Leaves n (pending a) again h later = tt

module _ (p : Platform) where
  recv_loop-Leaves :
      (fuel : ℕ) (a : SctpAssociation) (ws : List Wake) → Leaves (length ws) (recv_loop p fuel a ws)
  unfolding recv_loop
  recv_loop-Leaves zero a ws = tt
  recv_loop-Leaves (suc fuel) a ws =
      on_result-Leaves (length ws) (recv_msg p a ws) (recv_loop p fuel) (recv_msg-Leaves p a ws)
        (recv_loop-Leaves fuel)

  -- A `recv` that returns has taken at least one wake.
  recv-Leaves : (a : SctpAssociation) (ws : List Wake) → Leaves (length ws) (recv p a ws)
  unfolding recv
  recv-Leaves a ws = recv_loop-Leaves (suc (length ws)) a ws

  on_got_agree :
      (n : ℕ) (r : Poll (Bytes × RecvInfo)) (sends : List (List SelectPoll)) (f g : Task)
      → Leaves n r
      → ((a : SctpAssociation) (ws : List Wake) → length ws < n → f a ws ≡ g a ws)
      → on_got p r sends f ≡ on_got p r sends g
  on_got_agree n (returned (ok (bytes, info)) a ws) sends f g h same =
      ap (λ k. breaking (Send.send p a bytes info.stream info.ppid (next_send sends)) k)
        (ap (λ m. m (later_sends sends)) (same a ws h))
  on_got_agree n (returned (err e) a ws) sends f g h same = refl
  on_got_agree n (pending a) sends f g h same = refl

  -- The loop of the source: each round is a `recv`, and every message makes another round.
  pub answering-on_got :
      (a : SctpAssociation) (ws : List Wake) (sends : List (List SelectPoll))
      → answering p a ws sends ≡ on_got p (recv p a ws) sends (answering p)
  unfolding answering
  answering-on_got a ws sends =
      unfold answering_loop in
      ap (λ (f : List (List SelectPoll) → Io (Unit {0})). f sends)
        (loop_lem (λ (again : Task) b vs later. on_got p (recv p b vs) later again)
          (λ f g b vs same.
            fun_ext
              (λ later. on_got_agree (length vs) (recv p b vs) later f g (recv-Leaves b vs) same))
          (answering_loop p) (λ n b vs. refl) a ws)
