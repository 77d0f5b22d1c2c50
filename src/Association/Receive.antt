-- ===== src/Association/Receive.antt =====
-- `recv_msg` and `recv` of an association. What the runtime and the kernel answer is an argument:
-- the list of what each `readable().await` of the task, and the `sctp_recvmsg` after it, will
-- give. Where the list ends the future is still waiting.
pub mod Cancel
pub mod Conserved
pub mod Ended
pub mod Steps
pub mod Whole
use async_sctp.Common.{ℕ, zero, suc, Bool, true, false, Bytes, List, [], ◌∷◌, if◌then◌else◌, length}
use async_sctp.Error.{IoError, SctpError, io, not_connected, Result, ok, err}
use async_sctp.Platform.{Platform}
use async_sctp.Notification.{Notification}
use async_sctp.Types.{RecvInfo}
use async_sctp.Recv.{
  Reassembly, Step, would_block, more, notified, complete, stop, RecvReply, recv_step,
}
use async_sctp.Association.{SctpAssociation, ends, RecvResult, message, notice}

pub data Wake : Type 0 where
  readable : RecvReply → Wake
  reactor_error : IoError → Wake

-- A future that has returned, with what is left to come, or one that waits.
pub data Poll (A : Type 0) : Type 0 where
  returned : Result A → SctpAssociation → List Wake → Poll A
  pending : SctpAssociation → Poll A

-- `self.ended.close()` where the notification says the association is over.
abbrev pub note_end : Notification → SctpAssociation → SctpAssociation
note_end n a = if ends n then record a { ended = true } else a

-- The `match` on a step; `again` is the next round of the loop.
abbrev pub on_step : Step → SctpAssociation → List Wake → Poll RecvResult → Poll RecvResult
on_step would_block a ws again = if a.ended then returned (err not_connected) a ws else again
on_step more a ws again = again
on_step (notified n) a ws again = returned (ok (notice n)) (note_end n a) ws
on_step (complete bytes info addr) a ws again = returned (ok (message bytes info)) a ws
on_step (stop e) a ws again = returned (err e) a ws

unfoldable pub recv_msg : Platform → SctpAssociation → List Wake → Poll RecvResult
recv_msg p a [] = pending a
recv_msg p a (reactor_error e ∷ ws) = returned (err (io e)) a ws
recv_msg p a (readable r ∷ ws) =
    let (step, st) = recv_step p false a.recv_state r in
    let b = record a { recv_state = st } in on_step step b ws (recv_msg p b ws)

-- The `match` on what `recv_msg` returned; `again` is the next round of the loop.
abbrev pub on_result :
    Poll RecvResult
    → (SctpAssociation → List Wake → Poll (Bytes × RecvInfo))
    → Poll (Bytes × RecvInfo)
on_result (returned (ok (message bytes info)) a ws) again = returned (ok (bytes, info)) a ws
on_result (returned (ok (notice n)) a ws) again = again a ws
on_result (returned (err e) a ws) again = returned (err e) a ws
on_result (pending a) again = pending a

-- The loop of `recv` on fuel. Each round takes at least one wake.
unfoldable pub recv_loop : Platform → ℕ → SctpAssociation → List Wake → Poll (Bytes × RecvInfo)
recv_loop p zero a ws = pending a
recv_loop p (suc fuel) a ws = on_result (recv_msg p a ws) (recv_loop p fuel)

unfoldable pub recv : Platform → SctpAssociation → List Wake → Poll (Bytes × RecvInfo)
recv p a ws = recv_loop p (suc (length ws)) a ws
