-- ===== src/Tests/Reads.antt =====
-- The data of several calls of `recv_msg`, and the read buffer, on concrete replies.
use async_sctp.Common.{arith, ◌≡◌, refl, [], ◌∷◌, ◌++◌, false, length, little}
use async_sctp.Error.{Result, ok}
use async_sctp.Recv.{Reassembly, recv_step, recv_window, info_of, grown, overwritten}
use async_sctp.Recv.Bounds.{IsReassembly, Slices, recv_step-IsReassembly}
use async_sctp.Recv.Chunks.{recv_step-fragment, recv_step-last}
use async_sctp.Association.{SctpAssociation, RecvResult, message, fresh}
use async_sctp.Association.Receive.{readable, returned, pending, recv_msg}
use async_sctp.Association.Receive.Conserved.{
  delivered, bytes_of, over, dropped, no_call, Calls-delivered,
}
use async_sctp.Tests.{linux}
use async_sctp.Tests.Receive.{sinfo, piece, piece-IsFragment, last_piece, last_piece-IsLast}

abbrev dirty : Reassembly
dirty = record { buf = []; scratch = 8 ∷ 8 ∷ 8 ∷ [] }

recv_step-IsReassembly_example :
    IsReassembly (recv_step linux false dirty piece).1
    × (length (recv_step linux false dirty piece).1.scratch ≡ recv_window)
    × Slices piece.result (length (overwritten piece.written (grown dirty.scratch)))
recv_step-IsReassembly_example =
    recv_step-IsReassembly linux false dirty piece (record { within = omega arith })
      (record { written = omega arith; result = omega arith })

-- The association after the first piece, and after the last.
abbrev one_read : SctpAssociation
one_read = record (fresh 5) { recv_state = (recv_step linux false (fresh 5).recv_state piece).1 }

abbrev two_read : SctpAssociation
two_read = record one_read { recv_state = (recv_step linux false one_read.recv_state last_piece).1 }

abbrev whole : Result RecvResult
whole = ok (message (one_read.recv_state.buf ++ (3 ∷ [])) (info_of little sinfo))

waits_on : recv_msg linux (fresh 5) (readable piece ∷ []) ≡ pending one_read
unfolding recv_msg
waits_on = rw ((recv_step-fragment linux false (fresh 5).recv_state piece _ piece-IsFragment).0)

comes_whole : recv_msg linux one_read (readable last_piece ∷ []) ≡ returned whole two_read []
unfolding recv_msg
comes_whole = rw ((recv_step-last linux false one_read.recv_state last_piece _ last_piece-IsLast).0)

-- A call is dropped after the first piece, and the next one returns the message.
Calls-delivered_example :
    (bytes_of whole ++ []) ++ (two_read.recv_state.buf ++ delivered [])
    ≡ (fresh 5).recv_state.buf ++ delivered (readable piece ∷ readable last_piece ∷ [])
Calls-delivered_example =
    Calls-delivered linux (fresh 5) (readable piece ∷ readable last_piece ∷ [])
      (bytes_of whole ++ []) two_read [] (refl, (refl, tt))
      (dropped one_read (readable piece ∷ []) (readable last_piece ∷ []) refl waits_on
        (over whole two_read [] comes_whole no_call))
