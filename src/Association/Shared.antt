-- ===== src/Association/Shared.antt =====
-- A send and receives of other tasks on one association. They share its `ended` flag: the events
-- are the reads of the receives and the polls of the waiting send, in the order in which they
-- happen.
use async_sctp.Common.{ℕ, ◌≡◌, ap, ◌∙◌, true, false, Option, none, List, [], ◌∷◌, ◌++◌, Bytes}
use async_sctp.Platform.{Platform}
use async_sctp.Kernel.{Fd, Call, History, Os, throw}
use async_sctp.Kernel.Prompt.{IsOver}
use async_sctp.Notification.{Notification}
use async_sctp.Recv.{Step, would_block, more, notified, complete, stop, RecvReply, recv_step}
use async_sctp.Recv.Chunks.{IsNotice}
use async_sctp.Association.{SctpAssociation, SendOptions, ends, RecvResult}
use async_sctp.Association.Receive.{readable, Poll, returned, pending, on_step, recv_msg}
use async_sctp.Association.Receive.Steps.{recv_msg-notice, after_read}
use async_sctp.Association.Receive.Ended.{note_end-ended, note_end-ends}
use async_sctp.Association.Send.{Readiness, SelectPoll, sendmsg_call, on_poll, send_loop, send_with}
use async_sctp.Association.Send.Over.{Returns, on_poll-Returns}

pub data Event : Type 0 where
  received : RecvReply → Event
  polled : Option Readiness → Event

-- The association that a receive leaves.
abbrev left_by : {A : Type 0} → Poll A → SctpAssociation
left_by (returned r a ws) = a
left_by (pending a) = a

-- The association after one read of `recv_msg`.
abbrev pub after_recv : Platform → SctpAssociation → RecvReply → SctpAssociation
after_recv p a r = left_by (recv_msg p a (readable r ∷ []))

-- What the polls of the send find: `ended` as it is by then.
abbrev pub polls_of : Platform → SctpAssociation → List Event → List SelectPoll
polls_of p a [] = []
polls_of p a (received r ∷ es) = polls_of p (after_recv p a r) es
polls_of p a (polled readiness ∷ es) =
    record { readiness = readiness; closed = a.ended } ∷ polls_of p a es

on_step-ended :
    (s : Step) (a : SctpAssociation) (again : Poll RecvResult)
    → a.ended ≡ true
    → (left_by again).ended ≡ true
    → (left_by (on_step s a [] again)).ended ≡ true
on_step-ended would_block a again h g = rw h
on_step-ended more a again h g = g
on_step-ended (notified n) a again h g = note_end-ended n a h
on_step-ended (complete bytes info addr) a again h g = h
on_step-ended (stop e) a again h g = h

-- No read takes the end of the association back.
after_recv-ended :
    (p : Platform) (a : SctpAssociation) (r : RecvReply)
    → a.ended ≡ true
    → (after_recv p a r).ended ≡ true
unfolding recv_msg
after_recv-ended p a r h =
    on_step-ended (recv_step p false a.recv_state r).0 (after_read p a r) _ h h

module _ (p : Platform) (os : Os) (fd : Fd) (call : Call) where
  over_Returns :
      (a : SctpAssociation) (fs gs : List Event)
      → a.ended ≡ true
      → Returns p os fd call (send_loop p fd call (polls_of p a (fs ++ polled none ∷ gs)))
  unfolding send_loop
  over_Returns a [] gs over h = unfold on_poll throw in rw over tt
  over_Returns a (received r ∷ fs) gs over h =
      over_Returns (after_recv p a r) fs gs (after_recv-ended p a r over) h
  over_Returns a (polled x ∷ fs) gs over h =
      on_poll-Returns p os fd call _ x a.ended (over_Returns a fs gs over) h

  woken_Returns :
      (a : SctpAssociation) (es fs gs : List Event) (r : RecvReply) (n : Notification)
      → IsNotice p.endian r n
      → ends n ≡ true
      → Returns p os fd call
          (send_loop p fd call (polls_of p a (es ++ received r ∷ (fs ++ polled none ∷ gs))))
  unfolding send_loop
  woken_Returns a [] fs gs r n f e h =
      over_Returns (after_recv p a r) fs gs
        (ap (λ m. (left_by m).ended) (recv_msg-notice p a r [] n f)
          ∙ note_end-ends n (after_read p a r) e)
        h
  woken_Returns a (received q ∷ es) fs gs r n f e h =
      woken_Returns (after_recv p a q) es fs gs r n f e h
  woken_Returns a (polled x ∷ es) fs gs r n f e h =
      on_poll-Returns p os fd call _ x a.ended (woken_Returns a es fs gs r n f e) h

-- A send that waits for room in the buffer is woken by a receive of another task: once the
-- receive has read a notification of the end of the association, the next poll that finds no
-- readiness ends the send, whatever else is received and polled before, between and after.
pub send_with-polls_of :
    (p : Platform) (a : SctpAssociation) (msg : Bytes) (stream ppid : ℕ) (opts : SendOptions)
    (os : Os) (h : History)
    → (es fs gs : List Event) (r : RecvReply) (n : Notification) → IsNotice p.endian r n
    → ends n ≡ true
    → IsOver (
        send_with p a msg stream ppid opts
          (polls_of p a (es ++ received r ∷ (fs ++ polled none ∷ gs)))
          os
          h)
unfolding send_with
send_with-polls_of p a msg stream ppid opts os h es fs gs r n f e =
    woken_Returns p os a.fd (sendmsg_call p a.fd msg stream ppid opts) a es fs gs r n f e h
