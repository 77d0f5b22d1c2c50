-- ===== src/Examples/EchoServer/Answers.antt =====
-- The task answers each message once and ends with its association.
use async_sctp.Common.{
  ℕ, ◌<◌, ◌^◌, ◌≡◌, refl, ap, ◌∙◌, sym, Bool, true, false, ◌||◌, if◌then◌else◌, Bytes, List, [],
  ◌∷◌, ◌++◌, some, from_be32-to_be32,
}
use async_sctp.Error.{ok}
use async_sctp.Platform.{Platform, is_would_block}
use async_sctp.Sys.{SctpSndRcvInfo}
use async_sctp.Kernel.{
  Fd, Call, Ret, ret, fail, History, Os, Io, Run, done, ◌>>=◌, issue, pure, throw, and_then,
}
use async_sctp.Notification.{Notification}
use async_sctp.Recv.{RecvReply, info_of}
use async_sctp.Recv.Chunks.{
  Blocks, recv_step-blocked, IsFragment, IsLast, IsNotice, recv_step-fragment, recv_step-last,
  recv_step-notice,
}
use async_sctp.Association.{
  SctpAssociation, RecvResult, message, ends, sinfo_flags, default_options,
}
use async_sctp.Association.Lifetime.{drop_socket}
use async_sctp.Association.Receive.{Wake, readable, note_end, recv_msg, Poll, returned}
use async_sctp.Association.Receive.Steps.{
  after_read, recv_msg-fragment, recv_msg-notice, recv_msg-last, recv_msg-blocked,
  recv_msg-blocked_ended,
}
use async_sctp.Association.Send.{
  SelectPoll, ready, after_send, on_poll, send, send_with, send_loop, sendmsg_call,
}
use async_sctp.Examples.EchoServer.{on_received, dropping, settled, task}
use async_sctp.Examples.EchoServer.Steps.{task-on_received}

-- A message: its bytes, and what the kernel says of it.
abbrev pub Message : Type 0
Message = Bytes × SctpSndRcvInfo

-- The wakes of an association, whose end is noted where the Boolean says so and of whose next
-- message `buf` has come already. They deliver the messages in any fragments, with empty reads and
-- notifications anywhere, up to the first empty read after the end is noted. When a message is
-- answered the socket is writable.
pub data Conversation (p : Platform)
    : Bool → Bytes → List Wake → List (List SelectPoll) → List Message → Type 0 where
  over :
      {buf : Bytes} {r : RecvReply} {ws : List Wake} {sends : List (List SelectPoll)}
      → Blocks p r
      → Conversation p true buf (readable r ∷ ws) sends []
  blocked :
      {buf : Bytes} {r : RecvReply} {ws : List Wake} {sends : List (List SelectPoll)}
      {ms : List Message}
      → Blocks p r
      → Conversation p false buf ws sends ms
      → Conversation p false buf (readable r ∷ ws) sends ms
  fragment :
      {e : Bool} {buf d : Bytes} {r : RecvReply} {ws : List Wake} {sends : List (List SelectPoll)}
      {ms : List Message}
      → IsFragment r d
      → Conversation p e (buf ++ d) ws sends ms
      → Conversation p e buf (readable r ∷ ws) sends ms
  noted :
      {e : Bool} {buf : Bytes} {r : RecvReply} {ws : List Wake} {sends : List (List SelectPoll)}
      {ms : List Message} (n : Notification)
      → IsNotice p.endian r n
      → Conversation p (ends n || e) buf ws sends ms
      → Conversation p e buf (readable r ∷ ws) sends ms
  last :
      {e : Bool} {buf d : Bytes} {r : RecvReply} {ws : List Wake} {sends : List (List SelectPoll)}
      {ms : List Message} (closed : Bool) (polls : List SelectPoll)
      → IsLast r d
      → r.sinfo.sinfo_ppid < 2 ^ 32
      → Conversation p e [] ws sends ms
      → Conversation p e buf
          (readable r ∷ ws)
          ((record { readiness = some ready; closed = closed } ∷ polls) ∷ sends)
          ((buf ++ d, r.sinfo) ∷ ms)

-- The call that answers a message: its bytes on its stream, with the payload protocol identifier
-- as it came over the wire.
abbrev pub answer_to : Fd → Message → Call
answer_to fd (bytes, i) = Call.sendmsg fd bytes i.sinfo_ppid 0 i.sinfo_stream 0

abbrev pub answered : Fd → List Message → History → History
answered fd [] h = h
answered fd (m ∷ ms) h = answered fd ms (answer_to fd m ∷ h)

-- The send buffer has room: the call is accepted, or refused for another reason.
pub data HasRoom (p : Platform) : Ret → Type 0 where
  accepted : (n : ℕ) → HasRoom p (ret n)
  refused : (errno : ℕ) → is_would_block p errno ≡ false → HasRoom p (fail errno)

module _ (p : Platform) where
  pub sendmsg_call-info_of :
      (fd : Fd) (bytes : Bytes) (i : SctpSndRcvInfo)
      → i.sinfo_ppid < 2 ^ 32
      → sendmsg_call p fd bytes
          (info_of p.endian i).stream
          (info_of p.endian i).ppid
          default_options
        ≡ answer_to fd (bytes, i)
  unfolding sendmsg_call sinfo_flags
  sendmsg_call-info_of fd bytes i h = rw (from_be32-to_be32 p.endian i.sinfo_ppid h)

  after_send-settled :
      (fd : Fd) (r : Ret) (again : Io ℕ) (os : Os) (h : History)
      → HasRoom p r
      → settled (after_send p fd r again os h) ≡ done tt h
  unfolding after_send pure throw
  after_send-settled fd r again os h (accepted n) = refl
  after_send-settled fd r again os h (refused errno e) = rw e

  send-answer :
      (os : Os) (a : SctpAssociation) (bytes : Bytes) (i : SctpSndRcvInfo) (h : History)
      (closed : Bool) (polls : List SelectPoll)
      → i.sinfo_ppid < 2 ^ 32
      → HasRoom p (os h (answer_to a.fd (bytes, i))).result
      → dropping
          (send p a bytes
            (info_of p.endian i).stream
            (info_of p.endian i).ppid
            (record { readiness = some ready; closed = closed } ∷ polls))
          os
          h
        ≡ done tt (answer_to a.fd (bytes, i) ∷ h)
  unfolding dropping send send_with send_loop on_poll issue ◌>>=◌
  send-answer os a bytes i h closed polls small room =
      rw (sendmsg_call-info_of a.fd bytes i small) (after_send-settled a.fd _ _ os _ room)

  pub noted_end :
      (n : Notification) (a : SctpAssociation)
      → ((note_end n a).ended ≡ ends n || a.ended)
        × ((note_end n a).recv_state.buf ≡ a.recv_state.buf)
        × ((note_end n a).fd ≡ a.fd)
  noted_end n a =
      elim (ends n)
        as (λ e.
          ((if e then record a { ended = true } else a).ended ≡ e || a.ended)
          × ((if e then record a { ended = true } else a).recv_state.buf ≡ a.recv_state.buf)
          × ((if e then record a { ended = true } else a).fd ≡ a.fd)) [
            | true ↦ (refl, refl, refl)
            | false ↦ (refl, refl, refl)
          ]

  again :
      (a b : SctpAssociation) (ws vs : List Wake) (sends : List (List SelectPoll)) (os : Os)
      (h : History)
      → recv_msg p a ws ≡ recv_msg p b vs
      → task p a ws sends os h ≡ task p b vs sends os h
  again a b ws vs sends os h e =
      ap (λ (m : Io (Unit {0})). m os h)
        (task-on_received p a ws sends
          ∙ ap (λ r. on_received p r sends (task p)) e
          ∙ sym (task-on_received p b vs sends))

  result :
      (a : SctpAssociation) (ws : List Wake) (sends : List (List SelectPoll)) (os : Os)
      (h : History) (r : Poll RecvResult)
      → recv_msg p a ws ≡ r
      → task p a ws sends os h ≡ on_received p r sends (task p) os h
  result a ws sends os h r e =
      ap (λ (m : Io (Unit {0})). m os h)
        (task-on_received p a ws sends ∙ ap (λ r. on_received p r sends (task p)) e)

  module _ (os : Os)
      (room : (h : History) (fd : Fd) (m : Message)
        → HasRoom p (os h (answer_to fd m)).result) where
    answer_round :
        (a : SctpAssociation) (bytes : Bytes) (i : SctpSndRcvInfo) (ws : List Wake) (closed : Bool)
        (polls : List SelectPoll) (sends : List (List SelectPoll)) (h : History)
        → i.sinfo_ppid < 2 ^ 32
        → on_received p
            (returned (ok (message bytes (info_of p.endian i))) a ws)
            ((record { readiness = some ready; closed = closed } ∷ polls) ∷ sends)
            (task p)
            os
            h
          ≡ task p a ws sends os (answer_to a.fd (bytes, i) ∷ h)
    unfolding ◌>>=◌
    answer_round a bytes i ws closed polls sends h small =
        ap (λ (r : Run (Unit {0})). and_then os r (λ sent. task p a ws sends))
          (send-answer os a bytes i h closed polls small (room h a.fd (bytes, i)))

    ended_round :
        (a : SctpAssociation) (r : RecvReply) (ws : List Wake) (sends : List (List SelectPoll))
        (h : History)
        → a.ended ≡ true
        → Blocks p r
        → task p a (readable r ∷ ws) sends os h ≡ done tt (Call.close a.fd ∷ h)
    unfolding drop_socket issue pure ◌>>=◌
    ended_round a r ws sends h ended b =
        result a _ sends os h _ (recv_msg-blocked_ended p a r ws ended b)

    -- The task answers each message once, in their order, with the same bytes, on the same stream
    -- and with the same payload protocol identifier, whether or not the kernel takes the answer,
    -- and is over by the first empty read after the end of the association was noted, when it
    -- closes its descriptor, however the messages are cut into fragments and whatever
    -- notifications fall between. It makes no other call. When a message is answered the socket
    -- is taken to be writable and the send buffer to have room.
    pub task-answered :
        {e : Bool} {buf : Bytes} {ws : List Wake} {sends : List (List SelectPoll)}
        {ms : List Message} (a : SctpAssociation) (h : History)
        → Conversation p e buf ws sends ms
        → a.ended ≡ e
        → a.recv_state.buf ≡ buf
        → task p a ws sends os h ≡ done tt (Call.close a.fd ∷ answered a.fd ms h)
    task-answered a h (over {buf} {r} {ws} {sends} b) ended same =
        ended_round a r ws sends h ended b
    task-answered a h (blocked {buf} {r} {ws} {sends} {ms} b c) ended same =
        again a (after_read p a r) _ _ sends os h (recv_msg-blocked p a r ws ended b)
        ∙ task-answered (after_read p a r) h c ended
            ((recv_step-blocked p false a.recv_state r b).1 ∙ same)
    task-answered a h (fragment {e} {buf} {d} {r} {ws} {sends} {ms} f c) ended same =
        again a (after_read p a r) _ _ sends os h (recv_msg-fragment p a r ws d f)
        ∙ task-answered (after_read p a r) h c ended
            ((recv_step-fragment p false a.recv_state r d f).1 ∙ ap (λ b. b ++ d) same)
    task-answered a h (noted {e} {buf} {r} {ws} {sends} {ms} n f c) ended same =
        let b = note_end n (after_read p a r) in
        let end = noted_end n (after_read p a r) in
        result a _ sends os h _ (recv_msg-notice p a r ws n f)
        ∙ task-answered b h c (end.0 ∙ ap (λ x. ends n || x) ended)
            (end.1 ∙ (recv_step-notice p false a.recv_state r n f).1 ∙ same)
        ∙ ap (λ fd. done tt (Call.close fd ∷ answered fd ms h)) end.2
    task-answered a h (last {e} {buf} {d} {r} {ws} {sends} {ms} closed polls f small c) ended same =
        let b = after_read p a r in
        result a _ _ os h _ (recv_msg-last p a r ws d f)
        ∙ answer_round b (a.recv_state.buf ++ d) r.sinfo ws closed polls sends h small
        ∙ ap (λ x. task p b ws sends os (answer_to b.fd (x ++ d, r.sinfo) ∷ h)) same
        ∙ task-answered b (answer_to a.fd (buf ++ d, r.sinfo) ∷ h) c ended
            (recv_step-last p false a.recv_state r d f).1
