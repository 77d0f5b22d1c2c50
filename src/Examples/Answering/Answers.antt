-- ===== src/Examples/Answering/Answers.antt =====
-- The loop of `recv` and `send` answers each message once, as the task of echo_server does.
use async_sctp.Common.{
  ℕ, ◌<◌, ◌^◌, ◌≡◌, refl, ap, ◌∙◌, sym, Bool, true, false, ◌||◌, Bytes, List, [], ◌∷◌, ◌++◌, some,
}
use async_sctp.Error.{ok}
use async_sctp.Platform.{Platform, IsPlatform}
use async_sctp.Sys.{SctpSndRcvInfo}
use async_sctp.Addr.{SocketAddr, to_raw}
use async_sctp.Addr.RoundTrip.{IsAddr}
use async_sctp.Kernel.{Fd, Call, ret, History, Os, Io, done, and_then, ◌>>=◌, issue, pure}
use async_sctp.Kernel.Script.{since, Grants}
use async_sctp.Recv.{RecvReply, info_of}
use async_sctp.Recv.Chunks.{
  Blocks, recv_step-blocked, recv_step-fragment, recv_step-last, recv_step-notice,
}
use async_sctp.Types.{RecvInfo}
use async_sctp.Association.{SctpAssociation, ends, fresh}
use async_sctp.Association.Receive.{Wake, readable, note_end, Poll, returned, recv}
use async_sctp.Association.Receive.Steps.{
  after_read, recv_msg-fragment, recv_msg-notice, recv_msg-last, recv_msg-blocked,
  recv_msg-blocked_ended, recv-again, recv-result,
}
use async_sctp.Association.Send.{SelectPoll, ready, after_send, on_poll, send, send_with, send_loop}
use async_sctp.Listener.{SctpListener}
use async_sctp.Listener.Accept
use async_sctp.Listener.Accept.{accept}
use async_sctp.Listener.Peer.{wrap_calls, accept-since}
use async_sctp.Examples.{closed_after, owning}
use async_sctp.Examples.EchoServer.Answers.{
  Message, Conversation, answer_to, answered, sendmsg_call-info_of, noted_end,
}
use async_sctp.Examples.Answering.{breaking, on_got, answering, serve_one}
use async_sctp.Examples.Answering.Rounds.{answering-on_got}

-- The kernel takes each answer.
abbrev pub TakesAnswers : Os → Type 0
TakesAnswers os =
    (h : History) (fd : Fd) (m : Message) → (n : ℕ) × ((os h (answer_to fd m)).result ≡ ret n)

module _ (p : Platform) (os : Os) where
  breaking-answer :
      (a : SctpAssociation) (bytes : Bytes) (i : SctpSndRcvInfo) (h : History) (closed : Bool)
      (polls : List SelectPoll) (again : Io (Unit {0})) (n : ℕ)
      → i.sinfo_ppid < 2 ^ 32
      → (os h (answer_to a.fd (bytes, i))).result ≡ ret n
      → breaking
          (send p a bytes
            (info_of p.endian i).stream
            (info_of p.endian i).ppid
            (record { readiness = some ready; closed = closed } ∷ polls))
          again
          os
          h
        ≡ again os (answer_to a.fd (bytes, i) ∷ h)
  unfolding breaking send send_with send_loop on_poll issue ◌>>=◌ after_send pure
  breaking-answer a bytes i h closed polls again n small e =
      rw (sendmsg_call-info_of p a.fd bytes i small, e) refl

  result :
      (a : SctpAssociation) (ws : List Wake) (sends : List (List SelectPoll)) (h : History)
      (r : Poll (Bytes × RecvInfo))
      → recv p a ws ≡ r
      → answering p a ws sends os h ≡ on_got p r sends (answering p) os h
  result a ws sends h r e =
      ap (λ (m : Io (Unit {0})). m os h)
        (answering-on_got p a ws sends ∙ ap (λ r. on_got p r sends (answering p)) e)

  again :
      (a b : SctpAssociation) (ws vs : List Wake) (sends : List (List SelectPoll)) (h : History)
      → recv p a ws ≡ recv p b vs
      → answering p a ws sends os h ≡ answering p b vs sends os h
  again a b ws vs sends h e =
      result a ws sends h (recv p b vs) e ∙ sym (result b vs sends h (recv p b vs) refl)

  module _ (takes : TakesAnswers os) where
    answer_round :
        (a : SctpAssociation) (bytes : Bytes) (i : SctpSndRcvInfo) (ws : List Wake) (closed : Bool)
        (polls : List SelectPoll) (sends : List (List SelectPoll)) (h : History)
        → i.sinfo_ppid < 2 ^ 32
        → on_got p
            (returned (ok (bytes, info_of p.endian i)) a ws)
            ((record { readiness = some ready; closed = closed } ∷ polls) ∷ sends)
            (answering p)
            os
            h
          ≡ answering p a ws sends os (answer_to a.fd (bytes, i) ∷ h)
    answer_round a bytes i ws closed polls sends h small =
        breaking-answer a bytes i h closed polls (answering p a ws sends)
          (takes h a.fd (bytes, i)).0 small (takes h a.fd (bytes, i)).1

    ended_round :
        (a : SctpAssociation) (r : RecvReply) (ws : List Wake) (sends : List (List SelectPoll))
        (h : History)
        → a.ended ≡ true
        → Blocks p r
        → answering p a (readable r ∷ ws) sends os h ≡ done tt h
    unfolding pure
    ended_round a r ws sends h ended b =
        result a _ sends h _ (recv-result p a r ws _ (recv_msg-blocked_ended p a r ws ended b))

    answering-answered :
        {e : Bool} {buf : Bytes} {ws : List Wake} {sends : List (List SelectPoll)}
        {ms : List Message} (a : SctpAssociation) (h : History)
        → Conversation p e buf ws sends ms
        → a.ended ≡ e
        → a.recv_state.buf ≡ buf
        → answering p a ws sends os h ≡ done tt (answered a.fd ms h)
    answering-answered a h (Conversation.over {buf} {r} {ws} {sends} b) ended same =
        ended_round a r ws sends h ended b
    answering-answered a h (Conversation.blocked {buf} {r} {ws} {sends} {ms} b c) ended same =
        again a (after_read p a r) _ _ sends h
          (recv-again p a r ws _ (recv_msg-blocked p a r ws ended b))
        ∙ answering-answered (after_read p a r) h c ended
            ((recv_step-blocked p false a.recv_state r b).1 ∙ same)
    answering-answered a h (Conversation.fragment {e} {buf} {d} {r} {ws} {sends} {ms} f c) ended
          same =
        again a (after_read p a r) _ _ sends h
          (recv-again p a r ws _ (recv_msg-fragment p a r ws d f))
        ∙ answering-answered (after_read p a r) h c ended
            ((recv_step-fragment p false a.recv_state r d f).1 ∙ ap (λ b. b ++ d) same)
    answering-answered a h (Conversation.noted {e} {buf} {r} {ws} {sends} {ms} n f c) ended same =
        let b = note_end n (after_read p a r) in
        let end = noted_end p n (after_read p a r) in
        again a b _ _ sends h (recv-result p a r ws _ (recv_msg-notice p a r ws n f))
        ∙ answering-answered b h c (end.0 ∙ ap (λ x. ends n || x) ended)
            (end.1 ∙ (recv_step-notice p false a.recv_state r n f).1 ∙ same)
        ∙ ap (λ fd. done tt (answered fd ms h)) end.2
    answering-answered a h
          (Conversation.last {e} {buf} {d} {r} {ws} {sends} {ms} closed polls f small c) ended
          same =
        let b = after_read p a r in
        result a _ _ h _ (recv-result p a r ws _ (recv_msg-last p a r ws d f))
        ∙ answer_round b (a.recv_state.buf ++ d) r.sinfo ws closed polls sends h small
        ∙ ap (λ x. answering p b ws sends os (answer_to b.fd (x ++ d, r.sinfo) ∷ h)) same
        ∙ answering-answered b (answer_to a.fd (buf ++ d, r.sinfo) ∷ h) c ended
            (recv_step-last p false a.recv_state r d f).1

  module _ (grants : Grants os) (fd : Fd) (flags : ℕ)
      (gives : (g : History) → (os g (Call.fcntl_getfl fd)).result ≡ ret flags) where
    -- Where the listener is readable and the kernel, which refuses no call, gives a descriptor and
    -- the raw form of an address: the server makes an association of it, answers each of its
    -- messages once and in order, with the same bytes, stream and payload protocol identifier,
    -- however they are cut into fragments and whatever notifications fall between, makes no other
    -- call, and when the association is over closes its descriptor and then that of the listener,
    -- and is over. When a message is answered the socket is taken to be writable.
    pub serve_one-answered :
        {ws : List Wake} {sends : List (List SelectPoll)} {ms : List Message} (is : IsPlatform p)
        (l : SctpListener) (accepts : List Accept.Wake) (peer : SocketAddr) (h : History)
        → IsAddr peer
        → (os h (Call.accept l.fd)).result ≡ ret fd
        → (os h (Call.accept l.fd)).storage ≡ (to_raw p peer).0
        → Conversation p false [] ws sends ms
        → serve_one p l (Accept.readable ∷ accepts) ws sends os h
          ≡ done tt (
              Call.close l.fd
              ∷ Call.close fd
              ∷ answered fd ms (since (wrap_calls p fd flags) (Call.accept l.fd ∷ h)))
    unfolding serve_one ◌>>=◌ owning
    serve_one-answered {ws} {sends} is l accepts peer h is_addr r s c =
        ap (λ x. closed_after l.fd (and_then os x (λ y. owning y.0.fd (answering p y.0 ws sends))))
          (accept-since os grants p fd flags gives is l accepts peer h is_addr r s)
        ∙ ap (λ x. closed_after l.fd (closed_after fd x))
            (answering-answered (λ g d m. grants g (answer_to d m)) (fresh fd)
              (since (wrap_calls p fd flags) (Call.accept l.fd ∷ h)) c refl refl)
