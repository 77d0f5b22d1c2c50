-- ===== src/Examples/Echoed.antt =====
-- The client of src/examples/echo_client.rs and a task of src/examples/echo_server.rs, each on a
-- kernel of its own. What goes over the wire between them is what the calls of the one say.
use async_sctp.Common.{
  ℕ, ◌<◌, ◌^◌, ◌≡◌, ap, sym, subst, ◌∙◌, Bool, false, Bytes, List, [], ◌∷◌, ◌++◌, Option, none,
  some, append_assoc, from_be32, from_be32-to_be32, to_be32-lt, arith, All,
}
use async_sctp.Platform.{Platform, IsPlatform}
use async_sctp.Addr.{SocketAddr}
use async_sctp.Kernel.{Fd, Call, ret, History, Os, Run, done}
use async_sctp.Kernel.Script.{since}
use async_sctp.Ppid.{m3ua}
use async_sctp.Recv.{RecvReply, info_of}
use async_sctp.Recv.Chunks.{IsLast}
use async_sctp.Association.{SctpAssociation}
use async_sctp.Association.Receive.{Wake, readable}
use async_sctp.Association.Receive.Whole.{Beginning, none_yet, fragment, blocked, interleaved}
use async_sctp.Association.Send.{SelectPoll, ready}
use async_sctp.Sys.{ipproto_sctp}
use async_sctp.Addr.RoundTrip.{IsAddr}
use async_sctp.Kernel.Frame.{after}
use async_sctp.Types.{RecvInfo}
use async_sctp.Socket.{domain_of}
use async_sctp.Association.Connect
use async_sctp.Association.Connect.{writable}
use async_sctp.Association.Connect.Made.{connect_calls, Connects}
use async_sctp.Examples.Client.{Printed, client_config, echo_client}
use async_sctp.Examples.Client.Trips.{trip_call}
use async_sctp.Examples.Client.Echo.{talk_calls, Tells, echo_client-since}
use async_sctp.Examples.EchoServer.{task}
use async_sctp.Examples.EchoServer.Answers.{
  Message, Conversation, answer_to, HasRoom, task-answered,
}

-- The last message that the calls of a run send.
abbrev pub last_sent : History → Option Call
last_sent [] = none
last_sent (Call.sendmsg fd msg ppid flags stream ttl ∷ h) =
    some (Call.sendmsg fd msg ppid flags stream ttl)
last_sent (c ∷ h) = last_sent h

-- The wakes `before` and the read `r` after them deliver the message of a `sctp_sendmsg`, whole
-- and in order, with its stream and its payload protocol identifier.
pub record Carries (p : Platform) (c : Option Call) (before : List Wake) (r : RecvReply)
    : Type 0 where
  pub first : Bytes
  pub last : Bytes
  pub begins : Beginning p first before
  pub ends_with : IsLast r last
  pub fd : Fd
  pub flags : ℕ
  pub ttl : ℕ
  pub is_call :
      c ≡ some (Call.sendmsg fd (first ++ last) r.sinfo.sinfo_ppid flags r.sinfo.sinfo_stream ttl)

-- What a call sends, on which stream and with which payload protocol identifier.
abbrev payload_of : Option Call → Bytes × ℕ × ℕ
payload_of (some (Call.sendmsg fd msg ppid flags stream ttl)) = (msg, stream, ppid)
payload_of c = ([], 0, 0)

module _ (p : Platform) where
  -- A message that the wakes deliver begins a conversation.
  Conversation-Beginning :
      {d last : Bytes} {before rest : List Wake} {r : RecvReply} {polls : List SelectPoll}
      {sends : List (List SelectPoll)} {ms : List Message} (buf : Bytes) (closed : Bool)
      → Beginning p d before
      → IsLast r last
      → r.sinfo.sinfo_ppid < 2 ^ 32
      → Conversation p false [] rest sends ms
      → Conversation p false buf
          (before ++ readable r ∷ rest)
          ((record { readiness = some ready; closed = closed } ∷ polls) ∷ sends)
          ((buf ++ (d ++ last), r.sinfo) ∷ ms)
  Conversation-Beginning buf closed none_yet l small c = Conversation.last closed _ l small c
  Conversation-Beginning {last} {rest} {r} {polls} {sends} {ms} buf closed
        (fragment {d} {ds} {ws} f b) l small c =
      Conversation.fragment f (
        subst
          (λ m.
            Conversation p false (buf ++ d) (ws ++ readable r ∷ rest)
              ((record { readiness = some ready; closed = closed } ∷ polls) ∷ sends)
              ((m, r.sinfo) ∷ ms))
          (simp append_assoc) (Conversation-Beginning (buf ++ d) closed b l small c))
  Conversation-Beginning buf closed (blocked f b) l small c =
      Conversation.blocked f (Conversation-Beginning buf closed b l small c)
  Conversation-Beginning buf closed (interleaved n f going b) l small c =
      Conversation.noted n f (rw going (Conversation-Beginning buf closed b l small c))

  module _ (os : Os)
      (room : (h : History) (fd : Fd) (m : Message)
        → HasRoom p (os h (answer_to fd m)).result) where
    -- The task answers a message that reaches it with one that has its payload, and drops the
    -- association when it is over.
    task-Carries :
        (a : SctpAssociation) (h : History) (c : Option Call) (before rest : List Wake)
        (q : RecvReply) (closed : Bool) (polls : List SelectPoll) (sends : List (List SelectPoll))
        → a.ended ≡ false
        → a.recv_state.buf ≡ []
        → (k : Carries p c before q) → q.sinfo.sinfo_ppid < 2 ^ 32
        → Conversation p false [] rest sends []
        → task p a
            (before ++ readable q ∷ rest)
            ((record { readiness = some ready; closed = closed } ∷ polls) ∷ sends)
            os
            h
          ≡ done tt (Call.close a.fd ∷ answer_to a.fd (k.first ++ k.last, q.sinfo) ∷ h)
    task-Carries a h c before rest q closed polls sends alive empty k small more =
        task-answered p os room a h
          (Conversation-Beginning [] closed k.begins k.ends_with small more) alive empty

    -- What comes back is what went.
    echoed :
        (a : SctpAssociation) (h : History) (fd : Fd) (msg : Bytes) (before rest back : List Wake)
        (q r : RecvReply) (closed : Bool) (polls : List SelectPoll) (sends : List (List SelectPoll))
        → a.ended ≡ false
        → a.recv_state.buf ≡ []
        → Carries p (some (trip_call p fd msg)) before q
        → Conversation p false [] rest sends []
        → (k : Carries p
            (last_sent (
              after (
                task p a
                  (before ++ readable q ∷ rest)
                  ((record { readiness = some ready; closed = closed } ∷ polls) ∷ sends)
                  os
                  h)))
            back
            r)
        → (k.first ++ k.last ≡ msg)
          × ((info_of p.endian r.sinfo).ppid ≡ m3ua)
          × ((info_of p.endian r.sinfo).stream ≡ 0)
    echoed a h fd msg before rest back q r closed polls sends alive empty there more k =
        let went = ap payload_of there.is_call in
        let small = to_be32-lt p.endian m3ua (omega arith) in
        let ran =
          task-Carries a h _ before rest q closed polls sends alive empty there
            (subst (λ x. x < 2 ^ 32) (ap (λ x. x.2) went) small) more in
        let came = ap payload_of (sym (ap (λ t. last_sent (after t)) ran) ∙ k.is_call) in
        let same = went ∙ came in
        (
          sym (ap (λ x. x.0) same),
          ap (from_be32 p.endian) (sym (ap (λ x. x.2) same))
              ∙ from_be32-to_be32 p.endian m3ua (omega arith),
          sym (ap (λ x. x.1) same),
        )

    -- On one machine, the client talks to a task of the server. Where the message of its one
    -- `sctp_sendmsg` reaches the task and what the task sends last reaches the client, each whole
    -- but in any fragments, with empty reads and notifications that do not end the association
    -- between; where nothing else comes to the task until it is over; where each kernel has room
    -- for what it sends; and where that of the client refuses nothing, gives `fd`, connects it and
    -- tells its peers: the client returns these peers and its own line, of stream 0 and of the
    -- payload protocol identifier of M3UA, with the calls of its connect and its talk.
    pub echo_client-task :
        (here : Os) (fd : Fd) (flags : ℕ) (connects : Connects p here fd flags)
        (peers : List SocketAddr) (is : IsPlatform p) (are : All IsAddr peers)
        (tells : Tells p here fd peers) (addr : SocketAddr) (msg : Bytes) (ws : List Connect.Wake)
        (mine : List SelectPoll) (mines : List (List SelectPoll)) (g : History) (later : List Wake)
        (a : SctpAssociation) (h : History) (before rest back : List Wake) (q r : RecvReply)
        (polls : List SelectPoll) (sends : List (List SelectPoll))
        → ((l : History)
            → (here l (Call.socket (domain_of p (addr ∷ [])) p.sock_stream ipproto_sctp)).result
              ≡ ret fd)
        → a.ended ≡ false
        → a.recv_state.buf ≡ []
        → Carries p (some (trip_call p fd msg)) before q
        → Conversation p false [] rest sends []
        → Carries p
            (last_sent (
              after (
                task p a
                  (before ++ readable q ∷ rest)
                  ((record { readiness = some ready; closed = false } ∷ polls) ∷ sends)
                  os
                  h)))
            back
            r
        → (info : RecvInfo) × ((echo_client p addr msg
                (record {
                  connects = writable ∷ ws;
                  wakes = back ++ readable r ∷ later;
                  sends = (record { readiness = some ready; closed = false } ∷ mine) ∷ mines;
                })
                here
                g
              ≡ done
                  (peers, msg, info)
                  (since
                    (connect_calls p fd flags [] (addr ∷ []) client_config ++ talk_calls p fd msg)
                    g))
            × (info.ppid ≡ m3ua)
            × (info.stream ≡ 0))
    echo_client-task here fd flags connects peers is are tells addr msg ws mine mines g later a h
          before rest back q r polls sends socket alive empty there more k =
        let e = echoed a h fd msg before rest back q r false polls sends alive empty there more k in
        (
          info_of p.endian r.sinfo,
          (
            echo_client-since p here fd flags connects peers is are tells addr msg k.first k.last
                  back later r ws false mine mines g socket k.begins k.ends_with
                ∙ ap (λ m. printed (m, info_of p.endian r.sinfo)) e.0,
            e.1,
            e.2,
          ),
        )
      where
        printed : Bytes × RecvInfo → Run Printed
        printed (m, info) =
            done (peers, m, info)
              (since (connect_calls p fd flags [] (addr ∷ []) client_config ++ talk_calls p fd msg)
                g)
