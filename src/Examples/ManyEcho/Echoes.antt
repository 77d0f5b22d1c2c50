-- ===== src/Examples/ManyEcho/Echoes.antt =====
-- The echo server answers each message once.
use async_sctp.Common.{
  ℕ, ◌<◌, ◌^◌, ◌≡◌, ap, ◌∙◌, sym, true, Option, Bytes, List, [], ◌∷◌, ◌++◌, some, from_be32-to_be32,
}
use async_sctp.Platform.{Platform}
use async_sctp.Sys.{SctpSndRcvInfo}
use async_sctp.Addr.{SocketAddr}
use async_sctp.Kernel.{
  Fd, Call, ret, History, Os, Io, Run, done, waiting, wait, ◌>>=◌, issue, pure, and_then,
}
use async_sctp.Notification.{Notification}
use async_sctp.Recv.{would_block, more, notified, RecvReply, info_of, peer_of}
use async_sctp.Recv.Chunks.{
  Blocks, recv_step-blocked, IsFragment, IsLast, IsNotice, recv_step-fragment, recv_step-last,
  recv_step-notice,
}
use async_sctp.Association.{sinfo_flags}
use async_sctp.Association.Receive.{Wake, readable}
use async_sctp.Association.Send.{Readiness, ready, after_send}
use async_sctp.Server.{
  SctpServer, Poll, returned, addressed, recv, send, send_with, send_loop, send_call,
}
use async_sctp.Server.Receive.{after_read, recv_round}
use async_sctp.Examples.ManyEcho.{on_message, serve}
use async_sctp.Examples.ManyEcho.Steps.{serve-on_message}

-- A message: its bytes, and what the kernel says of it.
abbrev pub Message : Type 0
Message = Bytes × SctpSndRcvInfo

-- The wakes deliver these messages, of which `buf` has come already, in any fragments, with empty
-- reads and notifications anywhere, and perhaps the beginning of one more.
pub data Traffic (p : Platform) : Bytes → List Wake → List Message → Type 0 where
  quiet : {buf : Bytes} → Traffic p buf [] []
  fragment :
      {buf d : Bytes} {r : RecvReply} {ws : List Wake} {ms : List Message}
      → IsFragment r d
      → Traffic p (buf ++ d) ws ms
      → Traffic p buf (readable r ∷ ws) ms
  blocked :
      {buf : Bytes} {r : RecvReply} {ws : List Wake} {ms : List Message}
      → Blocks p r
      → Traffic p buf ws ms
      → Traffic p buf (readable r ∷ ws) ms
  noted :
      {buf : Bytes} {r : RecvReply} {ws : List Wake} {ms : List Message} (n : Notification)
      → IsNotice p.endian r n
      → Traffic p buf ws ms
      → Traffic p buf (readable r ∷ ws) ms
  last :
      {buf d : Bytes} {r : RecvReply} {ws : List Wake} {ms : List Message} (addr : SocketAddr)
      → IsLast r d
      → peer_of p true r.storage ≡ some addr
      → r.sinfo.sinfo_ppid < 2 ^ 32
      → Traffic p [] ws ms
      → Traffic p buf (readable r ∷ ws) ((buf ++ d, r.sinfo) ∷ ms)

-- What an answer to a message is sent with: the stream, the association, and the payload protocol
-- identifier as it came over the wire.
abbrev pub answer_info : SctpSndRcvInfo → SctpSndRcvInfo
answer_info i = record {
  sinfo_stream = i.sinfo_stream;
  sinfo_ssn = 0;
  sinfo_flags = 0;
  sinfo_ppid = i.sinfo_ppid;
  sinfo_context = 0;
  sinfo_timetolive = 0;
  sinfo_tsn = 0;
  sinfo_cumtsn = 0;
  sinfo_assoc_id = i.sinfo_assoc_id;
}

abbrev pub echo_of : Fd → Message → Call
echo_of fd (bytes, i) = Call.send fd bytes (answer_info i)

-- The calls made when the messages have been answered in their order.
abbrev pub echoed : Fd → List Message → History → History
echoed fd [] h = h
echoed fd (m ∷ ms) h = echoed fd ms (echo_of fd m ∷ h)

-- The socket is writable when each answer is sent.
abbrev pub writable : List Message → List (List Readiness)
writable [] = []
writable (m ∷ ms) = (ready ∷ []) ∷ writable ms

-- The kernel accepts every answer.
abbrev pub Accepts : Os → Type 0
Accepts os =
    (h : History) (fd : Fd) (m : Message) → (n : ℕ) × ((os h (echo_of fd m)).result ≡ ret n)

module _ (p : Platform) where
  send_call-info_of :
      (fd : Fd) (bytes : Bytes) (i : SctpSndRcvInfo)
      → i.sinfo_ppid < 2 ^ 32
      → send_call p fd
          (info_of p.endian i).assoc_id
          bytes
          (info_of p.endian i).stream
          (info_of p.endian i).ppid
          async_sctp.Association.default_options
        ≡ echo_of fd (bytes, i)
  unfolding send_call sinfo_flags
  send_call-info_of fd bytes i h = rw (from_be32-to_be32 p.endian i.sinfo_ppid h)

  send-echo :
      (os : Os) (t : SctpServer) (bytes : Bytes) (i : SctpSndRcvInfo) (h : History) (n : ℕ)
      → i.sinfo_ppid < 2 ^ 32
      → (os h (echo_of t.fd (bytes, i))).result ≡ ret n
      → send p t
          (info_of p.endian i).assoc_id
          bytes
          (info_of p.endian i).stream
          (info_of p.endian i).ppid
          (ready ∷ [])
          os
          h
        ≡ done n (echo_of t.fd (bytes, i) ∷ h)
  unfolding send send_with send_loop after_send issue ◌>>=◌ pure
  send-echo os t bytes i h n small e = rw (send_call-info_of t.fd bytes i small, e)

  again :
      (t u : SctpServer) (ws vs : List Wake) (sends : List (List Readiness)) (os : Os) (h : History)
      → recv p t ws ≡ recv p u vs
      → serve p t ws sends os h ≡ serve p u vs sends os h
  again t u ws vs sends os h e =
      ap (λ (m : Io (Unit {0})). m os h)
        (serve-on_message p t ws sends
          ∙ ap (λ r. on_message p r sends (serve p)) e
          ∙ sym (serve-on_message p u vs sends))

  result :
      (t : SctpServer) (ws : List Wake) (sends : List (List Readiness)) (os : Os) (h : History)
      (r : Poll)
      → recv p t ws ≡ r
      → serve p t ws sends os h ≡ on_message p r sends (serve p) os h
  result t ws sends os h r e =
      ap (λ (m : Io (Unit {0})). m os h)
        (serve-on_message p t ws sends ∙ ap (λ r. on_message p r sends (serve p)) e)

  answer_round :
      (os : Os) (accepts : Accepts os) (u : SctpServer) (bytes : Bytes) (i : SctpSndRcvInfo)
      (addr : SocketAddr) (ws : List Wake) (ms : List Message) (h : History)
      → i.sinfo_ppid < 2 ^ 32
      → on_message p
          (returned (addressed bytes (info_of p.endian i) (some addr)) u ws)
          (writable ((bytes, i) ∷ ms))
          (serve p)
          os
          h
        ≡ serve p u ws (writable ms) os (echo_of u.fd (bytes, i) ∷ h)
  unfolding ◌>>=◌
  answer_round os accepts u bytes i addr ws ms h small =
      let accepted = accepts h u.fd (bytes, i) in
      ap (λ (r : Run ℕ). and_then os r (λ n. serve p u ws (writable ms)))
        (send-echo os u bytes i h accepted.0 small accepted.1)

  silent : (os : Os) (t : SctpServer) (h : History) → serve p t [] [] os h ≡ waiting h
  unfolding recv wait
  silent os t h = ap (λ (m : Io (Unit {0})). m os h) (serve-on_message p t [] [])

  -- On a kernel that accepts every message sent, the echo server answers each message that the
  -- kernel delivers once, in their order, with the same bytes, to the association it came from, on
  -- the same stream and with the same payload protocol identifier, however the messages are cut
  -- into fragments and whatever empty reads and notifications fall between; it makes no other
  -- call, and then waits. The socket is taken to be writable when an answer is sent, and each
  -- message to come with a socket address.
  pub serve-echoed :
      (os : Os) (accepts : Accepts os) {buf : Bytes} {ws : List Wake} {ms : List Message}
      (t : SctpServer) (h : History)
      → Traffic p buf ws ms
      → t.recv_state.buf ≡ buf
      → serve p t ws (writable ms) os h ≡ waiting (echoed t.fd ms h)
  serve-echoed os accepts t h quiet same = silent os t h
  serve-echoed os accepts t h (fragment {buf} {d} {r} {ws} {ms} f tr) same =
      let read = recv_step-fragment p true t.recv_state r d f in
      again t (after_read p t r) _ _ (writable ms) os h (recv_round p t r ws more read.0)
      ∙ serve-echoed os accepts (after_read p t r) h tr (read.1 ∙ ap (λ b. b ++ d) same)
  serve-echoed os accepts t h (blocked {buf} {r} {ws} {ms} b tr) same =
      let read = recv_step-blocked p true t.recv_state r b in
      again t (after_read p t r) _ _ (writable ms) os h (recv_round p t r ws would_block read.0)
      ∙ serve-echoed os accepts (after_read p t r) h tr (read.1 ∙ same)
  serve-echoed os accepts t h (noted {buf} {r} {ws} {ms} n f tr) same =
      let read = recv_step-notice p true t.recv_state r n f in
      result t _ (writable ms) os h _ (recv_round p t r ws (notified n) read.0)
      ∙ serve-echoed os accepts (after_read p t r) h tr (read.1 ∙ same)
  serve-echoed os accepts t h (last {buf} {d} {r} {ws} {ms} addr f from small tr) same =
      let read = recv_step-last p true t.recv_state r d f in
      let u = after_read p t r in
      result t _ (writable ((buf ++ d, r.sinfo) ∷ ms)) os h _ (recv_round p t r ws _ read.0)
      ∙ ap
          (λ (o : Option SocketAddr).
            on_message p
              (returned (addressed (t.recv_state.buf ++ d) (info_of p.endian r.sinfo) o) u ws)
              (writable ((buf ++ d, r.sinfo) ∷ ms)) (serve p) os h)
          from
      ∙ answer_round os accepts u (t.recv_state.buf ++ d) r.sinfo addr ws ms h small
      ∙ ap (λ b. serve p u ws (writable ms) os (echo_of u.fd (b ++ d, r.sinfo) ∷ h)) same
      ∙ serve-echoed os accepts u (echo_of t.fd (buf ++ d, r.sinfo) ∷ h) tr read.1
