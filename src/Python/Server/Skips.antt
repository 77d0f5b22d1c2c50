-- ===== src/Python/Server/Skips.antt =====
-- `recv` of the server in Python gives whole messages and skips notifications.
use async_sctp.Common.{
  ◌≡◌, refl, sym, ap, ◌∙◌, true, Bytes, List, [], ◌∷◌, ◌++◌, append_assoc, some,
}
use async_sctp.Platform.{Platform}
use async_sctp.Addr.{SocketAddr}
use async_sctp.Notification.{Notification}
use async_sctp.Recv.{would_block, more, notified, RecvReply, info_of, peer_of}
use async_sctp.Recv.Chunks.{
  Blocks, recv_step-blocked, IsFragment, IsLast, IsNotice, recv_step-fragment, recv_step-last,
  recv_step-notice,
}
use async_sctp.Association.Receive.{Wake, readable}
use async_sctp.Server
use async_sctp.Server.{SctpServer, message, Poll, returned, notice}
use async_sctp.Server.Receive.{recv_round, after_read}
use async_sctp.Python.{Std, PyPoll, over, value, from_info}
use async_sctp.Python.Server.{PyServer, Message, on_message, recv}
use async_sctp.Python.Server.Steps.{recv_from, recv-on_message}

-- The wakes deliver `d` as the beginning of a message: fragments, with empty reads and any
-- notifications between them.
pub data Beginning (p : Platform) : Bytes → List Wake → Type 0 where
  none_yet : Beginning p [] []
  fragment :
      {d ds : Bytes} {r : RecvReply} {ws : List Wake}
      → IsFragment r d
      → Beginning p ds ws
      → Beginning p (d ++ ds) (readable r ∷ ws)
  blocked :
      {ds : Bytes} {r : RecvReply} {ws : List Wake}
      → Blocks p r
      → Beginning p ds ws
      → Beginning p ds (readable r ∷ ws)
  interleaved :
      {ds : Bytes} {r : RecvReply} {ws : List Wake} (n : Notification)
      → IsNotice p.endian r n
      → Beginning p ds ws
      → Beginning p ds (readable r ∷ ws)

-- `recv` gave `m`, left the wakes `rest`, and the server with an empty accumulator.
pub record Gives (s : Std) (p : Platform) (t : SctpServer) (m : Message s p) (rest : List Wake)
    (r : PyPoll PyServer Wake (Message s p)) : Type 0 where
  pub left : SctpServer
  pub result : r ≡ over (value m) (record { inner = left }) rest
  pub reset : left.recv_state.buf ≡ []
  pub same_fd : left.fd ≡ t.fd

module _ (s : Std) (p : Platform) where
  -- The outcome of one round, from that of the rounds after it.
  later :
      (t u : SctpServer) (m m' : Message s p) (rest : List Wake)
      (r r' : PyPoll PyServer Wake (Message s p))
      → r ≡ r'
      → m' ≡ m
      → u.fd ≡ t.fd
      → Gives s p u m' rest r'
      → Gives s p t m rest r
  later t u m m' rest r r' e same fd v = record {
    left = v.left;
    result = e ∙ v.result ∙ ap (λ x. over (value x) (record { inner = v.left }) rest) same;
    reset = v.reset;
    same_fd = v.same_fd ∙ fd;
  }

  again :
      (t u : SctpServer) (ws vs : List Wake)
      → Server.recv p t ws ≡ Server.recv p u vs
      → recv_from s p t ws ≡ recv_from s p u vs
  again t u ws vs e =
      recv-on_message s p t ws
      ∙ ap (λ r. on_message s p r (recv_from s p)) e
      ∙ sym (recv-on_message s p u vs)

  result :
      (t : SctpServer) (ws : List Wake) (r : Poll)
      → Server.recv p t ws ≡ r
      → recv_from s p t ws ≡ on_message s p r (recv_from s p)
  result t ws r e = recv-on_message s p t ws ∙ ap (λ r. on_message s p r (recv_from s p)) e

  module _ (last : Bytes) (r : RecvReply) (addr : SocketAddr) (is_last : IsLast r last)
      (from : peer_of p true r.storage ≡ some addr) (rest : List Wake) where
    -- The message with the bytes `bytes`.
    abbrev pub given : Bytes → Message s p
    given bytes = (bytes, from_info (info_of p.endian r.sinfo), s.socket_addr_text addr)

    -- However a message is cut into fragments, and whatever empty reads and notifications fall
    -- between them, `recv` in Python gives its bytes in order, behind what was buffered before,
    -- with the info of the last fragment and the text of the address that came with it. The
    -- accumulator is empty then. The last fragment is taken to come with a socket address.
    pub recv-Gives :
        {d : Bytes} {ws : List Wake} (t : SctpServer)
        → Beginning p d ws
        → Gives s p t
            (given (t.recv_state.buf ++ (d ++ last)))
            rest
            (recv s p (record { inner = t }) (ws ++ readable r ∷ rest))
    recv-Gives t none_yet =
        let read = recv_step-last p true t.recv_state r last is_last in
        record {
          left = after_read p t r;
          result =
              result t (readable r ∷ rest) _ (recv_round p t r rest _ read.0)
              ∙ ap
                  (λ o.
                    on_message s p
                      (returned
                        (Server.addressed (t.recv_state.buf ++ last) (info_of p.endian r.sinfo) o)
                        (after_read p t r) rest)
                      (recv_from s p))
                  from;
          reset = read.1;
          same_fd = refl;
        }
    recv-Gives t (fragment {d} {ds} {r = q} {ws} f b) =
        let read = recv_step-fragment p true t.recv_state q d f in
        later t (after_read p t q) _ _ rest _ _
          (again t (after_read p t q) _ _ (recv_round p t q _ more read.0))
          (ap given (ap (λ m. m ++ (ds ++ last)) read.1 ∙ simp append_assoc)) refl
          (recv-Gives (after_read p t q) b)
    recv-Gives t (blocked {ds} {r = q} {ws} f b) =
        let read = recv_step-blocked p true t.recv_state q f in
        later t (after_read p t q) _ _ rest _ _
          (again t (after_read p t q) _ _ (recv_round p t q _ would_block read.0))
          (ap given (ap (λ m. m ++ (ds ++ last)) read.1)) refl (recv-Gives (after_read p t q) b)
    recv-Gives t (interleaved {ds} {r = q} {ws} n f b) =
        let read = recv_step-notice p true t.recv_state q n f in
        later t (after_read p t q) _ _ rest _ _
          (result t _ _ (recv_round p t q _ (notified n) read.0))
          (ap given (ap (λ m. m ++ (ds ++ last)) read.1)) refl (recv-Gives (after_read p t q) b)
