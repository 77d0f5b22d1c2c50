-- ===== src/Association/Receive/Whole.antt =====
-- `recv` hands over whole messages, however the kernel delivers them.
use async_sctp.Common.{◌≡◌, refl, ap, ◌∙◌, false, Bytes, List, [], ◌∷◌, ◌++◌, append_assoc}
use async_sctp.Error.{ok}
use async_sctp.Platform.{Platform}
use async_sctp.Notification.{Notification}
use async_sctp.Types.{RecvInfo}
use async_sctp.Recv.{RecvReply, info_of}
use async_sctp.Recv.Chunks.{
  Blocks, recv_step-blocked, IsFragment, IsLast, IsNotice, recv_step-fragment, recv_step-last,
  recv_step-notice,
}
use async_sctp.Association.{SctpAssociation, ends}
use async_sctp.Association.Receive.{Wake, readable, Poll, returned, recv}
use async_sctp.Association.Receive.Steps.{
  recv_msg-fragment, recv_msg-notice, recv_msg-last, recv_msg-blocked, recv-again, recv-result,
  after_read,
}

-- The wakes deliver `d` as the beginning of a message: any number of fragments, with empty reads
-- and notifications that do not end the association anywhere between them.
pub data Beginning (p : Platform) : Bytes → List Wake → Type 0 where
  none_yet : Beginning p [] []
  fragment :
      {d ds : Bytes} {r : RecvReply} {ws : List Wake}
      → IsFragment r d
      → Beginning p ds ws
      → Beginning p (d ++ ds) (readable r ∷ ws)
  blocked :
      {ds : Bytes} {r : RecvReply} {ws : List Wake}
      → Blocks p r
      → Beginning p ds ws
      → Beginning p ds (readable r ∷ ws)
  interleaved :
      {ds : Bytes} {r : RecvReply} {ws : List Wake} (n : Notification)
      → IsNotice p.endian r n
      → ends n ≡ false
      → Beginning p ds ws
      → Beginning p ds (readable r ∷ ws)

-- `recv` returned the message `bytes` with `info`, left the wakes `rest`, and the association
-- is open with an empty accumulator.
pub record Receives (a : SctpAssociation) (bytes : Bytes) (info : RecvInfo) (rest : List Wake)
    (r : Poll (Bytes × RecvInfo)) : Type 0 where
  pub left : SctpAssociation
  pub result : r ≡ returned (ok (bytes, info)) left rest
  pub reset : left.recv_state.buf ≡ []
  pub alive : left.ended ≡ false
  pub same_fd : left.fd ≡ a.fd

-- The outcome of one round, from that of the rounds after it.
later :
    (a b : SctpAssociation) (bytes bytes' : Bytes) (info : RecvInfo) (rest : List Wake)
    (r r' : Poll (Bytes × RecvInfo))
    → r ≡ r'
    → bytes' ≡ bytes
    → b.fd ≡ a.fd
    → Receives b bytes' info rest r'
    → Receives a bytes info rest r
later a b bytes bytes' info rest r r' e same fd v = record {
  left = v.left;
  result = e ∙ v.result ∙ ap (λ m. returned (ok (m, info)) v.left rest) same;
  reset = v.reset;
  alive = v.alive;
  same_fd = v.same_fd ∙ fd;
}

module _ (p : Platform) (last : Bytes) (r : RecvReply) (is_last : IsLast r last)
    (rest : List Wake) where
  -- On an association that is not ended, however a message is cut into fragments, and whatever
  -- empty reads and notifications that do not end the association fall between them, `recv`
  -- returns the bytes in order, behind what an earlier call had buffered, with the info of the
  -- last fragment. The accumulator is empty then, and what comes after is left to come.
  pub recv-Receives :
      {d : Bytes} {ws : List Wake} (a : SctpAssociation)
      → Beginning p d ws
      → a.ended ≡ false
      → Receives a
          (a.recv_state.buf ++ (d ++ last))
          (info_of p.endian r.sinfo)
          rest
          (recv p a (ws ++ readable r ∷ rest))
  recv-Receives a none_yet alive = record {
    left = after_read p a r;
    result = recv-result p a r rest _ (recv_msg-last p a r rest last is_last);
    reset = (recv_step-last p false a.recv_state r last is_last).1;
    alive = alive;
    same_fd = refl;
  }
  recv-Receives a (fragment {d} {ds} {r = q} {ws} f b) alive =
      later a (after_read p a q) _ _ _ rest _ _
        (recv-again p a q _ _ (recv_msg-fragment p a q _ d f))
        (ap (λ m. m ++ (ds ++ last)) (recv_step-fragment p false a.recv_state q d f).1
          ∙ simp append_assoc)
        refl (recv-Receives (after_read p a q) b alive)
  recv-Receives a (blocked {ds} {r = q} {ws} f b) alive =
      later a (after_read p a q) _ _ _ rest _ _
        (recv-again p a q _ _ (recv_msg-blocked p a q _ alive f))
        (ap (λ m. m ++ (ds ++ last)) (recv_step-blocked p false a.recv_state q f).1) refl
        (recv-Receives (after_read p a q) b alive)
  recv-Receives a (interleaved {ds} {r = q} {ws} n f going b) alive =
      later a (after_read p a q) _ _ _ rest _ _
        (recv-result p a q _ _ (recv_msg-notice p a q _ n f) ∙ rw going)
        (ap (λ m. m ++ (ds ++ last)) (recv_step-notice p false a.recv_state q n f).1) refl
        (recv-Receives (after_read p a q) b alive)
