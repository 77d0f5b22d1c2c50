-- ===== src/Recv/Chunks.antt =====
-- One read: what it hands over does not depend on what earlier reads left in the read buffer.
use async_sctp.Common.{
  ℕ, ◌<◌, ◌≡◌, ap, ◌∙◌, Bool, true, false, Bytes, [], ◌∷◌, ◌++◌, arith, length, take-length_append,
  Endian,
}
use async_sctp.Platform.{Platform, is_would_block}
use async_sctp.Sys.{msg_notification, msg_eor}
use async_sctp.Kernel.{ret, fail}
use async_sctp.Notification.{Notification, parse_notification}
use async_sctp.Recv.{
  Reassembly, would_block, notified, complete, more, RecvReply, has_flag, info_of, push_chunk,
  grown, overwritten, peer_of, fold_reply, recv_step,
}

-- The kernel delivered the bytes `d`, at least one, and returned their number.
pub record Delivers (r : RecvReply) (d : Bytes) : Type 0 where
  pub nonempty : 0 < length d
  pub result : r.result ≡ ret (length d)
  pub written : r.written ≡ d

fold_delivered :
    (p : Platform) (want_addr : Bool) (buf : Bytes) (r : RecvReply) (b : ℕ) (d stale : Bytes)
    → fold_reply p want_addr buf ((b ∷ d) ++ stale) r (ret (length (b ∷ d)))
      ≡ push_chunk p.endian buf (b ∷ d) r.msg_flags r.sinfo (peer_of p want_addr r.storage)
unfolding fold_reply
fold_delivered p want_addr buf r b d stale =
    ap (λ c. push_chunk p.endian buf c r.msg_flags r.sinfo (peer_of p want_addr r.storage))
      (take-length_append (b ∷ d) stale)

recv_step_ret :
    (p : Platform) (w : Bool) (st : Reassembly) (r : RecvReply) (d : Bytes)
    → 0 < length d
    → r.result ≡ ret (length d)
    → r.written ≡ d
    → let pushed = push_chunk p.endian st.buf d r.msg_flags r.sinfo (peer_of p w r.storage) in
      ((recv_step p w st r).0 ≡ pushed.0) × ((recv_step p w st r).1.buf ≡ pushed.1)
unfolding recv_step overwritten fold_reply
recv_step_ret p w st r [] some_bytes result written = absurd (omega arith)
recv_step_ret p w st r (b ∷ d) some_bytes result written =
    rw (result, written)
      (let e = fold_delivered p w st.buf r b d _ in (ap (λ x. x.0) e, ap (λ x. x.1) e))

-- A read that delivers `d`, at least one byte, gives the step of `push_chunk` on exactly `d` and
-- its accumulator, whatever the read buffer held.
pub recv_step-push_chunk :
    (p : Platform) (w : Bool) (st : Reassembly) (r : RecvReply) (d : Bytes)
    → Delivers r d
    → let pushed = push_chunk p.endian st.buf d r.msg_flags r.sinfo (peer_of p w r.storage) in
      ((recv_step p w st r).0 ≡ pushed.0) × ((recv_step p w st r).1.buf ≡ pushed.1)
recv_step-push_chunk p w st r d v = recv_step_ret p w st r d v.nonempty v.result v.written

-- A fragment of data, the last piece of a record, and a notification.
pub record IsFragment (r : RecvReply) (d : Bytes) : Type 0 where
  pub delivers : Delivers r d
  pub data_flag : has_flag r.msg_flags msg_notification ≡ false
  pub eor_flag : has_flag r.msg_flags msg_eor ≡ false

pub record IsLast (r : RecvReply) (d : Bytes) : Type 0 where
  pub delivers : Delivers r d
  pub data_flag : has_flag r.msg_flags msg_notification ≡ false
  pub eor_flag : has_flag r.msg_flags msg_eor ≡ true

pub record IsNotice (e : Endian) (r : RecvReply) (n : Notification) : Type 0 where
  pub bytes : Bytes
  pub delivers : Delivers r bytes
  pub notice_flag : has_flag r.msg_flags msg_notification ≡ true
  pub parsed : parse_notification e bytes ≡ n

-- The kernel had nothing to read.
pub record Blocks (p : Platform) (r : RecvReply) : Type 0 where
  pub errno : ℕ
  pub result : r.result ≡ fail errno
  pub blocked : is_would_block p errno ≡ true

fold_blocked :
    (p : Platform) (w : Bool) (buf scratch : Bytes) (r : RecvReply) (errno : ℕ)
    → is_would_block p errno ≡ true
    → fold_reply p w buf scratch r (fail errno) ≡ (would_block, buf)
unfolding fold_reply
fold_blocked p w buf scratch r errno e = rw e

module _ (p : Platform) (w : Bool) (st : Reassembly) (r : RecvReply) where
  pub recv_step-blocked :
      Blocks p r → ((recv_step p w st r).0 ≡ would_block) × ((recv_step p w st r).1.buf ≡ st.buf)
  unfolding recv_step
  recv_step-blocked b =
      let scratch = overwritten r.written (grown st.scratch) in
      let e =
        ap (fold_reply p w st.buf scratch r) b.result
        ∙ fold_blocked p w st.buf scratch r b.errno b.blocked in
      (ap (λ x. x.0) e, ap (λ x. x.1) e)

  pub recv_step-fragment :
      (d : Bytes)
      → IsFragment r d
      → ((recv_step p w st r).0 ≡ more) × ((recv_step p w st r).1.buf ≡ st.buf ++ d)
  unfolding push_chunk
  recv_step-fragment d f = ground (arith, recv_step-push_chunk p w st r d f.delivers)

  pub recv_step-last :
      (d : Bytes)
      → IsLast r d
      → ((recv_step p w st r).0
          ≡ complete (st.buf ++ d) (info_of p.endian r.sinfo) (peer_of p w r.storage))
        × ((recv_step p w st r).1.buf ≡ [])
  unfolding push_chunk
  recv_step-last d f = ground (arith, recv_step-push_chunk p w st r d f.delivers)

  pub recv_step-notice :
      (n : Notification)
      → IsNotice p.endian r n
      → ((recv_step p w st r).0 ≡ notified n) × ((recv_step p w st r).1.buf ≡ st.buf)
  unfolding push_chunk
  recv_step-notice n f = ground (arith, recv_step-push_chunk p w st r f.bytes f.delivers, f.parsed)
