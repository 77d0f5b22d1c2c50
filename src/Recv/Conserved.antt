-- ===== src/Recv/Conserved.antt =====
-- No byte of data is lost, doubled or moved by the reads of a socket.
use async_sctp.Common.{
  ℕ, zero, suc, ◌≡◌, refl, ap, ◌∙◌, sym, arith, inl, inr, Bool, Bool-cases, Bytes, [], ◌∷◌, ◌++◌,
  append-nil, if◌then◌else◌, length,
}
use async_sctp.Platform.{Platform, is_would_block}
use async_sctp.Sys.{msg_notification, msg_eor}
use async_sctp.Kernel.{Ret, ret, fail}
use async_sctp.Recv.{
  Reassembly, Step, would_block, more, notified, complete, stop, RecvReply, has_flag, push_chunk,
  fold_reply, recv_step, grown, overwritten, peer_of,
}
use async_sctp.Recv.Chunks.{recv_step-push_chunk}

-- A read that succeeds wrote as many bytes as it returns.
abbrev Agrees : Ret → Bytes → Type 0
Agrees (ret n) written = length written ≡ n
Agrees (fail errno) written = Unit {0}

abbrev pub IsReply : RecvReply → Type 0
IsReply r = Agrees r.result r.written

-- The data that a read brings: what it wrote, unless it failed or brought a notification.
abbrev data_by : Ret → RecvReply → Bytes
data_by (ret n) r = if has_flag r.msg_flags msg_notification then [] else r.written
data_by (fail errno) r = []

abbrev pub data_of : RecvReply → Bytes
data_of r = data_by r.result r

-- The payload that a step hands over.
abbrev pub payload : Step → Bytes
payload would_block = []
payload more = []
payload (notified n) = []
payload (complete bytes info addr) = bytes
payload (stop e) = []

module _ (p : Platform) (w : Bool) (st : Reassembly) where
  push_chunk_conserved :
      (d : Bytes) (r : RecvReply)
      → let pushed = push_chunk p.endian st.buf d r.msg_flags r.sinfo (peer_of p w r.storage) in
        payload pushed.0 ++ pushed.1
        ≡ st.buf ++ (if has_flag r.msg_flags msg_notification then [] else d)
  unfolding push_chunk
  push_chunk_conserved d r = elim (Bool-cases (has_flag r.msg_flags msg_notification)) [
    | inl note ↦ rw note (sym (append-nil st.buf))
    | inr plain ↦ rw plain (elim (Bool-cases (has_flag r.msg_flags msg_eor)) [
      | inl last ↦ rw last (append-nil (st.buf ++ d))
      | inr further ↦ rw further refl
    ])
  ]

  -- A read that brought nothing.
  nothing_folded :
      (r : RecvReply) (q : Ret) (d : Bytes)
      → r.result ≡ q
      → d ≡ []
      → (payload (fold_reply p w st.buf (overwritten r.written (grown st.scratch)) r q).0
            ++ (fold_reply p w st.buf (overwritten r.written (grown st.scratch)) r q).1
          ≡ st.buf)
      → payload (recv_step p w st r).0 ++ (recv_step p w st r).1.buf ≡ st.buf ++ d
  unfolding recv_step fold_reply
  nothing_folded r q d e empty same = rw (e, empty) (same ∙ sym (append-nil st.buf))

  blocked_or_stopped :
      (r : RecvReply) (errno : ℕ)
      → let folded =
          fold_reply p w st.buf (overwritten r.written (grown st.scratch)) r (fail errno) in
        payload folded.0 ++ folded.1 ≡ st.buf
  unfolding fold_reply
  blocked_or_stopped r errno = elim (Bool-cases (is_would_block p errno)) [
    | inl b ↦ rw b
    | inr s ↦ rw s
  ]

  data_of_none : (r : RecvReply) → length r.written ≡ 0 → data_by (ret 0) r ≡ []
  data_of_none r e = none_of r.written e
    where
      none_of :
          (d : Bytes)
          → length d ≡ 0
          → (if has_flag r.msg_flags msg_notification then [] else d) ≡ []
      none_of [] e = elim (Bool-cases (has_flag r.msg_flags msg_notification)) [
        | inl b ↦ rw b
        | inr s ↦ rw s
      ]
      none_of (x ∷ d) e = absurd (omega (arith, e))

  step_conserved :
      (r : RecvReply) (q : Ret)
      → r.result ≡ q
      → Agrees q r.written
      → payload (recv_step p w st r).0 ++ (recv_step p w st r).1.buf ≡ st.buf ++ data_by q r
  step_conserved r (fail errno) e a =
      nothing_folded r (fail errno) [] e refl (blocked_or_stopped r errno)
  step_conserved r (ret zero) e a =
      nothing_folded r (ret 0) (data_by (ret 0) r) e (data_of_none r a) (unfold fold_reply in refl)
  step_conserved r (ret (suc n)) e a =
      let same =
        recv_step-push_chunk p w st r r.written
          (record { nonempty = omega (arith, a); result = e ∙ ap ret (sym a); written = refl }) in
      rw (same.0, same.1) (push_chunk_conserved r.written r)

  -- What a read hands over, with what is then in the accumulator behind it, is what was in the
  -- accumulator with the data of the read behind it.
  pub recv_step-data_of :
      (r : RecvReply)
      → IsReply r
      → payload (recv_step p w st r).0 ++ (recv_step p w st r).1.buf ≡ st.buf ++ data_of r
  recv_step-data_of r a = step_conserved r r.result refl a
