-- ===== src/Association/Receive/Ended.antt =====
-- Once the kernel has said that an association is over, a receive on it ends.
use async_sctp.Common.{◌≡◌, refl, ◌∙◌, ◌⊎◌, inl, inr, true, false, Bool-cases, List, [], ◌∷◌, ◌++◌}
use async_sctp.Error.{not_connected, err}
use async_sctp.Platform.{Platform}
use async_sctp.Notification.{Notification}
use async_sctp.Recv.{Step, would_block, more, notified, complete, stop, RecvReply, recv_step}
use async_sctp.Recv.Chunks.{Blocks, IsNotice}
use async_sctp.Association.{SctpAssociation, ends}
use async_sctp.Association.Receive.{
  Wake, readable, reactor_error, Poll, returned, pending, note_end, recv_msg, recv,
}
use async_sctp.Association.Receive.Steps.{
  recv_lem, recv_msg-notice, recv_msg-blocked_ended, recv_msg_step, recv-again, recv-result,
  after_read,
}

abbrev pub IsReturned : {A : Type 0} → Poll A → Type 0
IsReturned (returned r a ws) = Unit {0}
IsReturned (pending a) = ⊥

-- One round returns, or goes on with the next wake; an end that was noted stays noted.
abbrev Round : Platform → SctpAssociation → Wake → List Wake → Type 0
Round p a w ws =
    IsReturned (recv p a (w ∷ ws))
    ⊎ ((b : SctpAssociation) × (recv p a (w ∷ ws) ≡ recv p b ws)
        × (a.ended ≡ true → b.ended ≡ true))

pub note_end-ended :
    (n : Notification) (a : SctpAssociation) → a.ended ≡ true → (note_end n a).ended ≡ true
note_end-ended n a h = elim (Bool-cases (ends n)) [ inl e ↦ rw e | inr e ↦ rw e h ]

pub note_end-ends :
    (n : Notification) (a : SctpAssociation) → ends n ≡ true → (note_end n a).ended ≡ true
note_end-ends n a e = rw e

module _ (p : Platform) where
  Round-step :
      (a : SctpAssociation) (r : RecvReply) (ws : List Wake) (s : Step)
      → (recv_step p false a.recv_state r).0 ≡ s
      → Round p a (readable r) ws
  Round-step a r ws would_block e = elim (Bool-cases a.ended) [
    | inl over ↦
        inl (rw (recv-result p a r ws _ (recv_msg_step p a r ws would_block e)) (rw over tt))
    | inr alive ↦ inr (
      after_read p a r,
      recv-again p a r ws _ (recv_msg_step p a r ws would_block e ∙ rw alive),
      λ h. h,
    )
  ]
  Round-step a r ws more e =
      inr (after_read p a r, recv-again p a r ws _ (recv_msg_step p a r ws more e), λ h. h)
  Round-step a r ws (notified n) e = inr (
    note_end n (after_read p a r),
    recv-result p a r ws _ (recv_msg_step p a r ws (notified n) e),
    λ h. note_end-ended n (after_read p a r) h,
  )
  Round-step a r ws (complete bytes info addr) e =
      inl (rw (recv-result p a r ws _ (recv_msg_step p a r ws _ e)) tt)
  Round-step a r ws (stop x) e = inl (rw (recv-result p a r ws _ (recv_msg_step p a r ws _ e)) tt)

  round : (a : SctpAssociation) (w : Wake) (ws : List Wake) → Round p a w ws
  unfolding recv_msg
  round a (readable r) ws = Round-step a r ws _ refl
  round a (reactor_error x) ws = inl (rw (recv_lem p a (reactor_error x ∷ ws)) tt)

  -- On an association whose end was noted, `recv` returns by the first read that finds nothing,
  -- whatever is read before.
  pub recv_ended-IsReturned :
      (a : SctpAssociation) (ws : List Wake) (q : RecvReply) (rest : List Wake)
      → a.ended ≡ true
      → Blocks p q
      → IsReturned (recv p a (ws ++ readable q ∷ rest))
  recv_ended-IsReturned a [] q rest over b =
      rw (recv-result p a q rest _ (recv_msg-blocked_ended p a q rest over b)) tt
  recv_ended-IsReturned a (w ∷ ws) q rest over b = elim (round a w (ws ++ readable q ∷ rest)) [
    | inl done ↦ done
    | inr (c, same, still) ↦ rw same (recv_ended-IsReturned c ws q rest (still over) b)
  ]

  -- A receive never waits for ever on an association that is over: from the moment that it reads
  -- a notification of the end, at whatever point, it returns by the next read that finds
  -- nothing.
  pub recv-IsReturned :
      (a : SctpAssociation) (ws vs : List Wake) (r q : RecvReply) (n : Notification)
      (rest : List Wake)
      → IsNotice p.endian r n
      → ends n ≡ true
      → Blocks p q
      → IsReturned (recv p a (ws ++ readable r ∷ (vs ++ readable q ∷ rest)))
  recv-IsReturned a [] vs r q n rest f e b =
      rw (recv-result p a r (vs ++ readable q ∷ rest) _ (recv_msg-notice p a r _ n f)) (
        recv_ended-IsReturned (note_end n (after_read p a r)) vs q rest
          (note_end-ends n (after_read p a r) e) b)
  recv-IsReturned a (w ∷ ws) vs r q n rest f e b =
      elim (round a w (ws ++ readable r ∷ (vs ++ readable q ∷ rest))) [
        | inl done ↦ done
        | inr (c, same, still) ↦ rw same (recv-IsReturned c ws vs r q n rest f e b)
      ]

  -- A receive that reads the notification of the end and then finds nothing queued returns
  -- `NotConnected`, and the association stays ended.
  pub recv-NotConnected :
      (a : SctpAssociation) (r q : RecvReply) (n : Notification) (rest : List Wake)
      → IsNotice p.endian r n
      → ends n ≡ true
      → Blocks p q
      → (b : SctpAssociation) × (recv p a (readable r ∷ readable q ∷ rest)
          ≡ returned (err not_connected) b rest)
        × (b.ended ≡ true)
  recv-NotConnected a r q n rest f e b =
      let c = note_end n (after_read p a r) in
      let over = note_end-ends n (after_read p a r) e in
      (
        after_read p c q,
        recv-result p a r (readable q ∷ rest) _ (recv_msg-notice p a r _ n f)
            ∙ recv-result p c q rest _ (recv_msg-blocked_ended p c q rest over b),
        over,
      )
