-- ===== src/Association/Receive/Steps.antt =====
-- The rounds of `recv_msg` and of `recv`.
use async_sctp.Common.{
  ℕ, suc, ◌<◌, ◌≡◌, refl, ap, sym, ◌∙◌, arith, true, false, Bytes, List, [], ◌∷◌, ◌++◌,
  if◌then◌else◌, length, loop_lem,
}
use async_sctp.Error.{not_connected, ok, err}
use async_sctp.Platform.{Platform}
use async_sctp.Notification.{Notification}
use async_sctp.Types.{RecvInfo}
use async_sctp.Recv.{
  Step, would_block, more, notified, complete, stop, RecvReply, info_of, recv_step,
}
use async_sctp.Recv.Chunks.{
  Blocks, recv_step-blocked, IsFragment, IsLast, IsNotice, recv_step-fragment, recv_step-last,
  recv_step-notice,
}
use async_sctp.Association.{SctpAssociation, RecvResult, message, notice}
use async_sctp.Association.Receive.{
  Wake, readable, reactor_error, Poll, returned, pending, note_end, on_step, recv_msg, on_result,
  recv_loop, recv,
}

-- A future that returned has left fewer than `n` wakes.
abbrev pub Leaves : {A : Type 0} → ℕ → Poll A → Type 0
Leaves n (returned r a ws) = length ws < n
Leaves n (pending a) = Unit {0}

Leaves-suc : {A : Type 0} (n : ℕ) (r : Poll A) → Leaves n r → Leaves (suc n) r
Leaves-suc n (returned r a ws) h = omega arith
Leaves-suc n (pending a) h = tt

on_step-Leaves :
    (s : Step) (a : SctpAssociation) (ws : List Wake) (again : Poll RecvResult)
    → Leaves (length ws) again
    → Leaves (suc (length ws)) (on_step s a ws again)
on_step-Leaves would_block a ws again h =
    elim a.ended
      as (λ b. Leaves (suc (length ws)) (if b then returned (err not_connected) a ws else again)) [
        | true ↦ omega arith
        | false ↦ Leaves-suc (length ws) again h
      ]
on_step-Leaves more a ws again h = Leaves-suc (length ws) again h
on_step-Leaves (notified n) a ws again h = omega arith
on_step-Leaves (complete bytes info addr) a ws again h = omega arith
on_step-Leaves (stop e) a ws again h = omega arith

-- A `recv_msg` that returns has taken at least one wake.
pub recv_msg-Leaves :
    (p : Platform) (a : SctpAssociation) (ws : List Wake) → Leaves (length ws) (recv_msg p a ws)
unfolding recv_msg
recv_msg-Leaves p a [] = tt
recv_msg-Leaves p a (reactor_error e ∷ ws) = omega arith
recv_msg-Leaves p a (readable r ∷ ws) =
    let b = record a { recv_state = (recv_step p false a.recv_state r).1 } in
    on_step-Leaves (recv_step p false a.recv_state r).0 b ws (recv_msg p b ws)
      (recv_msg-Leaves p b ws)

abbrev Next : Type 0
Next = SctpAssociation → List Wake → Poll (Bytes × RecvInfo)

on_result_agree :
    (n : ℕ) (r : Poll RecvResult) (f g : Next)
    → Leaves n r
    → ((a : SctpAssociation) (ws : List Wake) → length ws < n → f a ws ≡ g a ws)
    → on_result r f ≡ on_result r g
on_result_agree n (returned (ok (message bytes info)) a ws) f g h same = refl
on_result_agree n (returned (ok (notice m)) a ws) f g h same = same a ws h
on_result_agree n (returned (err e) a ws) f g h same = refl
on_result_agree n (pending a) f g h same = refl

-- The loop of the source: the fuel never runs out.
pub recv_lem :
    (p : Platform) (a : SctpAssociation) (ws : List Wake)
    → recv p a ws ≡ on_result (recv_msg p a ws) (recv p)
unfolding recv
recv_lem p a ws =
    unfold recv_loop in
    loop_lem (λ again b vs. on_result (recv_msg p b vs) again)
      (λ f g b vs. on_result_agree (length vs) (recv_msg p b vs) f g (recv_msg-Leaves p b vs))
      (recv_loop p) (λ n b vs. refl) a ws

-- The association after one read.
abbrev pub after_read : Platform → SctpAssociation → RecvReply → SctpAssociation
after_read p a r = record a { recv_state = (recv_step p false a.recv_state r).1 }

module _ (p : Platform) (a : SctpAssociation) (r : RecvReply) (ws : List Wake) where
  pub recv_msg_step :
      (s : Step)
      → (recv_step p false a.recv_state r).0 ≡ s
      → recv_msg p a (readable r ∷ ws)
        ≡ on_step s (after_read p a r) ws (recv_msg p (after_read p a r) ws)
  unfolding recv_msg
  recv_msg_step s e = ap (λ x. on_step x (after_read p a r) ws (recv_msg p (after_read p a r) ws)) e

  pub recv_msg-fragment :
      (d : Bytes)
      → IsFragment r d
      → recv_msg p a (readable r ∷ ws) ≡ recv_msg p (after_read p a r) ws
  recv_msg-fragment d f = recv_msg_step more (recv_step-fragment p false a.recv_state r d f).0

  pub recv_msg-notice :
      (n : Notification)
      → IsNotice p.endian r n
      → recv_msg p a (readable r ∷ ws) ≡ returned (ok (notice n)) (note_end n (after_read p a r)) ws
  recv_msg-notice n f = recv_msg_step (notified n) (recv_step-notice p false a.recv_state r n f).0

  pub recv_msg-last :
      (d : Bytes)
      → IsLast r d
      → recv_msg p a (readable r ∷ ws)
        ≡ returned
            (ok (message (a.recv_state.buf ++ d) (info_of p.endian r.sinfo)))
            (after_read p a r)
            ws
  recv_msg-last d f = recv_msg_step _ (recv_step-last p false a.recv_state r d f).0

  pub recv_msg-blocked :
      a.ended ≡ false
      → Blocks p r
      → recv_msg p a (readable r ∷ ws) ≡ recv_msg p (after_read p a r) ws
  recv_msg-blocked alive b =
      recv_msg_step would_block (recv_step-blocked p false a.recv_state r b).0 ∙ rw alive

  -- On an association that is over, a receive that finds nothing returns an error.
  pub recv_msg-blocked_ended :
      a.ended ≡ true
      → Blocks p r
      → recv_msg p a (readable r ∷ ws) ≡ returned (err not_connected) (after_read p a r) ws
  recv_msg-blocked_ended over b =
      recv_msg_step would_block (recv_step-blocked p false a.recv_state r b).0 ∙ rw over

  pub recv-again :
      (b : SctpAssociation)
      → recv_msg p a (readable r ∷ ws) ≡ recv_msg p b ws
      → recv p a (readable r ∷ ws) ≡ recv p b ws
  recv-again b e =
      recv_lem p a (readable r ∷ ws) ∙ ap (λ m. on_result m (recv p)) e ∙ sym (recv_lem p b ws)

  pub recv-result :
      (m : Poll RecvResult)
      → recv_msg p a (readable r ∷ ws) ≡ m
      → recv p a (readable r ∷ ws) ≡ on_result m (recv p)
  recv-result m e = recv_lem p a (readable r ∷ ws) ∙ ap (λ x. on_result x (recv p)) e
