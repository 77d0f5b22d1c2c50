-- ===== src/Association/Receive/Cancel.antt =====
-- `recv_msg` and `recv` are cancel-safe.
use async_sctp.Common.{
  ℕ, zero, suc, ◌<◌, arith, ◌≡◌, refl, ap, ◌∙◌, sym, true, false, List, [], ◌∷◌, ◌++◌,
  if◌then◌else◌, length,
}
use async_sctp.Error.{not_connected, ok, err}
use async_sctp.Platform.{Platform}
use async_sctp.Recv.{Step, would_block, more, notified, complete, stop, recv_step}
use async_sctp.Association.{SctpAssociation, RecvResult, message, notice}
use async_sctp.Association.Receive.{
  Wake, readable, reactor_error, Poll, returned, pending, on_step, recv_msg, on_result, recv,
}
use async_sctp.Association.Receive.Steps.{recv_lem, recv_msg-Leaves, Leaves}

-- More wakes after a future that was dropped while it waited, and a new call on them; a future
-- that had returned has only more left to come.
abbrev pub resume :
    {A : Type 0} → (SctpAssociation → List Wake → Poll A) → List Wake → Poll A → Poll A
resume call vs (returned r a ws) = returned r a (ws ++ vs)
resume call vs (pending a) = call a vs

on_step-resume :
    (call : SctpAssociation → List Wake → Poll RecvResult) (s : Step) (a : SctpAssociation)
    (ws vs : List Wake) (again again' : Poll RecvResult)
    → again' ≡ resume call vs again
    → on_step s a (ws ++ vs) again' ≡ resume call vs (on_step s a ws again)
on_step-resume call would_block a ws vs again again' e =
    elim a.ended
      as (λ b.
        (if b then returned (err not_connected) a (ws ++ vs) else again')
        ≡ resume call vs (if b then returned (err not_connected) a ws else again)) [
          | true ↦ refl
          | false ↦ e
        ]
on_step-resume call more a ws vs again again' e = e
on_step-resume call (notified n) a ws vs again again' e = refl
on_step-resume call (complete bytes info addr) a ws vs again again' e = refl
on_step-resume call (stop x) a ws vs again again' e = refl

module _ (p : Platform) (vs : List Wake) where
  -- A `recv_msg` that was dropped while it waited has lost nothing: a new call, on what comes
  -- then, gives what the first would have given.
  pub recv_msg-append :
      (a : SctpAssociation) (ws : List Wake)
      → recv_msg p a (ws ++ vs) ≡ resume (recv_msg p) vs (recv_msg p a ws)
  unfolding recv_msg
  recv_msg-append a [] = refl
  recv_msg-append a (reactor_error e ∷ ws) = refl
  recv_msg-append a (readable r ∷ ws) =
      let b = record a { recv_state = (recv_step p false a.recv_state r).1 } in
      on_step-resume (recv_msg p) (recv_step p false a.recv_state r).0 b ws vs (recv_msg p b ws) _
        (recv_msg-append b ws)

  on_result-resume :
      (n : ℕ) (m : Poll RecvResult)
      → Leaves n m
      → ((b : SctpAssociation) (ws : List Wake)
          → length ws < n
          → recv p b (ws ++ vs) ≡ resume (recv p) vs (recv p b ws))
      → on_result (resume (recv_msg p) vs m) (recv p) ≡ resume (recv p) vs (on_result m (recv p))
  on_result-resume n (returned (ok (message bytes info)) b ws) h ih = refl
  on_result-resume n (returned (ok (notice x)) b ws) h ih = ih b ws h
  on_result-resume n (returned (err e) b ws) h ih = refl
  on_result-resume n (pending b) h ih = sym (recv_lem p b vs)

  recv-append_below :
      (k : ℕ) (a : SctpAssociation) (ws : List Wake)
      → length ws < k
      → recv p a (ws ++ vs) ≡ resume (recv p) vs (recv p a ws)
  recv-append_below zero a ws h = absurd (omega arith)
  recv-append_below (suc k) a ws h =
      recv_lem p a (ws ++ vs)
      ∙ ap (λ m. on_result m (recv p)) (recv_msg-append a ws)
      ∙ on_result-resume (length ws) (recv_msg p a ws) (recv_msg-Leaves p a ws)
          (λ b us less. recv-append_below k b us (omega arith))
      ∙ ap (resume (recv p) vs) (sym (recv_lem p a ws))

  -- The same of `recv`: the fragments and the notifications that it had read are not lost.
  pub recv-append :
      (a : SctpAssociation) (ws : List Wake)
      → recv p a (ws ++ vs) ≡ resume (recv p) vs (recv p a ws)
  recv-append a ws = recv-append_below (suc (length ws)) a ws (omega arith)
