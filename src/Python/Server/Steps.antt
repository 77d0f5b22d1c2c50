-- ===== src/Python/Server/Steps.antt =====
-- The loop of `recv` in Python: its fuel never runs out.
use async_sctp.Common.{ℕ, ◌<◌, ◌≡◌, refl, List, length, loop_lem}
use async_sctp.Error.{ok, err}
use async_sctp.Platform.{Platform}
use async_sctp.Association.Receive.{Wake}
use async_sctp.Server
use async_sctp.Server.{SctpServer, message, notice, Poll, returned, pending, on_step}
use async_sctp.Python.{Std, PyPoll}
use async_sctp.Python.Server.{PyServer, Message, on_message, recv_loop, recv}
use async_sctp.Server.Steps.{LeavesFewer, recv-LeavesFewer}

module _ (s : Std) (p : Platform) where
  abbrev Next : Type 0
  Next = SctpServer → List Wake → PyPoll PyServer Wake (Message s p)

  on_message_agree :
      (n : ℕ) (r : Poll) (f g : Next)
      → LeavesFewer n r
      → ((t : SctpServer) (ws : List Wake) → length ws < n → f t ws ≡ g t ws)
      → on_message s p r f ≡ on_message s p r g
  on_message_agree n (returned (ok (message bytes info addr)) t ws) f g h same = refl
  on_message_agree n (returned (ok (notice m)) t ws) f g h same = same t ws h
  on_message_agree n (returned (err e) t ws) f g h same = refl
  on_message_agree n (pending t) f g h same = refl

  abbrev pub recv_from : Next
  recv_from t ws = recv s p (record { inner = t }) ws

  -- The loop of the source: each round is `recv` of the crate, and only a notification makes
  -- another round.
  pub recv-on_message :
      (t : SctpServer) (ws : List Wake)
      → recv_from t ws ≡ on_message s p (Server.recv p t ws) recv_from
  unfolding recv
  recv-on_message t ws =
      unfold recv_loop in
      loop_lem (λ again u vs. on_message s p (Server.recv p u vs) again)
        (λ f g u vs.
          on_message_agree (length vs) (Server.recv p u vs) f g (recv-LeavesFewer p u vs))
        (recv_loop s p) (λ n u vs. refl) t ws
