-- ===== src/Examples/ManyEcho/Steps.antt =====
-- The loop of the echo server: its fuel never runs out.
use async_sctp.Common.{fun_ext, loop_lem, ℕ, ◌<◌, ◌≡◌, refl, ap, List, length}
use async_sctp.Error.{ok, err}
use async_sctp.Platform.{Platform}
use async_sctp.Kernel.{Io, ◌>>=◌}
use async_sctp.Association.Receive.{Wake}
use async_sctp.Association.Send.{Readiness}
use async_sctp.Server
use async_sctp.Server.{SctpServer, message, notice, Poll, returned, pending, recv}
use async_sctp.Server.Steps.{LeavesFewer, recv-LeavesFewer}
use async_sctp.Examples.{next_send, later_sends}
use async_sctp.Examples.ManyEcho.{Program, on_message, serve_loop, serve}

module _ (p : Platform) where
  on_message_agree :
      (n : ℕ) (r : Poll) (sends : List (List Readiness)) (f g : Program)
      → LeavesFewer n r
      → ((t : SctpServer) (ws : List Wake) → length ws < n → f t ws ≡ g t ws)
      → on_message p r sends f ≡ on_message p r sends g
  on_message_agree n (returned (ok (message bytes info addr)) t ws) sends f g h same =
      ap
        (λ k.
          Server.send p t info.assoc_id bytes info.stream info.ppid (next_send sends) >>= λ sent. k)
        (ap (λ m. m (later_sends sends)) (same t ws h))
  on_message_agree n (returned (ok (notice m)) t ws) sends f g h same =
      ap (λ m. m sends) (same t ws h)
  on_message_agree n (returned (err e) t ws) sends f g h same = refl
  on_message_agree n (pending t) sends f g h same = refl

  -- The loop of the source: each round is `recv` of the server, and every message or notification
  -- makes another round.
  pub serve-on_message :
      (t : SctpServer) (ws : List Wake) (sends : List (List Readiness))
      → serve p t ws sends ≡ on_message p (recv p t ws) sends (serve p)
  unfolding serve
  serve-on_message t ws sends =
      unfold serve_loop in
      ap (λ (f : List (List Readiness) → Io (Unit {0})). f sends)
        (loop_lem (λ (again : Program) u vs later. on_message p (recv p u vs) later again)
          (λ f g u vs same. fun_ext (λ later.
            on_message_agree (length vs) (recv p u vs) later f g (recv-LeavesFewer p u vs) same))
          (serve_loop p) (λ n u vs. refl) t ws)
