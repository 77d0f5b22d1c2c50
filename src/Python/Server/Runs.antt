-- ===== src/Python/Server/Runs.antt =====
-- What the loop of `recv` in Python may come to, with no fuel in it.
use async_sctp.Common.{ℕ, zero, suc, ◌<◌, ◌≡◌, refl, sym, subst, arith, Bytes, List, length}
use async_sctp.Error.{SctpError, ok, err}
use async_sctp.Platform.{Platform}
use async_sctp.Addr.{SocketAddr}
use async_sctp.Notification.{Notification}
use async_sctp.Types.{RecvInfo}
use async_sctp.Association.Receive.{Wake}
use async_sctp.Server
use async_sctp.Server.{SctpServer, message, notice, Poll, returned, pending}
use async_sctp.Server.Steps.{LeavesFewer, recv-LeavesFewer}
use async_sctp.Python.{
  Std, PyPoll, over, waits, value, exception, sctp_error, error_text, from_info,
}
use async_sctp.Python.Server.{PyServer, Message, on_message, recv}
use async_sctp.Python.Server.Steps.{recv_from, recv-on_message}

-- `HasRounds t ws r`: a `recv` in Python on the server `t`, shown `ws`, may come to `r`.
pub data HasRounds (s : Std) (p : Platform)
    : SctpServer → List Wake → PyPoll PyServer Wake (Message s p) → Type 0 where
  gives :
      {t u : SctpServer} {ws vs : List Wake} (bytes : Bytes) (info : RecvInfo) (addr : SocketAddr)
      → Server.recv p t ws ≡ returned (ok (message bytes info addr)) u vs
      → HasRounds s p t ws (
          over
            (value (
              bytes,
              record { stream = info.stream; ppid = info.ppid; assoc_id = info.assoc_id },
              s.socket_addr_text addr,
            ))
            (record { inner = u })
            vs)
  skips :
      {t u : SctpServer} {ws vs : List Wake} {r : PyPoll PyServer Wake (Message s p)}
      (n : Notification)
      → Server.recv p t ws ≡ returned (ok (notice n)) u vs
      → HasRounds s p u vs r
      → HasRounds s p t ws r
  raises :
      {t u : SctpServer} {ws vs : List Wake} (e : SctpError)
      → Server.recv p t ws ≡ returned (err e) u vs
      → HasRounds s p t ws
          (over (exception (sctp_error (error_text s e))) (record { inner = u }) vs)
  still :
      {t u : SctpServer} {ws : List Wake}
      → Server.recv p t ws ≡ pending u
      → HasRounds s p t ws (waits (record { inner = u }))

module _ (s : Std) (p : Platform) where
  on_message-HasRounds :
      (t : SctpServer) (ws : List Wake) (r : Poll)
      → Server.recv p t ws ≡ r
      → LeavesFewer (length ws) r
      → ((u : SctpServer) (vs : List Wake)
          → length vs < length ws
          → HasRounds s p u vs (recv_from s p u vs))
      → HasRounds s p t ws (on_message s p r (recv_from s p))
  unfolding from_info
  on_message-HasRounds t ws (returned (ok (message bytes info addr)) u vs) e less next =
      gives bytes info addr e
  on_message-HasRounds t ws (returned (ok (notice n)) u vs) e less next = skips n e (next u vs less)
  on_message-HasRounds t ws (returned (err x) u vs) e less next = raises x e
  on_message-HasRounds t ws (pending u) e less next = still e

  recv_from-HasRounds :
      (n : ℕ) (t : SctpServer) (ws : List Wake)
      → length ws < n
      → HasRounds s p t ws (recv_from s p t ws)
  recv_from-HasRounds zero t ws h = absurd (omega arith)
  recv_from-HasRounds (suc n) t ws h = subst (HasRounds s p t ws) (sym (recv-on_message s p t ws)) (
      on_message-HasRounds t ws (Server.recv p t ws) refl (recv-LeavesFewer p t ws)
        (λ u vs less. recv_from-HasRounds n u vs (omega arith)))

  -- The `recv` of the server in Python, on any wakes, comes to what a run of rounds without fuel
  -- comes to. Each round is the crate's `recv` on the server and the wakes that the round before
  -- left. A notification makes another round, and nothing else does. A message is given with its
  -- stream, its payload protocol identifier, its association and the text of its address, an error
  -- is raised as an `SctpError` with its text, and the receive waits exactly where the crate's
  -- waits, each with the server as the crate's `recv` left it.
  pub recv-HasRounds :
      (t : SctpServer) (ws : List Wake) → HasRounds s p t ws (recv s p (record { inner = t }) ws)
  recv-HasRounds t ws = recv_from-HasRounds (suc (length ws)) t ws (omega arith)
