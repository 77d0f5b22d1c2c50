-- ===== src/Server/Steps.antt =====
-- How many wakes a receive of the server takes.
use async_sctp.Common.{ℕ, suc, ◌<◌, arith, true, List, [], ◌∷◌, length}
use async_sctp.Platform.{Platform}
use async_sctp.Recv.{Step, would_block, more, notified, complete, stop, recv_step}
use async_sctp.Association.Receive.{Wake, readable, reactor_error}
use async_sctp.Server.{SctpServer, Poll, returned, pending, on_step, recv}

-- A receive that returned has left fewer than `n` wakes.
abbrev pub LeavesFewer : ℕ → Poll → Type 0
LeavesFewer n (returned r s ws) = length ws < n
LeavesFewer n (pending s) = Unit {0}

LeavesFewer-suc : (n : ℕ) (r : Poll) → LeavesFewer n r → LeavesFewer (suc n) r
LeavesFewer-suc n (returned r s ws) h = omega arith
LeavesFewer-suc n (pending s) h = tt

on_step-LeavesFewer :
    (step : Step) (s : SctpServer) (ws : List Wake) (again : Poll)
    → LeavesFewer (length ws) again
    → LeavesFewer (suc (length ws)) (on_step step s ws again)
on_step-LeavesFewer would_block s ws again h = LeavesFewer-suc (length ws) again h
on_step-LeavesFewer more s ws again h = LeavesFewer-suc (length ws) again h
on_step-LeavesFewer (notified n) s ws again h = omega arith
on_step-LeavesFewer (complete bytes info addr) s ws again h = omega arith
on_step-LeavesFewer (stop e) s ws again h = omega arith

pub recv-LeavesFewer :
    (p : Platform) (s : SctpServer) (ws : List Wake) → LeavesFewer (length ws) (recv p s ws)
unfolding recv
recv-LeavesFewer p s [] = tt
recv-LeavesFewer p s (reactor_error e ∷ ws) = omega arith
recv-LeavesFewer p s (readable r ∷ ws) =
    let t = record s { recv_state = (recv_step p true s.recv_state r).1 } in
    on_step-LeavesFewer (recv_step p true s.recv_state r).0 t ws (recv p t ws)
      (recv-LeavesFewer p t ws)
