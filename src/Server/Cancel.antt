-- ===== src/Server/Cancel.antt =====
-- `recv` of the server is cancel-safe.
use async_sctp.Common.{◌≡◌, refl, true, List, [], ◌∷◌, ◌++◌}
use async_sctp.Platform.{Platform}
use async_sctp.Recv.{Step, would_block, more, notified, complete, stop, recv_step}
use async_sctp.Association.Receive.{Wake, readable, reactor_error}
use async_sctp.Server.{SctpServer, Poll, returned, pending, on_step, recv}

-- More wakes after a receive that was dropped while it waited, and a new one on them; a receive
-- that had returned has only more left to come.
abbrev pub resumed : Platform → List Wake → Poll → Poll
resumed p vs (returned r s ws) = returned r s (ws ++ vs)
resumed p vs (pending s) = recv p s vs

on_step-resumed :
    (p : Platform) (vs : List Wake) (step : Step) (s : SctpServer) (ws : List Wake)
    (again again' : Poll)
    → again' ≡ resumed p vs again
    → on_step step s (ws ++ vs) again' ≡ resumed p vs (on_step step s ws again)
on_step-resumed p vs would_block s ws again again' e = e
on_step-resumed p vs more s ws again again' e = e
on_step-resumed p vs (notified n) s ws again again' e = refl
on_step-resumed p vs (complete bytes info addr) s ws again again' e = refl
on_step-resumed p vs (stop x) s ws again again' e = refl

-- A receive of the server that was dropped while it waited has lost nothing: a new call, on what
-- comes then, gives what the first would have given.
pub recv-resumed :
    (p : Platform) (s : SctpServer) (ws vs : List Wake)
    → recv p s (ws ++ vs) ≡ resumed p vs (recv p s ws)
unfolding recv
recv-resumed p s [] vs = refl
recv-resumed p s (reactor_error e ∷ ws) vs = refl
recv-resumed p s (readable r ∷ ws) vs =
    let t = record s { recv_state = (recv_step p true s.recv_state r).1 } in
    on_step-resumed p vs (recv_step p true s.recv_state r).0 t ws (recv p t ws) _
      (recv-resumed p t ws vs)
