-- ===== src/Examples/ManyEcho.antt =====
-- src/examples/many_echo.rs: the loop of an echo server on one socket, without what it prints.
pub mod Echoes
pub mod Started
pub mod Steps
use async_sctp.Common.{ℕ, zero, suc, List, [], ◌∷◌, length}
use async_sctp.Error.{ok, err}
use async_sctp.Platform.{Platform}
use async_sctp.Addr.{SocketAddr}
use async_sctp.Kernel.{Io, throw, wait, ◌>>=◌}
use async_sctp.Association.Receive.{Wake}
use async_sctp.Examples.{next_send, later_sends, owning}
use async_sctp.Association.Send.{Readiness}
use async_sctp.Server
use async_sctp.Server.{SctpServer, message, notice, Poll, returned, pending, bind, local_addr, recv}

-- The rest of the program from a server, the wakes of its receives, and those of its sends.
abbrev pub Program : Type 0
Program = SctpServer → List Wake → List (List Readiness) → Io (Unit {0})

-- The `match` on a message; `again` is the next round of the loop.
abbrev pub on_message : Platform → Poll → List (List Readiness) → Program → Io (Unit {0})
on_message p (returned (ok (message bytes info addr)) s ws) sends again =
    Server.send p s info.assoc_id bytes info.stream info.ppid (next_send sends) >>= λ n.
    again s ws (later_sends sends)
on_message p (returned (ok (notice n)) s ws) sends again = again s ws sends
on_message p (returned (err e) s ws) sends again = throw e
on_message p (pending s) sends again = wait

-- The loop on fuel. Each round takes at least one wake.
unfoldable pub serve_loop : Platform → ℕ → Program
serve_loop p zero s ws sends = wait
serve_loop p (suc fuel) s ws sends = on_message p (recv p s ws) sends (serve_loop p fuel)

unfoldable pub serve : Platform → Program
serve p s ws = serve_loop p (suc (length ws)) s ws

-- The program, from the address on. It asks for the bound address to
-- print it. An error drops the server.
unfoldable pub main : Platform → SocketAddr → List Wake → List (List Readiness) → Io (Unit {0})
main p addr ws sends = do
  server ← bind p addr
  owning server.fd (do bound ← local_addr p server; serve p server ws sends)
