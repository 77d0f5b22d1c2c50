-- ===== src/Server/Send.antt =====
-- Every outcome of a send of the server.
use async_sctp.Common.{ℕ, ℤ, ◌≡◌, refl, ap, ◌∷◌, [], List, Bytes, false, some}
use async_sctp.Platform.{Platform}
use async_sctp.Kernel.{Fd, Call, History, Os}
use async_sctp.Association.{SendOptions}
use async_sctp.Association.Send.{Readiness, ready, reactor_error, SelectPoll, on_poll, attempt}
use async_sctp.Association.Send.Sent.{Sent, send_loop-Sent, none_yet}
use async_sctp.Server.{SctpServer, send_call, send_loop, send_with}

-- The polls of an association that shows the same readiness and never ends.
abbrev endless : List Readiness → List SelectPoll
endless [] = []
endless (r ∷ rs) = record { readiness = some r; closed = false } ∷ endless rs

module _ (p : Platform) (fd : Fd) (call : Call) where
  -- The loop is that of an association without the branch for its end.
  send_loop-endless :
      (rs : List Readiness)
      → send_loop p fd call rs ≡ async_sctp.Association.Send.send_loop p fd call (endless rs)
  unfolding send_loop async_sctp.Association.Send.send_loop on_poll
  send_loop-endless [] = refl
  send_loop-endless (ready ∷ rs) = ap (attempt p fd call) (send_loop-endless rs)
  send_loop-endless (reactor_error e ∷ rs) = refl

-- A send of the server that returns a count has made one accepted `sctp_send` to the association
-- asked for with exactly its arguments, after any number that found the buffer full. One that
-- returns an error or waits has none accepted.
pub send_with-SentTo :
    (p : Platform) (s : SctpServer) (assoc_id : ℤ) (msg : Bytes) (stream ppid : ℕ)
    (opts : SendOptions) (rs : List Readiness) (os : Os) (h : History)
    → Sent p os s.fd
        (send_call p s.fd assoc_id msg stream ppid opts)
        h
        (send_with p s assoc_id msg stream ppid opts rs os h)
unfolding send_with
send_with-SentTo p s assoc_id msg stream ppid opts rs os h =
    let call = send_call p s.fd assoc_id msg stream ppid opts in
    rw (send_loop-endless p s.fd call rs) (send_loop-Sent p os s.fd call h (endless rs) h none_yet)
