-- ===== src/Tests/Program.antt =====
-- The server of src/examples/echo_server.rs with several tasks, at concrete events.
use async_sctp.Common.{◌≡◌, refl, ap, arith, List, [], ◌∷◌, false, some, little}
use async_sctp.Kernel.{done, pure, issue, ◌>>=◌, Fd, Call, History}
use async_sctp.Kernel.Script.{since}
use async_sctp.Recv.{info_of}
use async_sctp.Association.{SctpAssociation, fresh, sinfo_flags}
use async_sctp.Association.Receive.{recv_msg, readable, reactor_error}
use async_sctp.Association.Receive.Steps.{after_read, recv_msg-last}
use async_sctp.Error.{os_error}
use async_sctp.Association.Send.{
  ready, send, send_with, send_loop, on_poll, after_send, sendmsg_call,
}
use async_sctp.Association.Lifetime.{drop_socket}
use async_sctp.Examples.EchoServer.Answers.{answer_to, answered}
use async_sctp.Listener.Peer.{wrap_calls, accept-since}
use async_sctp.Listener.Accept
use async_sctp.Listener.Accept.{accept}
use async_sctp.Examples.EchoServer.Program.{
  Event, accepts, receives, answers, run, step, Task, receiving, answering, on_accepted, task_at,
  go_receive, go_answer,
}
use async_sctp.Examples.EchoServer.Program.Descriptors.{Accounted, run-Accounted}
use async_sctp.Tests.{linux, linux-IsPlatform}
use async_sctp.Tests.Made.{kind, kind-Grants}
use async_sctp.Tests.Wire.{home}
use async_sctp.Examples.Answering.{serve_one}
use async_sctp.Examples.Answering.Answers.{serve_one-answered}
use async_sctp.Tests.Clients.{heard, heard-Conversation, with_room, m3ua_info, whole, whole-IsLast}

-- Two associations are accepted, with the same descriptor. One of their tasks answers a message,
-- and then its receive fails.
abbrev events : List Event
events =
    accepts (Accept.readable ∷ [])
    ∷ accepts (Accept.readable ∷ [])
    ∷ receives 1 (readable whole ∷ [])
    ∷ answers 1 (record { readiness = some ready; closed = false } ∷ [])
    ∷ receives 1 (reactor_error (os_error 9) ∷ [])
    ∷ []

-- The calls of an `accept`.
abbrev accept_calls : History → History
accept_calls h = since (wrap_calls linux 0 2) (Call.accept 3 ∷ h)

taken :
    (ts : List Task) (fds : List Fd) (h : History)
    → step linux kind
        (record { fd = 3 })
        (record { tasks = ts; history = h; given = fds })
        (accepts (Accept.readable ∷ []))
      ≡ some
          (record { tasks = receiving (fresh 0) ∷ ts; history = accept_calls h; given = 0 ∷ fds })
unfolding step
taken ts fds h = ap (on_accepted linux kind (record { tasks = ts; history = h; given = fds })) (
    accept-since kind kind-Grants linux 0 2 (λ g. refl) linux-IsPlatform (record { fd = 3 }) [] home
      h (omega arith, omega arith, omega arith, omega arith, omega arith) refl refl)

abbrev read : SctpAssociation
read = after_read linux (fresh 0) whole

got :
    (h : History) (fds : List Fd)
    → step linux kind
        (record { fd = 3 })
        (record {
          tasks = receiving (fresh 0) ∷ receiving (fresh 0) ∷ [];
          history = h;
          given = fds;
        })
        (receives 1 (readable whole ∷ []))
      ≡ some (record {
        tasks =
            receiving (fresh 0) ∷ answering read (104 ∷ 105 ∷ []) (info_of little m3ua_info) ∷ [];
        history = h;
        given = fds;
      })
unfolding step task_at go_receive
got h fds = rw (recv_msg-last linux (fresh 0) whole [] _ whole-IsLast) refl

replied :
    (h : History) (fds : List Fd)
    → step linux kind
        (record { fd = 3 })
        (record {
          tasks =
              receiving (fresh 0) ∷ answering read (104 ∷ 105 ∷ []) (info_of little m3ua_info) ∷ [];
          history = h;
          given = fds;
        })
        (answers 1 (record { readiness = some ready; closed = false } ∷ []))
      ≡ some (record {
        tasks = receiving (fresh 0) ∷ receiving read ∷ [];
        history = answer_to 0 (104 ∷ 105 ∷ [], m3ua_info) ∷ h;
        given = fds;
      })
unfolding step task_at go_answer send send_with send_loop on_poll ◌>>=◌ issue after_send pure
    sendmsg_call sinfo_flags
replied h fds = refl

dropped :
    (h : History) (fds : List Fd)
    → step linux kind
        (record { fd = 3 })
        (record { tasks = receiving (fresh 0) ∷ receiving read ∷ []; history = h; given = fds })
        (receives 1 (reactor_error (os_error 9) ∷ []))
      ≡ some (record { tasks = receiving (fresh 0) ∷ []; history = Call.close 0 ∷ h; given = fds })
unfolding step task_at go_receive recv_msg drop_socket ◌>>=◌ issue pure
dropped h fds = refl

abbrev served : History
served = Call.close 0 ∷ answer_to 0 (104 ∷ 105 ∷ [], m3ua_info) ∷ accept_calls (accept_calls [])

run-served :
    run linux kind (record { fd = 3 }) (record { tasks = []; history = []; given = [] }) events
    ≡ some (record { tasks = receiving (fresh 0) ∷ []; history = served; given = 0 ∷ 0 ∷ [] })
unfolding run
run-served =
    rw
      (
        taken [] [] [],
        taken (receiving (fresh 0) ∷ []) (0 ∷ []) (accept_calls []),
        got _ _,
        replied _ _,
        dropped _ _,
      )
      refl

run-Accounted_example :
    Accounted 0 linux kind []
      (record { tasks = receiving (fresh 0) ∷ []; history = served; given = 0 ∷ 0 ∷ [] })
run-Accounted_example =
    run-Accounted 0 linux kind (record { fd = 3 }) [] events
      (record { tasks = receiving (fresh 0) ∷ []; history = served; given = 0 ∷ 0 ∷ [] }) run-served

-- A line is heard, and answered.
serve_one-answered_example :
    serve_one linux (record { fd = 3 }) (Accept.readable ∷ []) heard with_room kind []
    ≡ done tt (
        Call.close 3
        ∷ Call.close 0
        ∷ answered 0
            ((104 ∷ 105 ∷ [], m3ua_info) ∷ [])
            (since (wrap_calls linux 0 2) (Call.accept 3 ∷ [])))
serve_one-answered_example =
    serve_one-answered linux kind kind-Grants 0 2 (λ g. refl) linux-IsPlatform (record { fd = 3 })
      [] home [] (omega arith, omega arith, omega arith, omega arith, omega arith) refl refl
      heard-Conversation
