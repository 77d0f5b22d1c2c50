-- ===== src/Tests/Descriptors.antt =====
-- Sends, connects, binds and accepted descriptors on concrete kernels.
use async_sctp.Common.{ℕ, pos, List, [], ◌∷◌, ◌++◌, ◌≡◌, refl, true, false, none, some}
use async_sctp.Error.{os_error, io}
use async_sctp.Kernel.{Call, Ret, ret, fail, Answer, Os, Run}
use async_sctp.Kernel.Prompt.{IsOver}
use async_sctp.Config.{default_config}
use async_sctp.Socket.Ownership.{ClosedAgain, ClosedIfRegistered}
use async_sctp.Association.{fresh, default_options}
use async_sctp.Association.Send.{ready, SelectPoll, sendmsg_call, send_with}
use async_sctp.Association.Send.Sent.{Sent, send_with-Sent}
use async_sctp.Association.Connect.{readable, wait_established}
use async_sctp.Association.Connect.Outcome.{so_call, wait_established-refused}
use async_sctp.Listener.{bind_impl}
use async_sctp.Listener.Accept.{accept, accept-ClosedIfRegistered}
use async_sctp.Listener.Bind.{bind_impl-ClosedAgain}
use async_sctp.Server.{SctpServer, send_call, bind_multi_with, peeloff}
use async_sctp.Server.Closes.{bind_multi_with-ClosedAgain, peeloff-ClosedIfRegistered}
use async_sctp.Server.Send.{send_with-SentTo}
use async_sctp.Tests.{linux}
use async_sctp.Tests.Wire.{home, home6}
use async_sctp.Tests.Receive.{piece, lost, note, lost-IsNotice, is_over}
use async_sctp.Association.Shared.{received, polled, polls_of, send_with-polls_of}

abbrev answer : Ret → ℕ → Answer
answer r value = record { result = r; storage = []; value = value; array = [] }

-- New descriptors are 7, the first send finds the buffer full, and every connect is refused.
abbrev kernel : Os
kernel h (Call.socket d t pr) = answer (ret 7) 0
kernel h (Call.accept fd) = answer (ret 7) 0
kernel h (Call.peeloff fd id) = answer (ret 7) 0
kernel h (Call.getsockopt fd level name) = answer (ret 0) 111
kernel [] (Call.sendmsg fd msg ppid flags stream ttl) = answer (fail 11) 0
kernel [] (Call.send fd msg sinfo) = answer (fail 11) 0
kernel h (Call.register fd) = answer (fail 12) 0
kernel h c = answer (ret 1) 0

abbrev full_then_room : List SelectPoll
full_then_room =
    record { readiness = some ready; closed = false }
    ∷ record { readiness = some ready; closed = true }
    ∷ []

send_with-Sent_example :
    Sent linux kernel 5
      (sendmsg_call linux 5 (1 ∷ 2 ∷ []) 3 46 default_options)
      []
      (send_with linux (fresh 5) (1 ∷ 2 ∷ []) 3 46 default_options full_then_room kernel [])
send_with-Sent_example =
    send_with-Sent linux (fresh 5) (1 ∷ 2 ∷ []) 3 46 default_options full_then_room kernel []

abbrev over : SelectPoll
over = record { readiness = none; closed = true }

wait_established-refused_example :
    wait_established linux 7 true (readable ∷ []) kernel []
    ≡ Run.failed (io (os_error 111)) (so_call linux 7 ∷ [])
wait_established-refused_example =
    wait_established-refused linux 7 readable [] kernel [] 0 110 tt refl refl

bind_impl-ClosedAgain_example :
    ClosedAgain 7 [] (bind_impl linux (home ∷ home6 ∷ []) default_config kernel [])
bind_impl-ClosedAgain_example =
    bind_impl-ClosedAgain linux home (home6 ∷ []) default_config kernel [] 7 refl

bind_multi_with-ClosedAgain_example :
    ClosedAgain 7 [] (bind_multi_with linux (home ∷ home6 ∷ []) default_config kernel [])
bind_multi_with-ClosedAgain_example =
    bind_multi_with-ClosedAgain linux home (home6 ∷ []) default_config kernel [] 7 refl

accept-ClosedIfRegistered_example :
    ClosedIfRegistered 7 []
      (accept linux (record { fd = 3 }) (async_sctp.Listener.Accept.readable ∷ []) kernel [])
accept-ClosedIfRegistered_example =
    accept-ClosedIfRegistered linux (record { fd = 3 }) [] kernel [] 7 refl

abbrev server : SctpServer
server = record { fd = 6; recv_state = record { buf = []; scratch = [] } }

peeloff-ClosedIfRegistered_example :
    ClosedIfRegistered 7 [] (peeloff linux server (pos 9) kernel [])
peeloff-ClosedIfRegistered_example =
    peeloff-ClosedIfRegistered linux server (pos 9) kernel [] 7 refl

send_with-SentTo_example :
    Sent linux kernel 6 (send_call linux 6 (pos 9) (1 ∷ []) 0 46 default_options) [] (
      async_sctp.Server.send_with linux server
        (pos 9)
        (1 ∷ [])
        0
        46
        default_options
        (ready ∷ ready ∷ [])
        kernel
        [])
send_with-SentTo_example =
    send_with-SentTo linux server (pos 9) (1 ∷ []) 0 46 default_options (ready ∷ ready ∷ []) kernel
      []

-- A send that finds the buffer full, and a receive of another task that reads the end.
send_with-polls_of_example : IsOver (
    send_with linux
      (fresh 5)
      (1 ∷ [])
      3
      46
      default_options
      (polls_of linux
        (fresh 5)
        ((polled (some ready) ∷ []) ++ received lost ∷ ((received piece ∷ []) ++ polled none ∷ [])))
      kernel
      [])
send_with-polls_of_example =
    send_with-polls_of linux (fresh 5) (1 ∷ []) 3 46 default_options kernel []
      (polled (some ready) ∷ []) (received piece ∷ []) [] lost (note 1) lost-IsNotice is_over
