-- ===== src/Tests/Examples.antt =====
-- The programs of src/examples at concrete values.
use async_sctp.Common.{
  some, ◌+◌, ◌||◌, subst, sym, arith, ◌≡◌, refl, List, [], ◌∷◌, ◌++◌, ◌&&◌, leb, false,
}
use async_sctp.Kernel.{Call, done, waiting}
use async_sctp.Association.{fresh}
use async_sctp.Association.Receive.{Wake, readable}
use async_sctp.Association.Send.{SelectPoll, ready}
use async_sctp.Examples.EchoServer.{task}
use async_sctp.Examples.EchoServer.Answers.{Conversation, answered, accepted, task-answered}
use async_sctp.Examples.LeakCheck.{budget, alloc, alloc_zeroed, verdict}
use async_sctp.Examples.LeakCheck.Live.{Calls, total, verdict-Calls}
use async_sctp.Examples.ManyEcho.{main}
use async_sctp.Examples.ManyEcho.Echoes.{Message, Traffic, writable, echoed}
use async_sctp.Examples.ManyEcho.Started.{start_calls, main-echoed}
use async_sctp.Tests.{linux, linux-IsPlatform}
use async_sctp.Tests.Made.{kind, kind-Grants}
use async_sctp.Tests.Receive.{
  sinfo, piece, piece-IsFragment, nothing, nothing-Blocks, came_up-IsNotice, note, last_piece,
  last_piece-IsLast, lost, lost-IsNotice, is_over, from_home, beginning,
}
use async_sctp.Tests.Wire.{home, home-IsAddr}

-- One message, in two fragments.
abbrev one_message : List Message
one_message = (([] ++ (1 ∷ 2 ∷ [])) ++ (3 ∷ []), sinfo) ∷ []

main-echoed_example :
    main linux home (beginning ++ readable last_piece ∷ []) (writable one_message) kind []
    ≡ waiting (echoed 7 one_message (start_calls linux 7 2 home))
main-echoed_example =
    main-echoed linux linux-IsPlatform kind kind-Grants 7 2 home home
      (beginning ++ readable last_piece ∷ []) one_message (λ g. refl) (λ g. refl) home-IsAddr
      (λ g. refl)
      (Traffic.fragment piece-IsFragment (
        Traffic.blocked nothing-Blocks (
          Traffic.noted (note 0) came_up-IsNotice
            (Traffic.last home last_piece-IsLast from_home (omega arith) Traffic.quiet))))

-- The wakes of an association that sends a message and is lost.
abbrev told : List Wake
told = readable piece ∷ readable last_piece ∷ readable lost ∷ readable nothing ∷ []

abbrev room_once : List (List SelectPoll)
room_once = (record { readiness = some ready; closed = false } ∷ []) ∷ []

told-Conversation : Conversation linux false [] told room_once one_message
told-Conversation = Conversation.fragment piece-IsFragment (
    Conversation.last false [] last_piece-IsLast (omega arith) (
      Conversation.noted (note 1) lost-IsNotice (
        subst (λ e. Conversation linux (e || false) [] (readable nothing ∷ []) [] []) (sym is_over)
          (Conversation.over nothing-Blocks))))

task-answered_example :
    task linux (fresh 5) told room_once kind [] ≡ done tt (Call.close 5 ∷ answered 5 one_message [])
task-answered_example =
    task-answered linux kind (λ h fd m. accepted 0) (fresh 5) [] told-Conversation refl refl

verdict-Calls_example :
    verdict 4096 4096 4096 308096
    ≡ leb (total ((7, 4096) ∷ [])) (total ((7, 4096) ∷ []) + budget)
      && leb (total ((9, 304000) ∷ (7, 4096) ∷ [])) (total ((7, 4096) ∷ []) + budget)
unfolding alloc alloc_zeroed
verdict-Calls_example =
    verdict-Calls (Calls.allocated 7 4096 Calls.no_call) Calls.no_call Calls.no_call
      (Calls.zeroed 9 304000 Calls.no_call) (omega arith) (omega arith) (omega arith) (omega arith)
