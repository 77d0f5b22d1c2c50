-- ===== src/Tests/Clients.antt =====
-- The clients and the server of src/examples at concrete values.
use async_sctp.Common.{
  ℕ, ◌≡◌, refl, ap, subst, sym, arith, List, [], ◌∷◌, ◌++◌, ◌||◌, Bytes, false, some, codes,
}
use async_sctp.Addr.{pack}
use async_sctp.Kernel.{Call, ret, Os, done}
use async_sctp.Kernel.Frame.{after}
use async_sctp.Kernel.Ledger.{Balanced}
use async_sctp.Kernel.Script.{since}
use async_sctp.Sys.{SctpSndRcvInfo}
use async_sctp.Ppid.{m3ua}
use async_sctp.Types.{RecvInfo}
use async_sctp.Recv.{RecvReply}
use async_sctp.Recv.Chunks.{IsFragment, IsLast}
use async_sctp.Association.{fresh}
use async_sctp.Association.Connect.{writable}
use async_sctp.Association.Connect.Made.{connect_calls, Connects}
use async_sctp.Association.Receive.{Wake, readable}
use async_sctp.Association.Receive.Whole.{none_yet, fragment}
use async_sctp.Association.Send.{SelectPoll, ready}
use async_sctp.Examples.Client.{Visit, client_config, echo_client, echo_phase, leak_clients}
use async_sctp.Examples.Client.Echo.{talk_calls, Tells}
use async_sctp.Examples.Client.Cycles.{echo_phase-Made}
use async_sctp.Examples.Client.Trips.{Echoes, Made, with_trips, trip_call}
use async_sctp.Examples.Client.Exchanges.{leak_clients-Balanced}
use async_sctp.Examples.Echoed.{Carries, last_sent, echo_client-task}
use async_sctp.Examples.EchoServer.{task}
use async_sctp.Examples.EchoServer.Answers.{Conversation, accepted, task-answered}
use async_sctp.Tests.{linux, linux-IsPlatform}
use async_sctp.Tests.Made.{number_of, value_of, storage_of, kind}
use async_sctp.Tests.Receive.{sinfo, nothing, nothing-Blocks, lost, lost-IsNotice, note, is_over}
use async_sctp.Tests.Wire.{home, home-IsAddr}

-- Stream 0, and 3 in network order.
abbrev pub m3ua_info : SctpSndRcvInfo
m3ua_info = record sinfo { sinfo_stream = 0; sinfo_ppid = 0x03000000 }

abbrev read_of : Bytes → (n flags : ℕ) → RecvReply
read_of d n flags = record {
  result = ret n;
  written = d;
  msg_flags = flags;
  sinfo = m3ua_info;
  storage = [];
}

abbrev h_piece : RecvReply
h_piece = read_of (104 ∷ []) 1 0

abbrev i_last : RecvReply
i_last = read_of (105 ∷ []) 1 0x80

abbrev pub whole : RecvReply
whole = read_of (104 ∷ 105 ∷ []) 2 0x80

h_piece-IsFragment : IsFragment h_piece (104 ∷ [])
h_piece-IsFragment = record {
  delivers = record { nonempty = omega arith; result = refl; written = refl };
  data_flag = refl;
  eor_flag = refl;
}

i_last-IsLast : IsLast i_last (105 ∷ [])
i_last-IsLast = record {
  delivers = record { nonempty = omega arith; result = refl; written = refl };
  data_flag = refl;
  eor_flag = refl;
}

pub whole-IsLast : IsLast whole (104 ∷ 105 ∷ [])
whole-IsLast = record {
  delivers = record { nonempty = omega arith; result = refl; written = refl };
  data_flag = refl;
  eor_flag = refl;
}

abbrev answer_of : Call → ℕ
answer_of (Call.getpaddrs fd assoc) = 1
answer_of c = number_of c

-- As `kind`, with one address of the peer.
abbrev talker : Os
talker h c = record {
  result = ret (answer_of c);
  storage = storage_of c;
  value = value_of c;
  array = pack linux (home ∷ []) ++ [];
}

talker-Connects : Connects linux talker 7 2
talker-Connects = record {
  grants = λ h c. (answer_of c, refl);
  gives_flags = λ h. refl;
  no_error = λ h. refl;
  is_writable = λ h. refl;
}

talker-Tells : Tells linux talker 7 (home ∷ [])
talker-Tells = record { rest = []; number = λ h. refl; array = λ h. refl }

abbrev pub with_room : List (List SelectPoll)
with_room = (record { readiness = some ready; closed = false } ∷ []) ∷ []

-- The association is lost behind the message.
abbrev then_lost : List Wake
then_lost = readable lost ∷ readable nothing ∷ []

then_lost-Conversation : Conversation linux false [] then_lost [] []
then_lost-Conversation = Conversation.noted (note 1) lost-IsNotice (
    subst (λ e. Conversation linux (e || false) [] (readable nothing ∷ []) [] []) (sym is_over)
      (Conversation.over nothing-Blocks))

-- The line reaches the task in two fragments.
abbrev pub heard : List Wake
heard = readable h_piece ∷ readable i_last ∷ then_lost

pub heard-Conversation :
    Conversation linux false [] heard with_room ((104 ∷ 105 ∷ [], m3ua_info) ∷ [])
heard-Conversation =
    Conversation.fragment h_piece-IsFragment
      (Conversation.last false [] i_last-IsLast (omega arith) then_lost-Conversation)

there : Carries linux (some (trip_call linux 7 (104 ∷ 105 ∷ []))) (readable h_piece ∷ []) i_last
there = record {
  first = (104 ∷ []) ++ [];
  last = 105 ∷ [];
  begins = fragment h_piece-IsFragment none_yet;
  ends_with = i_last-IsLast;
  fd = 7;
  flags = 0;
  ttl = 0;
  is_call = refl;
}

and_back : Carries linux (last_sent (after (task linux (fresh 5) heard with_room kind []))) [] whole
and_back = record {
  first = [];
  last = 104 ∷ 105 ∷ [];
  begins = none_yet;
  ends_with = whole-IsLast;
  fd = 5;
  flags = 0;
  ttl = 0;
  is_call =
      ap (λ r. last_sent (after r))
        (task-answered linux kind (λ h fd m. accepted 0) (fresh 5) [] heard-Conversation refl refl);
}

echo_client-task_example :
    (info : RecvInfo) × ((echo_client linux home
          (104 ∷ 105 ∷ [])
          (record { connects = writable ∷ []; wakes = readable whole ∷ []; sends = with_room })
          talker
          []
        ≡ done
            (home ∷ [], 104 ∷ 105 ∷ [], info)
            (since
              (connect_calls linux 7 2 [] (home ∷ []) client_config
                ++ talk_calls linux 7 (104 ∷ 105 ∷ []))
              []))
      × (info.ppid ≡ m3ua)
      × (info.stream ≡ 0))
echo_client-task_example =
    echo_client-task linux kind (λ h fd m. accepted 0) talker 7 2 talker-Connects (home ∷ [])
      linux-IsPlatform (home-IsAddr, tt) talker-Tells home (104 ∷ 105 ∷ []) [] [] [] [] [] (fresh 5)
      [] (readable h_piece ∷ []) then_lost [] i_last whole [] [] (λ l. refl) refl refl there
      then_lost-Conversation and_back

-- A warm-up of one trip, and one cycle of one.
two_trips :
    Echoes linux 2
      (readable whole ∷ readable h_piece ∷ readable i_last ∷ [])
      ((record { readiness = some ready; closed = false } ∷ []) ∷ with_room)
      []
      []
two_trips =
    Echoes.trip false [] none_yet whole-IsLast
      (Echoes.trip false [] (fragment h_piece-IsFragment none_yet) i_last-IsLast Echoes.over)

echo_phase-Made_example :
    Made
      (record {
        assoc = fresh 7;
        wakes = readable whole ∷ readable h_piece ∷ readable i_last ∷ [];
        sends = (record { readiness = some ready; closed = false } ∷ []) ∷ with_room;
      })
      (with_trips linux 7 (codes "x") 2 [])
      []
      []
      (echo_phase linux
        (codes "x")
        1
        1
        (record {
          assoc = fresh 7;
          wakes = readable whole ∷ readable h_piece ∷ readable i_last ∷ [];
          sends = (record { readiness = some ready; closed = false } ∷ []) ∷ with_room;
        })
        kind
        [])
echo_phase-Made_example =
    echo_phase-Made linux (codes "x") kind 1 1 (fresh 7) [] two_trips (λ h. (0, refl)) refl refl

-- What an association of the leak check is shown.
abbrev one_visit : Visit
one_visit = record { connects = writable ∷ []; wakes = readable whole ∷ []; sends = with_room }

leak_clients-Balanced_example :
    Balanced 7 kind [] (leak_clients linux home (codes "x") 0 1 one_visit (one_visit ∷ []) kind [])
leak_clients-Balanced_example =
    leak_clients-Balanced 7 linux kind home (codes "x") 0 1 one_visit (one_visit ∷ []) []
