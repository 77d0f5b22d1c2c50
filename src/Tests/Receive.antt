-- ===== src/Tests/Receive.antt =====
-- Receives of an association and of a server on concrete replies.
use async_sctp.Common.{
  arith, ℕ, pos, Bytes, List, [], ◌∷◌, ◌++◌, ◌≡◌, refl, true, false, some, little, length,
}
use async_sctp.Error.{ok}
use async_sctp.Sys.{SctpSndRcvInfo, SctpAssocChange}
use async_sctp.Addr.{to_raw}
use async_sctp.Addr.RoundTrip.{from_raw-to_raw}
use async_sctp.Kernel.{ret, fail}
use async_sctp.Notification.{Notification, assoc_change, comm_lost, event_of}
use async_sctp.Notification.Parse.{assoc_change_bytes, parse-assoc_change}
use async_sctp.Recv.{RecvReply, info_of, peer_of}
use async_sctp.Recv.Chunks.{IsFragment, IsLast, IsNotice, Blocks}
use async_sctp.Association.{ends, fresh}
use async_sctp.Association.Receive.{Wake, readable, recv}
use async_sctp.Association.Receive.Whole.{
  Receives, none_yet, fragment, blocked, interleaved, recv-Receives,
}
use async_sctp.Association.Receive.Cancel.{resume, recv-append}
use async_sctp.Association.Receive.Ended.{IsReturned, recv-IsReturned}
use async_sctp.Server.{SctpServer, ServerMessage, notice, addressed}
use async_sctp.Server.Cancel.{resumed, recv-resumed}
use async_sctp.Server.Receive.{Fragments, Leaves, recv-message, recv-notice}
use async_sctp.Tests.{linux, linux-IsPlatform}
use async_sctp.Tests.Wire.{home, home-IsAddr}

abbrev pub sinfo : SctpSndRcvInfo
sinfo = record {
  sinfo_stream = 3;
  sinfo_ssn = 0;
  sinfo_flags = 0;
  sinfo_ppid = 0x2e000000;
  sinfo_context = 0;
  sinfo_timetolive = 0;
  sinfo_tsn = 0;
  sinfo_cumtsn = 0;
  sinfo_assoc_id = pos 9;
}

abbrev pub reply : Bytes → ℕ → RecvReply
reply d flags = record {
  result = ret (length d);
  written = d;
  msg_flags = flags;
  sinfo = sinfo;
  storage = (to_raw linux home).0;
}

abbrev pub piece : RecvReply
piece = reply (1 ∷ 2 ∷ []) 0

abbrev pub last_piece : RecvReply
last_piece = reply (3 ∷ []) 0x80

abbrev pub nothing : RecvReply
nothing = record { result = fail 11; written = []; msg_flags = 0; sinfo = sinfo; storage = [] }

abbrev change : ℕ → SctpAssocChange
change state = record {
  sac_type = 0x8001;
  sac_flags = 0;
  sac_length = 20;
  sac_state = state;
  sac_error = 0;
  sac_outbound_streams = 10;
  sac_inbound_streams = 10;
  sac_assoc_id = pos 9;
}

abbrev says_change : ℕ → RecvReply
says_change state = reply (assoc_change_bytes little (change state) ++ []) 0x8000

abbrev pub came_up : RecvReply
came_up = says_change 0

abbrev pub lost : RecvReply
lost = says_change 1

abbrev pub note : ℕ → Notification
note state = assoc_change (event_of little (change state))

pub piece-IsFragment : IsFragment piece (1 ∷ 2 ∷ [])
piece-IsFragment = record {
  delivers = record { nonempty = omega arith; result = refl; written = refl };
  data_flag = refl;
  eor_flag = refl;
}

pub last_piece-IsLast : IsLast last_piece (3 ∷ [])
last_piece-IsLast = record {
  delivers = record { nonempty = omega arith; result = refl; written = refl };
  data_flag = refl;
  eor_flag = refl;
}

pub nothing-Blocks : Blocks linux nothing
nothing-Blocks = record { errno = 11; result = refl; blocked = refl }

pub came_up-IsNotice : IsNotice little came_up (note 0)
came_up-IsNotice = record {
  bytes = assoc_change_bytes little (change 0) ++ [];
  delivers = record { nonempty = omega arith; result = refl; written = refl };
  notice_flag = refl;
  parsed = parse-assoc_change little (change 0) [] (record {
    type = refl;
    state = omega arith;
    error = omega arith;
    outbound = omega arith;
    inbound = omega arith;
    assoc_id = omega arith;
  });
}

pub lost-IsNotice : IsNotice little lost (note 1)
lost-IsNotice = record {
  bytes = assoc_change_bytes little (change 1) ++ [];
  delivers = record { nonempty = omega arith; result = refl; written = refl };
  notice_flag = refl;
  parsed = parse-assoc_change little (change 1) [] (record {
    type = refl;
    state = omega arith;
    error = omega arith;
    outbound = omega arith;
    inbound = omega arith;
    assoc_id = omega arith;
  });
}

pub goes_on : ends (note 0) ≡ false
unfolding ends async_sctp.Notification.state_from
goes_on = refl

pub is_over : ends (note 1) ≡ true
unfolding ends async_sctp.Notification.state_from
is_over = refl

-- A piece, an empty read and a notification.
abbrev pub beginning : List Wake
beginning = readable piece ∷ readable nothing ∷ readable came_up ∷ []

pub from_home : peer_of linux true last_piece.storage ≡ some home
unfolding peer_of
from_home = rw (from_raw-to_raw linux linux-IsPlatform home home-IsAddr)

recv-Receives_example :
    Receives
      (fresh 5)
      ([] ++ ((1 ∷ 2 ∷ []) ++ (3 ∷ [])))
      (info_of little sinfo)
      []
      (recv linux (fresh 5) (beginning ++ readable last_piece ∷ []))
recv-Receives_example =
    recv-Receives linux (3 ∷ []) last_piece last_piece-IsLast [] (fresh 5)
      (fragment piece-IsFragment
        (blocked nothing-Blocks (interleaved (note 0) came_up-IsNotice goes_on none_yet)))
      refl

recv-append_example :
    recv linux (fresh 5) (beginning ++ readable last_piece ∷ [])
    ≡ resume (recv linux) (readable last_piece ∷ []) (recv linux (fresh 5) beginning)
recv-append_example = recv-append linux (readable last_piece ∷ []) (fresh 5) beginning

recv-IsReturned_example :
    IsReturned (recv linux (fresh 5) (beginning ++ readable lost ∷ ([] ++ readable nothing ∷ [])))
recv-IsReturned_example =
    recv-IsReturned linux (fresh 5) beginning [] lost nothing (note 1) [] lost-IsNotice is_over
      nothing-Blocks

abbrev pub server : SctpServer
server = record { fd = 6; recv_state = record { buf = []; scratch = [] } }

recv-message_example :
    Leaves server
      (async_sctp.Server.recv linux server
        ((readable piece ∷ readable nothing ∷ []) ++ readable last_piece ∷ []))
      (λ t.
        async_sctp.Server.returned
          (addressed
            ([] ++ ((1 ∷ 2 ∷ []) ++ (3 ∷ [])))
            (info_of little sinfo)
            (peer_of linux true (to_raw linux home).0))
          t
          [])
      []
recv-message_example =
    recv-message linux server last_piece [] (3 ∷ [])
      (Fragments.fragment piece-IsFragment (Fragments.blocked nothing-Blocks Fragments.none_yet))
      last_piece-IsLast

recv-notice_example :
    Leaves server
      (async_sctp.Server.recv linux server ((readable piece ∷ []) ++ readable lost ∷ []))
      (λ t. async_sctp.Server.returned (ok (notice (note 1))) t [])
      ([] ++ (1 ∷ 2 ∷ []))
recv-notice_example =
    recv-notice linux server lost [] (note 1)
      (Fragments.fragment piece-IsFragment Fragments.none_yet) lost-IsNotice

recv-resumed_example :
    async_sctp.Server.recv linux server ((readable piece ∷ []) ++ readable last_piece ∷ [])
    ≡ resumed linux
        (readable last_piece ∷ [])
        (async_sctp.Server.recv linux server (readable piece ∷ []))
recv-resumed_example = recv-resumed linux server (readable piece ∷ []) (readable last_piece ∷ [])
