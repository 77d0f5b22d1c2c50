-- ===== src/Tests/Wire.antt =====
-- Addresses, notifications and configurations at concrete values.
use async_sctp.Common.{
  arith, pos, negsuc, [], ◌∷◌, ◌++◌, ◌≡◌, refl, none, some, true, false, little, big, All,
}
use async_sctp.Sys.{SctpAssocChange, SctpShutdownEvent}
use async_sctp.Addr.{SocketAddr, v4, v6, pack, parse_array}
use async_sctp.Addr.RoundTrip.{IsAddr, parse_array-pack}
use async_sctp.Kernel.{Call, ret, fail, Os}
use async_sctp.Config.{SctpConfig, apply}
use async_sctp.Config.Apply.{requested, Applied, apply-Applied}
use async_sctp.Notification.{parse_notification}
use async_sctp.Notification.Event.{Tells, parse-Tells}
use async_sctp.Notification.Parse.{assoc_change_bytes, Backed, parse-Backed}
use async_sctp.Association.{SendOptions}
use async_sctp.Tests.{linux, linux-IsPlatform}

-- 192.0.2.1:3868 and [fe80::1%2]:3868.
abbrev pub home : SocketAddr
home = v4 (record { octets = (192, 0, 2, 1); port = 3868 })

abbrev pub home6 : SocketAddr
home6 = v6 (record {
  octets = 254 ∷ 128 ∷ 0 ∷ 0 ∷ 0 ∷ 0 ∷ 0 ∷ 0 ∷ 0 ∷ 0 ∷ 0 ∷ 0 ∷ 0 ∷ 0 ∷ 0 ∷ 1 ∷ [];
  port = 3868;
  flowinfo = 0;
  scope_id = 2;
})

pub home-IsAddr : IsAddr home
home-IsAddr = (omega arith, omega arith, omega arith, omega arith, omega arith)

pub paths_IsAddr : All IsAddr (home6 ∷ home ∷ [])
paths_IsAddr = ((refl, omega arith, omega arith, omega arith), (home-IsAddr, tt))

parse_array-pack_example :
    parse_array linux (pack linux (home6 ∷ home ∷ []) ++ 7 ∷ []) 2 ≡ home6 ∷ home ∷ []
parse_array-pack_example =
    parse_array-pack linux linux-IsPlatform (home6 ∷ home ∷ []) (7 ∷ []) paths_IsAddr

abbrev loss : SctpAssocChange
loss = record {
  sac_type = 0x8001;
  sac_flags = 0;
  sac_length = 20;
  sac_state = 1;
  sac_error = 12;
  sac_outbound_streams = 10;
  sac_inbound_streams = 5;
  sac_assoc_id = negsuc 4;
}

abbrev down : SctpShutdownEvent
down = record { sse_type = 0x8005; sse_flags = 0; sse_length = 12; sse_assoc_id = pos 77 }

parse-Tells_example : Tells loss (parse_notification big (assoc_change_bytes big loss ++ 1 ∷ []))
parse-Tells_example = parse-Tells big loss (1 ∷ []) (record {
  type = refl;
  state = omega arith;
  error = omega arith;
  outbound = omega arith;
  inbound = omega arith;
  assoc_id = omega arith;
})

parse-Backed_example :
    Backed little (5 ∷ 128 ∷ 0 ∷ []) (parse_notification little (5 ∷ 128 ∷ 0 ∷ []))
parse-Backed_example = parse-Backed little (5 ∷ 128 ∷ 0 ∷ [])

-- A kernel that refuses everything but the first call.
abbrev pub only_first : Os
only_first [] c = record { result = ret 0; storage = []; value = 0; array = [] }
only_first (d ∷ h) c = record { result = fail 22; storage = []; value = 0; array = [] }

abbrev pub some_config : SctpConfig
some_config = record {
  init = none;
  nodelay = some true;
  recv_buf = some 4294967296;
  send_buf = none;
  autoclose_secs = some 30;
}

apply-Applied_example :
    Applied only_first 7 [] (requested linux some_config) (apply linux some_config 7 only_first [])
apply-Applied_example = apply-Applied only_first 7 linux some_config []

abbrev both_ends : SendOptions
both_ends = record { unordered = true; ttl_ms = 100; abort = false; eof = true }

-- A kernel that knows two addresses of the peer.
abbrev pub two_paths : Os
two_paths h (Call.getpaddrs fd id) = record {
  result = ret 2;
  storage = [];
  value = 0;
  array = pack linux (home6 ∷ home ∷ []) ++ [];
}
two_paths h c = record { result = ret 0; storage = []; value = 0; array = [] }
