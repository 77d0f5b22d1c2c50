-- ===== src/Tests/Made.antt =====
-- Binds and connects on a kernel that refuses nothing.
use async_sctp.Common.{Bytes, ℕ, ◌≡◌, refl, [], ◌∷◌}
use async_sctp.Kernel.{Call, ret, Os, done}
use async_sctp.Kernel.Script.{since, Grants}
use async_sctp.Recv.{empty}
use async_sctp.Association.{fresh, default_options}
use async_sctp.Association.Lifetime.{sends, shuts_down, lifetime}
use async_sctp.Association.Lifetime.Closes.{ClosedInTheEnd, lifetime-ClosedInTheEnd}
use async_sctp.Association.Connect.{writable, connect_bound}
use async_sctp.Association.Connect.Ledger.{OpensOne, connect_bound-OpensOne}
use async_sctp.Association.Connect.Made.{connect_calls, Connects, connect_bound-since}
use async_sctp.Listener.{bind_impl}
use async_sctp.Listener.Made.{bind_impl-since}
use async_sctp.Server.{bind_multi_with}
use async_sctp.Server.Made.{bind_multi_with-since}
use async_sctp.Addr.{to_raw}
use async_sctp.Tests.{linux}
use async_sctp.Tests.Wire.{home, home6, some_config}

-- New descriptors are 7, the flags of a descriptor are 2, and `poll` counts one descriptor.
abbrev pub number_of : Call → ℕ
number_of (Call.socket d t pr) = 7
number_of (Call.fcntl_getfl fd) = 2
number_of (Call.poll fd events) = 1
number_of c = 0

abbrev pub value_of : Call → ℕ
value_of (Call.poll fd events) = events
value_of c = 0

-- The peer that `accept` gives, and the bound address.
abbrev pub storage_of : Call → Bytes
storage_of (Call.getsockname fd) = (to_raw linux home).0
storage_of (Call.accept fd) = (to_raw linux home).0
storage_of c = []

abbrev pub kind : Os
kind h c = record {
  result = ret (number_of c);
  storage = storage_of c;
  value = value_of c;
  array = [];
}

pub kind-Grants : Grants kind
kind-Grants h c = (number_of c, refl)

bind_impl-since_example :
    bind_impl linux (home ∷ home6 ∷ []) some_config kind []
    ≡ done
        (record { fd = 7 })
        (since
          (async_sctp.Listener.Made.bind_calls linux 7 2 home (home ∷ home6 ∷ []) some_config)
          [])
bind_impl-since_example =
    bind_impl-since kind kind-Grants linux 7 2 home (home6 ∷ []) some_config [] (λ g. refl)
      (λ g. refl)

bind_multi_with-since_example :
    bind_multi_with linux (home ∷ []) some_config kind []
    ≡ done
        (record { fd = 7; recv_state = empty })
        (since (async_sctp.Server.Made.bind_calls linux 7 2 home (home ∷ []) some_config) [])
bind_multi_with-since_example =
    bind_multi_with-since kind kind-Grants linux 7 2 home [] some_config [] (λ g. refl) (λ g. refl)

kind-Connects : Connects linux kind 7 2
kind-Connects = record {
  grants = kind-Grants;
  gives_flags = λ h. refl;
  no_error = λ h. refl;
  is_writable = λ h. refl;
}

connect_bound-since_example :
    connect_bound linux (home ∷ []) (home6 ∷ []) some_config (writable ∷ []) kind []
    ≡ done (fresh 7) (since (connect_calls linux 7 2 (home ∷ []) (home6 ∷ []) some_config) [])
connect_bound-since_example =
    connect_bound-since linux kind 7 2 kind-Connects (home ∷ []) (home6 ∷ []) some_config [] [] refl
      refl (λ g. refl)

-- A connect, a message, a shutdown, and the drop.
lifetime-ClosedInTheEnd_example : ClosedInTheEnd 7 [] (
    lifetime linux
      (home ∷ [])
      (home6 ∷ [])
      some_config
      (writable ∷ [])
      (sends (1 ∷ []) 3 46 default_options [] ∷ shuts_down ∷ [])
      kind
      [])
lifetime-ClosedInTheEnd_example =
    lifetime-ClosedInTheEnd linux (home ∷ []) (home6 ∷ []) some_config (writable ∷ [])
      (sends (1 ∷ []) 3 46 default_options [] ∷ shuts_down ∷ []) kind [] 7 refl refl refl

connect_bound-OpensOne_example :
    OpensOne 7 kind []
      (connect_bound linux (home ∷ []) (home6 ∷ []) some_config (writable ∷ []) kind [])
connect_bound-OpensOne_example =
    connect_bound-OpensOne 7 kind linux (home ∷ []) (home6 ∷ []) some_config (writable ∷ []) []
