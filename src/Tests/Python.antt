-- ===== src/Tests/Python.antt =====
-- The bindings to Python at concrete values.
use async_sctp.Common.{
  ◌≡◌, refl, sym, ap, [], ◌∷◌, ◌++◌, Option, none, some, true, ◌==◌, if◌then◌else◌, Text, codes,
}
use async_sctp.Addr.{SocketAddr, v4, v6}
use async_sctp.Addr.RoundTrip.{IsAddr}
use async_sctp.Association.{fresh}
use async_sctp.Association.Connect.{connect_from}
use async_sctp.Association.Receive.{readable}
use async_sctp.Config.{apply}
use async_sctp.Config.Apply.{Applied}
use async_sctp.Ppid.{display}
use async_sctp.Ppid.Names.{number_of, number_of-display}
use async_sctp.Python.{Std, IsStd, HasNoFlow, World, raised, call, pure, ◌>>=◌}
use async_sctp.Python.Association.{PyAssociation, peer_addrs, connect, connect_multi}
use async_sctp.Python.Config.{new, config_of}
use async_sctp.Python.Config.Settings.{settings, apply-new}
use async_sctp.Python.Invalid.{here, there, no_text, text_of, invalid, built, invalid-FirstBad}
use async_sctp.Python.Reparsed.{after_peer_addrs, connect_multi-peer_addrs}
use async_sctp.Python.Server.Skips.{Gives, given, Beginning, recv-Gives}
use async_sctp.Python.Server.Runs.{HasRounds, recv-HasRounds}
use async_sctp.Tests.{linux, linux-IsPlatform}
use async_sctp.Tests.Receive.{
  piece-IsFragment, nothing-Blocks, came_up-IsNotice, note, last_piece, last_piece-IsLast,
  beginning, server, from_home,
}
use async_sctp.Tests.Wire.{home, home6, paths_IsAddr, only_first, two_paths}

-- A way to write addresses, in place of that of std.
abbrev write_addr : SocketAddr → Text
write_addr (v4 a) = 4 ∷ a.octets.0 ∷ a.octets.1 ∷ a.octets.2 ∷ a.octets.3 ∷ a.port ∷ []
write_addr (v6 a) = 6 ∷ a.port ∷ a.scope_id ∷ a.octets

abbrev read_v4 : Text → Option SocketAddr
read_v4 (a ∷ b ∷ c ∷ d ∷ port ∷ []) = some (v4 (record { octets = (a, b, c, d); port = port }))
read_v4 t = none

abbrev read_v6 : Text → Option SocketAddr
read_v6 (port ∷ scope_id ∷ octets) =
    some (v6 (record { octets = octets; port = port; flowinfo = 0; scope_id = scope_id }))
read_v6 t = none

abbrev read_addr : Text → Option SocketAddr
read_addr [] = none
read_addr (k ∷ t) = if k == 4 then read_v4 t else (if k == 6 then read_v6 t else none)

abbrev sample : Std
sample = record {
  parse_socket_addr = read_addr;
  socket_addr_text = write_addr;
  io_error_text = λ e. codes "error";
  parse_usize = λ t. none;
  worker_threads_var = none;
}

read_addr-write_addr : (a : SocketAddr) → IsAddr a → HasNoFlow a → read_addr (write_addr a) ≡ some a
read_addr-write_addr (v4 a) is no_flow = refl
read_addr-write_addr (v6 a) is no_flow =
    ap (λ f. some (v6 (record a { flowinfo = f }))) (sym no_flow)

sample-IsStd : IsStd sample
sample-IsStd = record { parse-text = read_addr-write_addr }

abbrev idle : World
idle = record { runtime = none; history = [] }

recv-Gives_example :
    Gives sample linux server
      (given sample linux
        (3 ∷ [])
        last_piece
        home
        last_piece-IsLast
        from_home
        []
        ([] ++ ((1 ∷ 2 ∷ []) ++ (3 ∷ []))))
      []
      (async_sctp.Python.Server.recv sample linux
        (record { inner = server })
        (beginning ++ readable last_piece ∷ []))
recv-Gives_example =
    recv-Gives sample linux (3 ∷ []) last_piece home last_piece-IsLast from_home [] server (
      Beginning.fragment piece-IsFragment (
        Beginning.blocked nothing-Blocks
          (Beginning.interleaved (note 0) came_up-IsNotice Beginning.none_yet)))

recv-HasRounds_example : HasRounds sample linux server (beginning ++ readable last_piece ∷ []) (
    async_sctp.Python.Server.recv sample linux
      (record { inner = server })
      (beginning ++ readable last_piece ∷ []))
recv-HasRounds_example = recv-HasRounds sample linux server (beginning ++ readable last_piece ∷ [])

invalid-FirstBad_example :
    ((async_sctp.Python.Listener.bind sample linux (codes "x") none only_first idle
        ≡ raised (invalid (codes "x")) idle)
      × (async_sctp.Python.Listener.bind_multi sample linux
            (write_addr home ∷ codes "x" ∷ [])
            none
            only_first
            idle
          ≡ raised (invalid (codes "x")) idle))
    × ((async_sctp.Python.Server.bind sample linux (codes "x") none only_first idle
          ≡ raised (invalid (codes "x")) idle)
        × (async_sctp.Python.Server.bind_multi sample linux
              (write_addr home ∷ codes "x" ∷ [])
              none
              only_first
              idle
            ≡ raised (invalid (codes "x")) idle))
    × (connect sample linux (codes "x") none [] only_first idle
        ≡ raised (invalid (codes "x")) (built sample idle))
    × (connect_multi sample linux (write_addr home ∷ codes "x" ∷ []) none none [] only_first idle
        ≡ raised (invalid (codes "x")) (built sample idle))
    × (connect_multi sample linux
          (write_addr home6 ∷ [])
          none
          (some (write_addr home ∷ codes "x" ∷ []))
          []
          only_first
          idle
        ≡ raised (invalid (codes "x")) (built sample idle))
invalid-FirstBad_example =
    invalid-FirstBad sample linux only_first idle none (codes "x")
      (write_addr home ∷ codes "x" ∷ []) (write_addr home6 ∷ []) (home6 ∷ []) none []
      (there (write_addr home) home refl (here refl))
      (text_of (write_addr home6) home6 refl no_text)

apply-new_example :
    Applied only_first 7 []
      (settings linux 10 0 (some true) none (some 4096) none)
      (apply linux (new 10 0 (some true) none (some 4096) none).inner 7 only_first [])
apply-new_example = apply-new linux 10 0 (some true) none (some 4096) none only_first 7 []

abbrev py_assoc : PyAssociation
py_assoc = record { inner = fresh 5 }

connect_multi-peer_addrs_example :
    (peer_addrs sample linux py_assoc >>= λ texts. connect_multi sample linux texts none none [])
      two_paths idle
    ≡ (call sample (connect_from linux [] (home6 ∷ home ∷ []) (config_of none) []) >>= λ inner.
          pure (record { inner = inner }))
        two_paths
        (built sample (after_peer_addrs py_assoc idle))
connect_multi-peer_addrs_example =
    connect_multi-peer_addrs sample sample-IsStd linux linux-IsPlatform py_assoc two_paths idle
      (home6 ∷ home ∷ []) [] none [] paths_IsAddr (refl, (tt, tt)) refl refl

number_of-display_example : number_of (display 60) ≡ 60
number_of-display_example = number_of-display 60
