-- ===== src/Python/Invalid.antt =====
-- What the bindings do with texts that are no socket address.
use async_sctp.Common.{◌≡◌, refl, ap, List, [], ◌∷◌, ◌++◌, Option, none, some, Text, codes}
use async_sctp.Platform.{Platform}
use async_sctp.Addr.{SocketAddr}
use async_sctp.Kernel.{Os}
use async_sctp.Association.Connect
use async_sctp.Python.{
  Std, PyErr, value_error, World, PyRun, returned, raised, pure, ◌>>=◌, and_then, init_runtime,
  initialised, parse_addr, parse_addrs,
}
use async_sctp.Python.Association.{connect, connect_multi}
use async_sctp.Python.Config.{PyConfig}
use async_sctp.Python.Listener
use async_sctp.Python.Server

-- `bad` is the first of the texts that is no address.
pub data FirstBad (s : Std) (bad : Text) : List Text → Type 0 where
  here : {texts : List Text} → s.parse_socket_addr bad ≡ none → FirstBad s bad (bad ∷ texts)
  there :
      {texts : List Text} (text : Text) (a : SocketAddr)
      → s.parse_socket_addr text ≡ some a
      → FirstBad s bad texts
      → FirstBad s bad (text ∷ texts)

-- The texts are those of the addresses, one by one.
pub data Parsed (s : Std) : List Text → List SocketAddr → Type 0 where
  no_text : Parsed s [] []
  text_of :
      {texts : List Text} {addrs : List SocketAddr} (text : Text) (a : SocketAddr)
      → s.parse_socket_addr text ≡ some a
      → Parsed s texts addrs
      → Parsed s (text ∷ texts) (a ∷ addrs)

abbrev pub invalid : Text → PyErr
invalid bad = value_error (codes "invalid socket address: " ++ bad)

-- The world after the runtime was built.
abbrev pub built : Std → World → World
built s w = record w { runtime = initialised s w.runtime }

module _ (s : Std) (os : Os) where
  parse_addr_bad :
      (bad : Text) (w : World)
      → s.parse_socket_addr bad ≡ none
      → parse_addr s bad os w ≡ raised (invalid bad) w
  unfolding parse_addr
  parse_addr_bad bad w e = rw e

  pub parse_addrs_bad :
      (bad : Text) (texts : List Text) (w : World)
      → FirstBad s bad texts
      → parse_addrs s texts os w ≡ raised (invalid bad) w
  unfolding parse_addrs parse_addr ◌>>=◌
  parse_addrs_bad bad texts w (here e) = rw e
  parse_addrs_bad bad texts w (there {texts = rest} text a e later) = rw e (
      ap (λ (r : PyRun (List SocketAddr)). and_then os r (λ addrs. pure (a ∷ addrs)))
        (parse_addrs_bad bad rest w later))

  pub parse_addrs_good :
      (texts : List Text) (addrs : List SocketAddr) (w : World)
      → Parsed s texts addrs
      → parse_addrs s texts os w ≡ returned addrs w
  unfolding parse_addrs parse_addr ◌>>=◌
  parse_addrs_good texts addrs w no_text = refl
  parse_addrs_good texts addrs w (text_of {texts = rest} {addrs = sas} text a e later) = rw e (
      ap (λ (r : PyRun (List SocketAddr)). and_then os r (λ others. pure (a ∷ others)))
        (parse_addrs_good rest sas w later))

  no_addr : (bad : Text) (texts : List Text) → FirstBad s bad texts → s.parse_socket_addr bad ≡ none
  no_addr bad texts (here e) = e
  no_addr bad texts (there {texts = rest} text a e later) = no_addr bad rest later

-- What the bindings do where the first of the texts that is no address is `bad`.
module _ (s : Std) (p : Platform) (os : Os) (w : World) (config : Option PyConfig)
    (bad : Text) where
  listener_bind-FirstBad :
      (texts : List Text)
      → FirstBad s bad texts
      → (Listener.bind s p bad config os w ≡ raised (invalid bad) w)
        × (Listener.bind_multi s p texts config os w ≡ raised (invalid bad) w)
  unfolding Listener.bind Listener.bind_multi ◌>>=◌
  listener_bind-FirstBad texts is = (
    rw (parse_addr_bad s os bad w (no_addr s os bad texts is)),
    rw (parse_addrs_bad s os bad texts w is),
  )

  server_bind-FirstBad :
      (texts : List Text)
      → FirstBad s bad texts
      → (Server.bind s p bad config os w ≡ raised (invalid bad) w)
        × (Server.bind_multi s p texts config os w ≡ raised (invalid bad) w)
  unfolding Server.bind Server.bind_multi ◌>>=◌
  server_bind-FirstBad texts is = (
    rw (parse_addr_bad s os bad w (no_addr s os bad texts is)),
    rw (parse_addrs_bad s os bad texts w is),
  )

  connect-FirstBad :
      (texts good : List Text) (addrs : List SocketAddr) (local : Option (List Text))
      (ws : List Connect.Wake)
      → FirstBad s bad texts
      → Parsed s good addrs
      → (connect s p bad config ws os w ≡ raised (invalid bad) (built s w))
        × (connect_multi s p texts config local ws os w ≡ raised (invalid bad) (built s w))
        × (connect_multi s p good config (some texts) ws os w ≡ raised (invalid bad) (built s w))
  unfolding connect connect_multi init_runtime ◌>>=◌
  connect-FirstBad texts good addrs local ws is ok = (
    rw (parse_addr_bad s os bad (built s w) (no_addr s os bad texts is)),
    rw (parse_addrs_bad s os bad texts (built s w) is),
    rw (
      parse_addrs_good s os good addrs (built s w) ok,
      parse_addrs_bad s os bad texts (built s w) is,
    ),
  )

  -- A text that is no socket address, alone or as the first such text of a list, makes the
  -- `bind`s of a listener and of a server raise a `ValueError` with this text, with neither the
  -- runtime nor the kernel called. The `connect`s raise the same, for the addresses of the peer
  -- and, where those are addresses, for the local ones; the runtime is there then, and the kernel
  -- was not called.
  pub invalid-FirstBad :
      (texts good : List Text) (addrs : List SocketAddr) (local : Option (List Text))
      (ws : List Connect.Wake)
      → FirstBad s bad texts
      → Parsed s good addrs
      → ((Listener.bind s p bad config os w ≡ raised (invalid bad) w)
          × (Listener.bind_multi s p texts config os w ≡ raised (invalid bad) w))
        × ((Server.bind s p bad config os w ≡ raised (invalid bad) w)
            × (Server.bind_multi s p texts config os w ≡ raised (invalid bad) w))
        × (connect s p bad config ws os w ≡ raised (invalid bad) (built s w))
        × (connect_multi s p texts config local ws os w ≡ raised (invalid bad) (built s w))
        × (connect_multi s p good config (some texts) ws os w ≡ raised (invalid bad) (built s w))
  invalid-FirstBad texts good addrs local ws is ok =
      let connects = connect-FirstBad texts good addrs local ws is ok in
      (
        listener_bind-FirstBad texts is,
        server_bind-FirstBad texts is,
        connects.0,
        connects.1,
        connects.2,
      )
