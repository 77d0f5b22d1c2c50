-- ===== src/Examples/Client.antt =====
-- The round trips of src/examples/perf.rs and src/examples/leak_check.rs, and the client of
-- src/examples/echo_client.rs, without what they print.
pub mod Cycles
pub mod Echo
pub mod Exchanges
pub mod Trips
use async_sctp.Common.{ℕ, zero, suc, Bytes, List, [], ◌∷◌, true, codes}
use async_sctp.Error.{ok, err}
use async_sctp.Platform.{Platform}
use async_sctp.Addr.{SocketAddr}
use async_sctp.Kernel.{Fd, Call, Run, done, failed, waiting, Io, pure, throw, wait, ◌>>=◌, ◌>>◌}
use async_sctp.Config.{SctpConfig, default_config, streams, nodelay}
use async_sctp.Types.{RecvInfo}
use async_sctp.Ppid.{m3ua}
use async_sctp.Association.{SctpAssociation}
use async_sctp.Association.Addrs.{peer_addrs}
use async_sctp.Association.Connect
use async_sctp.Association.Connect.{connect, connect_with}
use async_sctp.Association.Receive
use async_sctp.Association.Receive.{Poll, returned, pending, recv}
use async_sctp.Association.Send.{SelectPoll, send, shutdown}
use async_sctp.Examples.{next_send, later_sends, owning}
use async_sctp.Examples.EchoServer.{dropping}

-- An association, and what its receives and its sends will be shown.
pub record Client : Type 0 where
  pub assoc : SctpAssociation
  pub wakes : List Receive.Wake
  pub sends : List (List SelectPoll)

-- `assoc.send(msg, 0, ppid::M3UA).await?`.
unfoldable pub sent : Platform → Bytes → Client → Io Client
sent p msg c = send p c.assoc msg 0 m3ua (next_send c.sends) >>= λ n.
    pure (record c { sends = later_sends c.sends })

abbrev pub on_received : Client → Poll (Bytes × RecvInfo) → Io ((Bytes × RecvInfo) × Client)
on_received c (returned (ok got) a ws) = pure (got, record c { assoc = a; wakes = ws })
on_received c (returned (err e) a ws) = throw e
on_received c (pending a) = wait

-- `assoc.recv().await?`.
unfoldable pub received : Platform → Client → Io ((Bytes × RecvInfo) × Client)
received p c = on_received c (recv p c.assoc c.wakes)

unfoldable pub round_trip : Platform → Bytes → Client → Io Client
round_trip p payload c = do d ← sent p payload c; (got, e) ← received p d; pure e

-- `for _ in 0..n`.
unfoldable pub round_trips : Platform → Bytes → ℕ → Client → Io Client
round_trips p payload zero c = pure c
round_trips p payload (suc n) c = round_trip p payload c >>= λ d. round_trips p payload n d

-- `for c in 1..=cycles`, each of `n` round trips.
unfoldable pub cycles : Platform → Bytes → (k n : ℕ) → Client → Io Client
cycles p payload zero n c = pure c
cycles p payload (suc k) n c = round_trips p payload n c >>= λ d. cycles p payload k n d

-- The first phase of the leak check: a warm-up of `n` round trips, and `k` cycles of as many.
unfoldable pub echo_phase : Platform → Bytes → (k n : ℕ) → Client → Io Client
echo_phase p payload k n c = round_trips p payload n c >>= λ d. cycles p payload k n d

-- What one association is shown.
pub record Visit : Type 0 where
  pub connects : List Connect.Wake
  pub wakes : List Receive.Wake
  pub sends : List (List SelectPoll)

abbrev pub client_of : SctpAssociation → Visit → Client
client_of a v = record { assoc = a; wakes = v.wakes; sends = v.sends }

-- One association of the second phase of the leak check.
unfoldable pub exchange : Platform → SocketAddr → Visit → Io (Unit {0})
exchange p bound v = do
  a ← connect p bound v.connects
  owning a.fd (do c ← round_trip p (codes "x") (client_of a v); dropping (shutdown p c.assoc))

-- `for _ in 0..CHURN_PER_CYCLE`, and so for the warm-up and each cycle.
unfoldable pub churn : Platform → SocketAddr → List Visit → Io (Unit {0})
churn p bound [] = pure tt
churn p bound (v ∷ vs) = exchange p bound v >> churn p bound vs

-- The client of the throughput driver, of `n` round trips.
unfoldable pub perf_client : Platform → SocketAddr → Bytes → ℕ → Visit → Io Client
perf_client p bound payload n v = do
  a ← connect p bound v.connects
  owning a.fd (round_trips p payload n (client_of a v))

-- The first phase of the leak check, from its connect to `drop(assoc)`.
unfoldable pub echoes : Platform → SocketAddr → Bytes → (k n : ℕ) → Visit → Io Client
echoes p bound payload k n v = do
  a ← connect p bound v.connects
  owning a.fd (echo_phase p payload k n (client_of a v))

-- Both phases of the leak check, the second of the associations `vs` one after the other.
unfoldable pub leak_clients :
    Platform → SocketAddr → Bytes → (k n : ℕ) → Visit → List Visit → Io (Unit {0})
leak_clients p bound payload k n v vs = echoes p bound payload k n v >>= λ c. churn p bound vs

-- The client that sends one line, while it owns the association. What it prints: the addresses of
-- the peer, and the echo.
abbrev pub Printed : Type 0
Printed = List SocketAddr × Bytes × RecvInfo

unfoldable pub talk : Platform → Bytes → Client → Io Printed
talk p msg c = do
  peers ← peer_addrs p c.assoc
  d ← sent p msg c
  ((echo, info), e) ← received p d
  shutdown p e.assoc
  pure (peers, echo, info)

abbrev pub client_config : SctpConfig
client_config = nodelay (streams default_config 16 16) true

unfoldable pub echo_client : Platform → SocketAddr → Bytes → Visit → Io Printed
echo_client p addr msg v = do
  a ← connect_with p addr client_config v.connects
  owning a.fd (talk p msg (client_of a v))
