-- ===== src/Examples/Client/Exchanges.antt =====
-- The clients leave no descriptor open: what their `socket` calls gave is closed when they are over.
use async_sctp.Common.{ℕ, zero, suc, ◌≡◌, refl, arith, true, Bytes, List, [], ◌∷◌, ◌==◌, codes}
use async_sctp.Error.{ok, err}
use async_sctp.Platform.{Platform}
use async_sctp.Addr.{SocketAddr}
use async_sctp.Kernel.{Fd, History, Os, Run, done, failed, waiting, Io, and_then, ◌>>=◌}
use async_sctp.Kernel.Frame.{
  after, Quiet, Quiet-pure, Quiet-throw, Quiet-wait, Quiet-bind, Quiet-syscall_,
}
use async_sctp.Kernel.Ledger.{tally, Opened, Opened-Quiet, Balanced, Balanced-bind, Balanced-pure}
use async_sctp.Types.{RecvInfo}
use async_sctp.Config.{SctpConfig, default_config}
use async_sctp.Association.{SctpAssociation}
use async_sctp.Association.Addrs.{peer_addrs}
use async_sctp.Association.Connect
use async_sctp.Association.Connect.{connect, connect_with, connect_impl, connect_bound}
use async_sctp.Association.Connect.Ledger.{OpensOne, connect_bound-OpensOne}
use async_sctp.Association.Lifetime.Quiet.{Quiet-send_with, Quiet-addrs_via}
use async_sctp.Association.Receive.{Poll, returned, pending}
use async_sctp.Association.Send.{send, shutdown}
use async_sctp.Examples.EchoServer.{dropping, settled}
use async_sctp.Examples.Client.{
  Client, sent, on_received, received, round_trip, round_trips, cycles, echo_phase, Visit, exchange,
  churn, talk, echo_client, perf_client, echoes, leak_clients, client_of,
}
use async_sctp.Examples.{closed_after, owning}

module _ (d : Fd) (p : Platform) where
  Quiet-sent : (msg : Bytes) (c : Client) → Quiet d (sent p msg c)
  unfolding sent send
  Quiet-sent msg c = Quiet-bind d (Quiet-send_with d p c.assoc _ _ _ _ _) (λ n. Quiet-pure d _)

  Quiet-on_received : (c : Client) (r : Poll (Bytes × RecvInfo)) → Quiet d (on_received c r)
  Quiet-on_received c (returned (ok got) a ws) = Quiet-pure d _
  Quiet-on_received c (returned (err e) a ws) = Quiet-throw d _ e
  Quiet-on_received c (pending a) = Quiet-wait d _

  Quiet-received : (c : Client) → Quiet d (received p c)
  unfolding received
  Quiet-received c = Quiet-on_received c _

  Quiet-round_trip : (msg : Bytes) (c : Client) → Quiet d (round_trip p msg c)
  unfolding round_trip
  Quiet-round_trip msg c =
      Quiet-bind d (Quiet-sent msg c) λ e. Quiet-bind d (Quiet-received e) λ x. Quiet-pure d _

  Quiet-round_trips : (msg : Bytes) (n : ℕ) (c : Client) → Quiet d (round_trips p msg n c)
  unfolding round_trips
  Quiet-round_trips msg zero c = Quiet-pure d c
  Quiet-round_trips msg (suc n) c = Quiet-bind d (Quiet-round_trip msg c) (Quiet-round_trips msg n)

  Quiet-cycles : (msg : Bytes) (k n : ℕ) (c : Client) → Quiet d (cycles p msg k n c)
  unfolding cycles
  Quiet-cycles msg zero n c = Quiet-pure d c
  Quiet-cycles msg (suc k) n c = Quiet-bind d (Quiet-round_trips msg n c) (Quiet-cycles msg k n)

  Quiet-echo_phase : (msg : Bytes) (k n : ℕ) (c : Client) → Quiet d (echo_phase p msg k n c)
  unfolding echo_phase
  Quiet-echo_phase msg k n c = Quiet-bind d (Quiet-round_trips msg n c) (Quiet-cycles msg k n)

  Quiet-peer_addrs : (a : SctpAssociation) → Quiet d (peer_addrs p a)
  unfolding peer_addrs
  Quiet-peer_addrs a = Quiet-addrs_via d p a.fd true

  Quiet-shutdown : (a : SctpAssociation) → Quiet d (shutdown p a)
  unfolding shutdown
  Quiet-shutdown a = Quiet-syscall_ d _ tt

  Quiet-talk : (msg : Bytes) (c : Client) → Quiet d (talk p msg c)
  unfolding talk
  Quiet-talk msg c = Quiet-bind d (Quiet-peer_addrs c.assoc) λ peers.
      Quiet-bind d (Quiet-sent msg c) λ e.
        Quiet-bind d (Quiet-received e) λ x. Quiet-bind d (Quiet-shutdown _) λ _. Quiet-pure d _

  after-settled : {A : Type 0} (r : Run A) → after (settled r) ≡ after r
  after-settled (done a h) = refl
  after-settled (failed e h) = refl
  after-settled (waiting h) = refl

  Quiet-dropping : {A : Type 0} {m : Io A} → Quiet d m → Quiet d (dropping m)
  unfolding dropping
  Quiet-dropping {m} q = record {
    same = λ os h. rw (after-settled (m os h)) (q.same os h);
    opens_none = λ os h. rw (after-settled (m os h)) (q.opens_none os h);
  }

  module _ (os : Os) where
    closed_after-Opened :
        {A : Type 0} (a : SctpAssociation) (h g : History) (r : Run A)
        → Opened d (tally (a.fd == d)) os h g
        → Opened d 0 os g (after r)
        → Balanced d os h (closed_after a.fd r)
    closed_after-Opened a h g (done x k) one none = ground arith
    closed_after-Opened a h g (failed e k) one none = ground arith
    closed_after-Opened a h g (waiting k) one none = tt

    -- A program that connects, and then owns the association while it uses it.
    made_then :
        {A : Type 0} {f : SctpAssociation → Io A} (h : History) (r : Run SctpAssociation)
        → OpensOne d os h r
        → ((a : SctpAssociation) → Quiet d (f a))
        → Balanced d os h (and_then os r (λ a. owning a.fd (f a)))
    unfolding owning
    made_then {f} h (done a g) one quiet =
        closed_after-Opened a h g (f a os g) one (Opened-Quiet d os g (quiet a))
    made_then h (failed e g) one quiet = one
    made_then h (waiting g) one quiet = tt

    connected-Balanced :
        {A : Type 0} {f : SctpAssociation → Io A} (bound : SocketAddr) (config : SctpConfig)
        (ws : List Connect.Wake) (h : History)
        → ((a : SctpAssociation) → Quiet d (f a))
        → Balanced d os h ((connect_with p bound config ws >>= λ a. owning a.fd (f a)) os h)
    unfolding connect_with connect_impl ◌>>=◌
    connected-Balanced bound config ws h quiet =
        made_then h _ (connect_bound-OpensOne d os p [] (bound ∷ []) config ws h) quiet

    exchange-Balanced :
        (bound : SocketAddr) (v : Visit) (h : History) → Balanced d os h (exchange p bound v os h)
    unfolding exchange connect connect_with
    exchange-Balanced bound v h = connected-Balanced bound default_config v.connects h λ a.
        Quiet-bind d (Quiet-round_trip (codes "x") (client_of a v))
          λ c. Quiet-dropping (Quiet-shutdown c.assoc)

    churn-Balanced :
        (bound : SocketAddr) (vs : List Visit) (h : History)
        → Balanced d os h (churn p bound vs os h)
    unfolding churn
    churn-Balanced bound [] h = Balanced-pure d os tt h
    churn-Balanced bound (v ∷ vs) h =
        Balanced-bind d os _ _ h (exchange-Balanced bound v h) (λ _ g. churn-Balanced bound vs g)

    echoes-Balanced :
        (bound : SocketAddr) (payload : Bytes) (k n : ℕ) (v : Visit) (h : History)
        → Balanced d os h (echoes p bound payload k n v os h)
    unfolding echoes connect connect_with
    echoes-Balanced bound payload k n v h =
        connected-Balanced bound default_config v.connects h
          λ a. Quiet-echo_phase payload k n (client_of a v)

    pub perf_client-Balanced :
        (bound : SocketAddr) (payload : Bytes) (n : ℕ) (v : Visit) (h : History)
        → Balanced d os h (perf_client p bound payload n v os h)
    unfolding perf_client connect connect_with
    perf_client-Balanced bound payload n v h =
        connected-Balanced bound default_config v.connects h
          λ a. Quiet-round_trips payload n (client_of a v)

    pub echo_client-Balanced :
        (addr : SocketAddr) (msg : Bytes) (v : Visit) (h : History)
        → Balanced d os h (echo_client p addr msg v os h)
    unfolding echo_client
    echo_client-Balanced addr msg v h =
        connected-Balanced addr _ v.connects h λ a. Quiet-talk msg (client_of a v)

    -- Whatever the kernel answers and however the associations go: when the clients of the leak
    -- check are over, with a result, an error or a panic, each descriptor was closed exactly as
    -- often as a `socket` call gave it, so what they opened is closed.
    pub leak_clients-Balanced :
        (bound : SocketAddr) (payload : Bytes) (k n : ℕ) (v : Visit) (vs : List Visit) (h : History)
        → Balanced d os h (leak_clients p bound payload k n v vs os h)
    unfolding leak_clients
    leak_clients-Balanced bound payload k n v vs h =
        Balanced-bind d os _ _ h (echoes-Balanced bound payload k n v h)
          (λ c g. churn-Balanced bound vs g)
