-- ===== src/Examples/Client/Cycles.antt =====
-- The cycles of the first phase of src/examples/leak_check.rs: so many round trips.
use async_sctp.Common.{ℕ, zero, suc, ◌+◌, ◌*◌, arith, ◌≡◌, ap, ◌∙◌, false, Bytes, List, []}
use async_sctp.Platform.{Platform}
use async_sctp.Kernel.{History, Os, and_then, pure, ◌>>=◌}
use async_sctp.Kernel.Bind.{and_then-and_then, and_then-ap}
use async_sctp.Association.{SctpAssociation}
use async_sctp.Association.Receive.{Wake}
use async_sctp.Association.Send.{SelectPoll}
use async_sctp.Examples.Client.{Client, round_trip, round_trips, cycles, echo_phase}
use async_sctp.Examples.Client.Trips.{Echoes, with_trips, Takes, Made, round_trips-Made}

module _ (p : Platform) (payload : Bytes) (os : Os) where
  counted :
      (m n : ℕ) (c : Client) (h : History)
      → m ≡ n
      → round_trips p payload m c os h ≡ round_trips p payload n c os h
  counted m n c h e = ap (λ k. round_trips p payload k c os h) e

  round_trips-add :
      (m n : ℕ) (c : Client) (h : History)
      → and_then os (round_trips p payload m c os h) (round_trips p payload n)
        ≡ round_trips p payload (m + n) c os h
  unfolding round_trips ◌>>=◌ pure
  round_trips-add zero n c h = counted n (0 + n) c h (omega arith)
  round_trips-add (suc m) n c h =
      and_then-and_then os (round_trip p payload c os h) (round_trips p payload m)
        (round_trips p payload n)
      ∙ and_then-ap os (round_trip p payload c os h) _ _ (round_trips-add m n)
      ∙ counted (suc (m + n)) (suc m + n) c h (omega arith)

  cycles-round_trips :
      (k n : ℕ) (c : Client) (h : History)
      → cycles p payload k n c os h ≡ round_trips p payload (k * n) c os h
  unfolding cycles round_trips ◌>>=◌ pure
  cycles-round_trips zero n c h = counted 0 (0 * n) c h (omega arith)
  cycles-round_trips (suc k) n c h =
      and_then-ap os (round_trips p payload n c os h) _ _ (cycles-round_trips k n)
      ∙ round_trips-add n (k * n) c h
      ∙ counted (n + k * n) (suc k * n) c h (omega arith)

  echo_phase-round_trips :
      (k n : ℕ) (c : Client) (h : History)
      → echo_phase p payload k n c os h ≡ round_trips p payload (suc k * n) c os h
  unfolding echo_phase ◌>>=◌
  echo_phase-round_trips k n c h =
      and_then-ap os (round_trips p payload n c os h) _ _ (cycles-round_trips k n)
      ∙ round_trips-add n (k * n) c h
      ∙ counted (n + k * n) (suc k * n) c h (omega arith)

  -- On an open association with nothing buffered, on which the kernel takes every message of this
  -- payload, whose socket is writable for each send, and where a message that any fragments,
  -- empty reads and notifications that do not end the association precede comes back for each,
  -- the warm-up and the `k` cycles, each of `n` round trips, are over with exactly `(k + 1) * n`
  -- calls: as many `sctp_sendmsg` of the payload on stream 0 with the payload protocol identifier
  -- of M3UA in network order. The association is open with the same descriptor, nothing is
  -- buffered, and what came later is left to come.
  pub echo_phase-Made :
      {ws vs : List Wake} {sends later : List (List SelectPoll)} (k n : ℕ) (a : SctpAssociation)
      (h : History)
      → Echoes p (suc k * n) ws sends vs later
      → Takes p os a.fd payload
      → a.ended ≡ false
      → a.recv_state.buf ≡ []
      → Made
          (record { assoc = a; wakes = ws; sends = sends })
          (with_trips p a.fd payload (suc k * n) h)
          vs
          later
          (echo_phase p payload k n (record { assoc = a; wakes = ws; sends = sends }) os h)
  echo_phase-Made k n a h es takes alive empty =
      let made = round_trips-Made p payload os a h es takes alive empty in
      record {
        client = made.client;
        result = echo_phase-round_trips k n _ h ∙ made.result;
        same_fd = made.same_fd;
        alive = made.alive;
        reset = made.reset;
        wakes_left = made.wakes_left;
        sends_left = made.sends_left;
      }
