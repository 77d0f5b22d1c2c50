-- ===== src/Examples/Client/Trips.antt =====
-- The round trips of src/examples/perf.rs and src/examples/leak_check.rs: as many sends as trips,
-- and a message handed over for each.
use async_sctp.Common.{
  ℕ, zero, suc, ◌≡◌, refl, ap, ◌∙◌, sym, Bool, false, Bytes, List, [], ◌∷◌, ◌++◌, some, subst,
  to_be32,
}
use async_sctp.Platform.{Platform}
use async_sctp.Kernel.{Fd, Call, ret, History, Os, Run, done, and_then, pure, ◌>>=◌, issue}
use async_sctp.Ppid.{m3ua}
use async_sctp.Types.{RecvInfo}
use async_sctp.Recv.{RecvReply}
use async_sctp.Recv.Chunks.{IsLast}
use async_sctp.Association.{SctpAssociation, sinfo_flags}
use async_sctp.Association.Receive.{Wake, readable, recv}
use async_sctp.Association.Receive.Whole.{Beginning, Receives, recv-Receives}
use async_sctp.Association.Send.{
  SelectPoll, ready, after_send, on_poll, send, send_with, send_loop, sendmsg_call,
}
use async_sctp.Examples.Client.{Client, sent, received, round_trip, round_trips}

-- The wakes of `n` round trips, and what comes after them: for each the socket is writable, and
-- a message comes, in any fragments, with empty reads and notifications that do not end the
-- association anywhere before its last one.
pub data Echoes (p : Platform)
    : ℕ → List Wake → List (List SelectPoll) → List Wake → List (List SelectPoll) → Type 0 where
  over : {ws : List Wake} {sends : List (List SelectPoll)} → Echoes p 0 ws sends ws sends
  trip :
      {n : ℕ} {d last : Bytes} {r : RecvReply} {before ws vs : List Wake}
      {sends later : List (List SelectPoll)} (closed : Bool) (polls : List SelectPoll)
      → Beginning p d before
      → IsLast r last
      → Echoes p n ws sends vs later
      → Echoes p
          (suc n)
          (before ++ readable r ∷ ws)
          ((record { readiness = some ready; closed = closed } ∷ polls) ∷ sends)
          vs
          later

-- The call of one `send` of a round trip.
abbrev pub trip_call : Platform → Fd → Bytes → Call
trip_call p fd payload = Call.sendmsg fd payload (to_be32 p.endian m3ua) 0 0 0

abbrev pub with_trips : Platform → Fd → Bytes → ℕ → History → History
with_trips p fd payload zero h = h
with_trips p fd payload (suc n) h = with_trips p fd payload n (trip_call p fd payload ∷ h)

-- The kernel takes every message of `payload`.
abbrev pub Takes : Platform → Os → Fd → Bytes → Type 0
Takes p os fd payload = (h : History) → (n : ℕ) × ((os h (trip_call p fd payload)).result ≡ ret n)

-- The client after its round trips: its association is open, with the same descriptor, nothing
-- buffered, and what is left to come.
pub record Made (c : Client) (h : History) (ws : List Wake) (sends : List (List SelectPoll))
    (r : Run Client) : Type 0 where
  pub client : Client
  pub result : r ≡ done client h
  pub same_fd : client.assoc.fd ≡ c.assoc.fd
  pub alive : client.assoc.ended ≡ false
  pub reset : client.assoc.recv_state.buf ≡ []
  pub wakes_left : client.wakes ≡ ws
  pub sends_left : client.sends ≡ sends

module _ (p : Platform) (payload : Bytes) (os : Os) where
  pub sent-taken :
      (a : SctpAssociation) (ws : List Wake) (sends : List (List SelectPoll)) (closed : Bool)
      (polls : List SelectPoll) (h : History) (n : ℕ)
      → (os h (trip_call p a.fd payload)).result ≡ ret n
      → sent p payload
          (record {
            assoc = a;
            wakes = ws;
            sends = (record { readiness = some ready; closed = closed } ∷ polls) ∷ sends;
          })
          os
          h
        ≡ done (record { assoc = a; wakes = ws; sends = sends }) (trip_call p a.fd payload ∷ h)
  unfolding sent send send_with send_loop on_poll sendmsg_call sinfo_flags after_send issue ◌>>=◌
      pure
  sent-taken a ws sends closed polls h n e = rw e refl

  pub received-Receives :
      (a : SctpAssociation) (ws vs : List Wake) (sends : List (List SelectPoll)) (bytes : Bytes)
      (info : RecvInfo) (h : History) (r : Receives a bytes info vs (recv p a ws))
      → received p (record { assoc = a; wakes = ws; sends = sends }) os h
        ≡ done ((bytes, info), record { assoc = r.left; wakes = vs; sends = sends }) h
  unfolding received pure
  received-Receives a ws vs sends bytes info h r = rw r.result refl

  trip-done :
      (a : SctpAssociation) (before rest : List Wake) (sends : List (List SelectPoll))
      (closed : Bool) (polls : List SelectPoll) (h : History) (n : ℕ) (bytes : Bytes)
      (info : RecvInfo)
      → (os h (trip_call p a.fd payload)).result ≡ ret n
      → (r : Receives a bytes info rest (recv p a before))
      → round_trip p payload
          (record {
            assoc = a;
            wakes = before;
            sends = (record { readiness = some ready; closed = closed } ∷ polls) ∷ sends;
          })
          os
          h
        ≡ done
            (record { assoc = r.left; wakes = rest; sends = sends })
            (trip_call p a.fd payload ∷ h)
  unfolding round_trip ◌>>=◌ pure
  trip-done a before rest sends closed polls h n bytes info e r = rw (
    sent-taken a before sends closed polls h n e,
    received-Receives a before rest sends bytes info (trip_call p a.fd payload ∷ h) r,
  )

  pub round_trips-Made :
      {n : ℕ} {ws vs : List Wake} {sends later : List (List SelectPoll)} (a : SctpAssociation)
      (h : History)
      → Echoes p n ws sends vs later
      → Takes p os a.fd payload
      → a.ended ≡ false
      → a.recv_state.buf ≡ []
      → Made
          (record { assoc = a; wakes = ws; sends = sends })
          (with_trips p a.fd payload n h)
          vs
          later
          (round_trips p payload n (record { assoc = a; wakes = ws; sends = sends }) os h)
  unfolding round_trips pure ◌>>=◌
  round_trips-Made a h over takes alive empty = record {
    client = record { assoc = a; wakes = _; sends = _ };
    result = refl;
    same_fd = refl;
    alive = alive;
    reset = empty;
    wakes_left = refl;
    sends_left = refl;
  }
  round_trips-Made a h
        (trip {n} {d} {last} {r} {before} {ws} {vs} {sends} {later} closed polls b l es) takes alive
        empty =
      let m = recv-Receives p last r l ws a b alive in
      let rest =
        round_trips-Made m.left (trip_call p a.fd payload ∷ h) es
          (subst (λ fd. Takes p os fd payload) (sym m.same_fd) takes) m.alive m.reset in
      record {
        client = rest.client;
        result =
            ap (λ r. and_then os r (round_trips p payload n))
              (trip-done a (before ++ readable r ∷ ws) ws sends closed polls h (takes h).0 _ _
                (takes h).1 m)
            ∙ rest.result
            ∙ ap (λ fd. done rest.client (with_trips p fd payload n (trip_call p a.fd payload ∷ h)))
                m.same_fd;
        same_fd = rest.same_fd ∙ m.same_fd;
        alive = rest.alive;
        reset = rest.reset;
        wakes_left = rest.wakes_left;
        sends_left = rest.sends_left;
      }
