-- ===== src/Examples/Client/Echo.antt =====
-- The whole run of src/examples/echo_client.rs on a kernel that refuses nothing.
use async_sctp.Common.{
  ℕ, Bool, ◌≡◌, refl, ap, sym, subst, ◌∙◌, Bytes, List, [], ◌∷◌, ◌++◌, some, length, All, pos,
}
use async_sctp.Platform.{Platform, IsPlatform}
use async_sctp.Addr.{SocketAddr, pack}
use async_sctp.Addr.RoundTrip.{IsAddr}
use async_sctp.Sys.{ipproto_sctp}
use async_sctp.Kernel.{Fd, Call, ret, History, Os, done, Io}
use async_sctp.Kernel.Script.{
  since, since-append, Grants, Does, Does-bind, Does-pure, Does-syscall_,
}
use async_sctp.Recv.{RecvReply, info_of}
use async_sctp.Recv.Chunks.{IsLast}
use async_sctp.Socket.{domain_of}
use async_sctp.Association.{SctpAssociation, fresh}
use async_sctp.Association.Addrs.{peer_addrs, peer_addrs-pack}
use async_sctp.Association.Connect.{writable, connect_with, connect_impl}
use async_sctp.Association.Connect.Made.{connect_calls, Connects, connect_bound-since}
use async_sctp.Association.Connect
use async_sctp.Association.Receive
use async_sctp.Association.Receive.{readable, recv}
use async_sctp.Association.Receive.Whole.{Beginning, Receives, recv-Receives}
use async_sctp.Association.Send.{SelectPoll, ready, shutdown}
use async_sctp.Examples.Client.{Client, sent, received, talk, client_config, echo_client}
use async_sctp.Examples.{closed_after, owning}
use async_sctp.Examples.Client.Trips.{trip_call, sent-taken, received-Receives}

-- After the connect: the question for the peer's addresses, the message, the shutdown, the drop.
abbrev pub talk_calls : Platform → Fd → Bytes → List Call
talk_calls p fd msg =
    Call.getpaddrs fd (pos 0)
    ∷ Call.freepaddrs
    ∷ trip_call p fd msg
    ∷ Call.shutdown fd p.shut_wr
    ∷ Call.close fd
    ∷ []

-- The kernel answers with the addresses of the peer.
pub record Tells (p : Platform) (os : Os) (fd : Fd) (peers : List SocketAddr) : Type 0 where
  pub rest : Bytes
  pub number : (h : History) → (os h (Call.getpaddrs fd (pos 0))).result ≡ ret (length peers)
  pub array : (h : History) → (os h (Call.getpaddrs fd (pos 0))).array ≡ pack p peers ++ rest

module _ (p : Platform) (os : Os) where
  Does-owning :
      {A : Type 0} (d : Fd) (m : Io A) (x : A) (cs : List Call)
      → Does os m x cs
      → Does os (owning d m) x (cs ++ Call.close d ∷ [])
  unfolding owning
  Does-owning d m x cs e = record {
    does = λ h.
        ap (closed_after d) (e.does h) ∙ ap (done x) (sym (since-append cs (Call.close d ∷ []) h));
  }

  module _ (grants : Grants os) (fd : Fd) (peers : List SocketAddr) (is : IsPlatform p)
      (are : All IsAddr peers) (tells : Tells p os fd peers) where
    Does-peer_addrs :
        Does os (peer_addrs p (fresh fd)) peers (Call.getpaddrs fd (pos 0) ∷ Call.freepaddrs ∷ [])
    Does-peer_addrs = record {
      does = λ h.
          peer_addrs-pack p is (fresh fd) os h peers tells.rest are (tells.number h)
            (tells.array h);
    }

    module _ (msg d last : Bytes) (before rest : List Receive.Wake) (r : RecvReply)
        (b : Beginning p d before) (l : IsLast r last) where
      came :
          Receives
            (fresh fd)
            (d ++ last)
            (info_of p.endian r.sinfo)
            rest
            (recv p (fresh fd) (before ++ readable r ∷ rest))
      came = recv-Receives p last r l rest (fresh fd) b refl

      -- What the client has before and after it sent, and after it received.
      abbrev with_sends : SctpAssociation → List Receive.Wake → List (List SelectPoll) → Client
      with_sends a ws sends = record { assoc = a; wakes = ws; sends = sends }

      abbrev arriving : List Receive.Wake
      arriving = before ++ readable r ∷ rest

      Does-sent :
          (closed : Bool) (polls : List SelectPoll) (sends : List (List SelectPoll))
          → Does os
              (sent p msg (
                with_sends
                  (fresh fd)
                  arriving
                  ((record { readiness = some ready; closed = closed } ∷ polls) ∷ sends)))
              (with_sends (fresh fd) arriving sends)
              (trip_call p fd msg ∷ [])
      Does-sent closed polls sends = record {
        does = λ h.
            sent-taken p msg os (fresh fd) arriving sends closed polls h
              (grants h (trip_call p fd msg)).0 (grants h (trip_call p fd msg)).1;
      }

      Does-received :
          (sends : List (List SelectPoll))
          → Does os
              (received p (with_sends (fresh fd) arriving sends))
              ((d ++ last, info_of p.endian r.sinfo), with_sends came.left rest sends)
              []
      Does-received sends = record {
        does = λ h. received-Receives p msg os (fresh fd) arriving rest sends _ _ h came;
      }

      Does-down : Does os (shutdown p came.left) tt (Call.shutdown fd p.shut_wr ∷ [])
      unfolding shutdown
      Does-down =
          subst (λ x. Does os (shutdown p came.left) tt (Call.shutdown x p.shut_wr ∷ []))
            came.same_fd (Does-syscall_ os grants (Call.shutdown came.left.fd p.shut_wr))

      Does-talk :
          (closed : Bool) (polls : List SelectPoll) (sends : List (List SelectPoll))
          → Does os
              (talk p msg (
                with_sends
                  (fresh fd)
                  arriving
                  ((record { readiness = some ready; closed = closed } ∷ polls) ∷ sends)))
              (peers, d ++ last, info_of p.endian r.sinfo)
              (Call.getpaddrs fd (pos 0)
                ∷ Call.freepaddrs
                ∷ trip_call p fd msg
                ∷ Call.shutdown fd p.shut_wr
                ∷ [])
      unfolding talk
      Does-talk closed polls sends = Does-bind os _ _ _ _ _ _ Does-peer_addrs (
          Does-bind os _ _ _ _ _ _ (Does-sent closed polls sends) (
            Does-bind os _ _ _ _ _ _ (Does-received sends)
              (Does-bind os _ _ _ _ _ _ Does-down (Does-pure os _))))

  -- On a kernel that refuses no call, gives `fd`, says that it is connected when it is first
  -- writable, and answers with the addresses of the peer, where the socket is writable for the
  -- message and one comes back, in any fragments, with empty reads and notifications that do not
  -- end the association between: the client returns the peer's addresses and the echo with the
  -- info of its last fragment, with exactly the calls of a connect, then the question for the
  -- addresses and the return of their array, one `sctp_sendmsg` of its line on stream 0 as M3UA,
  -- the shutdown, and one close.
  pub echo_client-since :
      (fd : Fd) (flags : ℕ) (connects : Connects p os fd flags) (peers : List SocketAddr)
      (is : IsPlatform p) (are : All IsAddr peers) (tells : Tells p os fd peers) (addr : SocketAddr)
      (msg d last : Bytes) (before rest : List Receive.Wake) (r : RecvReply)
      (ws : List Connect.Wake) (closed : Bool) (polls : List SelectPoll)
      (sends : List (List SelectPoll)) (h : History)
      → ((g : History)
          → (os g (Call.socket (domain_of p (addr ∷ [])) p.sock_stream ipproto_sctp)).result
            ≡ ret fd)
      → Beginning p d before
      → IsLast r last
      → echo_client p addr msg
          (record {
            connects = writable ∷ ws;
            wakes = before ++ readable r ∷ rest;
            sends = (record { readiness = some ready; closed = closed } ∷ polls) ∷ sends;
          })
          os
          h
        ≡ done
            (peers, d ++ last, info_of p.endian r.sinfo)
            (since (connect_calls p fd flags [] (addr ∷ []) client_config ++ talk_calls p fd msg) h)
  unfolding echo_client connect_with connect_impl
  echo_client-since fd flags connects peers is are tells addr msg d last before rest r ws closed
        polls sends h socket b l =
      (Does-bind os _ _ _ _ (connect_calls p fd flags [] (addr ∷ []) client_config) _
          (record {
            does = λ g.
                connect_bound-since p os fd flags connects [] (addr ∷ []) client_config ws g refl
                  refl socket;
          })
          (Does-owning fd _ _ _ (
            Does-talk connects.grants fd peers is are tells msg d last before rest r b l closed
              polls sends))).does
        h
