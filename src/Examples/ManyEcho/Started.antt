-- ===== src/Examples/ManyEcho/Started.antt =====
-- The echo server from its start.
use async_sctp.Common.{ℕ, ◌≡◌, refl, ap, List, [], ◌∷◌}
use async_sctp.Platform.{Platform, IsPlatform}
use async_sctp.Sys.{ipproto_sctp}
use async_sctp.Addr.{SocketAddr, to_raw}
use async_sctp.Addr.RoundTrip.{IsAddr, from_raw-to_raw}
use async_sctp.Kernel.{Fd, Call, ret, History, Os, done, waiting, ◌>>=◌, issue, checked, pure}
use async_sctp.Kernel.Script.{since, Grants}
use async_sctp.Config.{default_config}
use async_sctp.Recv.{empty}
use async_sctp.Socket.{domain_of, local_addr_of, lift}
use async_sctp.Association.Receive.{Wake}
use async_sctp.Server.{SctpServer, bind, local_addr, bind_multi_with}
use async_sctp.Server.Made.{bind_calls, bind_multi_with-since}
use async_sctp.Examples.{owning, closed_after}
use async_sctp.Examples.ManyEcho.{main}
use async_sctp.Examples.ManyEcho.Echoes.{Message, Traffic, writable, echo_of, echoed, serve-echoed}

local_addr-to_raw :
    (p : Platform) (is : IsPlatform p) (os : Os) (grants : Grants os) (s : SctpServer)
    (bound : SocketAddr) (h : History)
    → IsAddr bound
    → (os h (Call.getsockname s.fd)).storage ≡ (to_raw p bound).0
    → local_addr p s os h ≡ done bound (Call.getsockname s.fd ∷ h)
unfolding local_addr local_addr_of ◌>>=◌ issue checked lift pure
local_addr-to_raw p is os grants s bound h is_addr e =
    rw ((grants h (Call.getsockname s.fd)).1, e, from_raw-to_raw p is bound is_addr)

bind-since :
    (os : Os) (grants : Grants os) (p : Platform) (fd flags : ℕ) (addr : SocketAddr) (h : History)
    → ((g : History) → (os g (Call.fcntl_getfl fd)).result ≡ ret flags)
    → ((g : History)
        → (os g (Call.socket (domain_of p (addr ∷ [])) p.sock_seqpacket ipproto_sctp)).result
          ≡ ret fd)
    → bind p addr os h
      ≡ done
          (record { fd = fd; recv_state = empty })
          (since (bind_calls p fd flags addr (addr ∷ []) default_config) h)
unfolding bind bind_multi_with
bind-since os grants p fd flags addr h gives socket =
    bind_multi_with-since os grants p fd flags addr [] default_config h gives socket

-- The calls of the start: those of the bind, and the question for the bound address.
abbrev pub start_calls : Platform → Fd → ℕ → SocketAddr → History
start_calls p fd flags addr =
    Call.getsockname fd ∷ since (bind_calls p fd flags addr (addr ∷ []) default_config) []

-- On a kernel that refuses no call, the echo server binds the address it is given with exactly
-- the calls of a bind, asks for the bound address, and then answers each message that the kernel
-- delivers once, in their order, with the same bytes, to the association it came from, on the
-- same stream and with the same payload protocol identifier, however the messages are cut into
-- fragments and whatever empty reads and notifications fall between; it makes no other call, and
-- waits for more. The socket is taken to be writable when an answer is sent, and each message to
-- come with a socket address.
pub main-echoed :
    (p : Platform) (is : IsPlatform p) (os : Os) (grants : Grants os) (fd flags : ℕ)
    (addr bound : SocketAddr) (ws : List Wake) (ms : List Message)
    → ((g : History) → (os g (Call.fcntl_getfl fd)).result ≡ ret flags)
    → ((g : History)
        → (os g (Call.socket (domain_of p (addr ∷ [])) p.sock_seqpacket ipproto_sctp)).result
          ≡ ret fd)
    → IsAddr bound
    → ((g : History) → (os g (Call.getsockname fd)).storage ≡ (to_raw p bound).0)
    → Traffic p [] ws ms
    → main p addr ws (writable ms) os [] ≡ waiting (echoed fd ms (start_calls p fd flags addr))
unfolding main owning ◌>>=◌
main-echoed p is os grants fd flags addr bound ws ms gives socket is_addr named traffic =
    let server : SctpServer = record { fd = fd; recv_state = empty } in
    let calls = since (bind_calls p fd flags addr (addr ∷ []) default_config) [] in
    rw
      (
        bind-since os grants p fd flags addr [] gives socket,
        local_addr-to_raw p is os grants server bound calls is_addr (named calls),
      )
      (ap (closed_after fd) (
        serve-echoed p os (λ h f m. grants h (echo_of f m)) server (start_calls p fd flags addr)
          traffic refl))
