-- ===== src/Association/Lifetime/Closes.antt =====
-- The descriptor of an association is closed once in its lifetime.
use async_sctp.Common.{ℕ, suc, ◌≡◌, refl, arith, false, List, [], ◌∷◌, ◌++◌, is_empty}
use async_sctp.Platform.{Platform}
use async_sctp.Sys.{ipproto_sctp}
use async_sctp.Addr.{SocketAddr}
use async_sctp.Kernel.{
  Fd, Call, ret, History, Os, Run, done, failed, waiting, Io, pure, and_then, ◌>>=◌, ◌>>◌, issue,
  checked, closing,
}
use async_sctp.Kernel.Frame.{closes, SameCounts, after}
use async_sctp.Config.{SctpConfig}
use async_sctp.Socket.{domain_of, register}
use async_sctp.Socket.Ownership.{ClosedOnce}
use async_sctp.Association.{SctpAssociation, fresh}
use async_sctp.Association.Connect.{
  Wake, ports_differ, connect_bound, connect_socket, prepare, start,
}
use async_sctp.Association.Connect.Closes.{connect_bound-ClosedOnce}
use async_sctp.Association.Lifetime.Quiet.{Quiet-use_all}
use async_sctp.Association.Lifetime.{
  drop_socket, Use, sends, shuts_down, aborts, asks_peer, asks_local, attempted, use_once, use_all,
  lifetime,
}

-- An association that was made has the descriptor.
abbrev pub HasFd : Fd → Run SctpAssociation → Type 0
HasFd fd (done a h) = a.fd ≡ fd
HasFd fd (failed e h) = Unit {0}
HasFd fd (waiting h) = Unit {0}

HasFd-and_then :
    {A : Type 0} (fd : Fd) (os : Os) (r : Run A) (f : A → Io SctpAssociation)
    → ((a : A) (g : History) → HasFd fd (f a os g))
    → HasFd fd (and_then os r f)
HasFd-and_then fd os (done a g) f next = next a g
HasFd-and_then fd os (failed e g) f next = tt
HasFd-and_then fd os (waiting g) f next = tt

HasFd-opened :
    (fd : Fd) (os : Os) (h : History) (m n k : Io (Unit {0}))
    → HasFd fd ((m >> (n >> (k >> pure (fresh fd)))) os h)
unfolding ◌>>=◌ pure
HasFd-opened fd os h m n k = HasFd-and_then fd os (m os h) _ (λ _ g.
    HasFd-and_then fd os (n os g) _ (λ _ l. HasFd-and_then fd os (k os l) _ (λ _ last. refl)))

pub HasFd-socket :
    (p : Platform) (local addrs : List SocketAddr) (domain : ℕ) (config : SctpConfig)
    (ws : List Wake) (os : Os) (h : History) (fd : Fd)
    → HasFd fd (
        (closing fd (prepare p fd local domain config)
            >> (register fd >> (closing fd (start p fd addrs ws) >> pure (fresh fd))))
          os h)
HasFd-socket p local addrs domain config ws os h fd =
    HasFd-opened fd os h (closing fd (prepare p fd local domain config)) (register fd)
      (closing fd (start p fd addrs ws))

connect_bound-HasFd :
    (p : Platform) (local addrs : List SocketAddr) (config : SctpConfig) (ws : List Wake) (os : Os)
    (h : History) (fd : Fd)
    → is_empty addrs ≡ false
    → ports_differ local ≡ false
    → (os h (Call.socket (domain_of p (addrs ++ local)) p.sock_stream ipproto_sctp)).result ≡ ret fd
    → HasFd fd (connect_bound p local addrs config ws os h)
unfolding connect_bound connect_socket
connect_bound-HasFd p local addrs config ws os h fd some_addrs one_port e =
    rw (some_addrs, one_port)
      (unfold ◌>>=◌ issue checked pure in
        rw e (
          HasFd-socket p local addrs (domain_of p (addrs ++ local)) config ws os
            (Call.socket (domain_of p (addrs ++ local)) p.sock_stream ipproto_sctp ∷ h) fd))

abbrev IsDone : Run (Unit {0}) → Type 0
IsDone (done a h) = Unit {0}
IsDone (failed e h) = ⊥
IsDone (waiting h) = ⊥

IsDone-and_then :
    (os : Os) (r : Run (Unit {0})) (f : Io (Unit {0}))
    → IsDone r
    → ((g : History) → IsDone (f os g))
    → IsDone (and_then os r (λ _. f))
IsDone-and_then os (done a g) f is next = next g
IsDone-and_then os (failed e g) f is next = is
IsDone-and_then os (waiting g) f is next = is

module _ (p : Platform) (a : SctpAssociation) (os : Os) where
  use_once-IsDone : (u : Use) (h : History) → IsDone (use_once p a u os h)
  unfolding use_once attempted
  use_once-IsDone (sends msg stream ppid opts polls) h = tt
  use_once-IsDone shuts_down h = tt
  use_once-IsDone (aborts polls) h = tt
  use_once-IsDone asks_peer h = tt
  use_once-IsDone asks_local h = tt

  use_all-IsDone : (us : List Use) (h : History) → IsDone (use_all p a us os h)
  unfolding use_all ◌>>=◌ pure
  use_all-IsDone [] h = tt
  use_all-IsDone (u ∷ us) h =
      IsDone-and_then os (use_once p a u os h) (use_all p a us) (use_once-IsDone u h)
        (use_all-IsDone us)

-- Over, made or not: the descriptor was closed exactly once. Still connecting: it is open.
abbrev pub ClosedInTheEnd : Fd → History → Run (Unit {0}) → Type 0
ClosedInTheEnd fd h (done a g) = closes fd g ≡ suc (closes fd h)
ClosedInTheEnd fd h (failed e g) = closes fd g ≡ suc (closes fd h)
ClosedInTheEnd fd h (waiting g) = closes fd g ≡ closes fd h

dropped_after :
    (fd : Fd) (a : SctpAssociation) (os : Os) (h g : History) (r : Run (Unit {0}))
    → a.fd ≡ fd
    → closes fd g ≡ closes fd h
    → SameCounts fd g (after r)
    → IsDone r
    → ClosedInTheEnd fd h (and_then os r (λ _. drop_socket a))
unfolding drop_socket ◌>>=◌ issue pure
dropped_after fd a os h g (done u k) same before s is = ground (arith, same, before, s.0)
dropped_after fd a os h g (failed e k) same before s is = absurd is
dropped_after fd a os h g (waiting k) same before s is = absurd is

used_and_dropped :
    (fd : Fd) (p : Platform) (us : List Use) (os : Os) (h : History) (r : Run SctpAssociation)
    → ClosedOnce fd h r
    → HasFd fd r
    → ClosedInTheEnd fd h (and_then os r (λ a. use_all p a us >> drop_socket a))
unfolding ◌>>=◌
used_and_dropped fd p us os h (done a g) once has =
    dropped_after fd a os h g (use_all p a us os g) has once ((Quiet-use_all fd p a us).same os g)
      (use_all-IsDone p a os us g)
used_and_dropped fd p us os h (failed e g) once has = once
used_and_dropped fd p us os h (waiting g) once has = once

-- From the `socket` call that gave `fd` on, over a connect, any calls of the operations of the
-- association, failed ones and ones dropped while they wait included, and the drop of its socket,
-- the descriptor is closed exactly once, whether the connect succeeds or fails. While the connect
-- waits it is open.
pub lifetime-ClosedInTheEnd :
    (p : Platform) (local addrs : List SocketAddr) (config : SctpConfig) (ws : List Wake)
    (us : List Use) (os : Os) (h : History) (fd : Fd)
    → is_empty addrs ≡ false
    → ports_differ local ≡ false
    → (os h (Call.socket (domain_of p (addrs ++ local)) p.sock_stream ipproto_sctp)).result ≡ ret fd
    → ClosedInTheEnd fd h (lifetime p local addrs config ws us os h)
unfolding lifetime
lifetime-ClosedInTheEnd p local addrs config ws us os h fd some_addrs one_port e =
    unfold ◌>>=◌ in
    used_and_dropped fd p us os h (connect_bound p local addrs config ws os h)
      (connect_bound-ClosedOnce p local addrs config ws os h fd some_addrs one_port e)
      (connect_bound-HasFd p local addrs config ws os h fd some_addrs one_port e)
