-- ===== src/Association/Lifetime/Quiet.antt =====
-- The operations of an association leave descriptors alone.
use async_sctp.Common.{Bytes, pos, ℕ, Bool, true, false, List, [], ◌∷◌, Option, none, some}
use async_sctp.Platform.{Platform}
use async_sctp.Kernel.{Fd, Call, Ret, ret, fail, Io, ◌>>=◌, issue}
use async_sctp.Kernel.Frame.{
  Quiet, Quiet-pure, Quiet-throw, Quiet-wait, Quiet-issue, Quiet-bind, Quiet-syscall_, quiet_laws,
}
use async_sctp.Association.{SctpAssociation, SendOptions}
use async_sctp.Association.Addrs.{addrs_via, peer_addrs, local_addrs}
use async_sctp.Association.Lifetime.{
  Use, sends, shuts_down, aborts, asks_peer, asks_local, attempted, use_once, use_all,
}
use async_sctp.Association.Send.{
  SelectPoll, Readiness, ready, reactor_error, after_send, on_poll, send_loop, sendmsg_call,
  send_with, shutdown, abort,
}

module _ (fd : Fd) (p : Platform) where
  Quiet-after_send :
      (d : Fd) (r : Ret) {again : Io ℕ} → Quiet fd again → Quiet fd (after_send p d r again)
  unfolding after_send
  Quiet-after_send d (ret n) q = Quiet-pure fd n
  Quiet-after_send d (fail errno) q = search quiet_laws

  Quiet-attempt :
      (d : Fd) (c : Call) {again : Io ℕ}
      → Quiet fd (issue c)
      → Quiet fd again
      → Quiet fd (issue c >>= λ a. after_send p d a.result again)
  Quiet-attempt d c call q = Quiet-bind fd call (λ a. Quiet-after_send d a.result q)

  Quiet-on_poll :
      (d : Fd) (c : Call) (readiness : Option Readiness) (closed : Bool) {again : Io ℕ}
      → Quiet fd (issue c)
      → Quiet fd again
      → Quiet fd (on_poll p d c readiness closed again)
  unfolding on_poll
  Quiet-on_poll d c (some ready) closed call q = Quiet-attempt d c call q
  Quiet-on_poll d c (some (reactor_error e)) closed call q = Quiet-throw fd ℕ _
  Quiet-on_poll d c none true call q = Quiet-throw fd ℕ _
  Quiet-on_poll d c none false call q = q

  Quiet-send_loop :
      (d : Fd) (c : Call) (polls : List SelectPoll)
      → Quiet fd (issue c)
      → Quiet fd (send_loop p d c polls)
  unfolding send_loop
  Quiet-send_loop d c [] call = Quiet-wait fd ℕ
  Quiet-send_loop d c (poll ∷ polls) call =
      Quiet-on_poll d c poll.readiness poll.closed call (Quiet-send_loop d c polls call)

  pub Quiet-send_with :
      (a : SctpAssociation) (msg : Bytes) (stream ppid : ℕ) (opts : SendOptions)
      (polls : List SelectPoll)
      → Quiet fd (send_with p a msg stream ppid opts polls)
  unfolding send_with sendmsg_call
  Quiet-send_with a msg stream ppid opts polls = Quiet-send_loop a.fd _ polls (Quiet-issue fd _ tt)

  Quiet-attempted : {A : Type 0} (m : Io A) → Quiet fd m → Quiet fd (attempted m)
  unfolding attempted
  Quiet-attempted m q = record {
    same = λ os h. q.same os h;
    opens_none = λ os h. q.opens_none os h;
  }

  pub Quiet-addrs_via : (d : Fd) (peer : Bool) → Quiet fd (addrs_via p d (pos 0) peer)
  unfolding addrs_via
  Quiet-addrs_via d true = search (quiet_laws, Quiet-issue)
  Quiet-addrs_via d false = search (quiet_laws, Quiet-issue)

  Quiet-use_once : (a : SctpAssociation) (u : Use) → Quiet fd (use_once p a u)
  unfolding use_once shutdown abort peer_addrs local_addrs
  Quiet-use_once a (sends msg stream ppid opts polls) =
      Quiet-attempted _ (Quiet-send_with a msg stream ppid opts polls)
  Quiet-use_once a shuts_down = Quiet-attempted _ (Quiet-syscall_ fd _ tt)
  Quiet-use_once a (aborts polls) =
      Quiet-attempted _ (Quiet-bind fd (Quiet-send_with a _ _ _ _ polls) (λ n. Quiet-pure fd tt))
  Quiet-use_once a asks_peer = Quiet-attempted _ (Quiet-addrs_via a.fd true)
  Quiet-use_once a asks_local = Quiet-attempted _ (Quiet-addrs_via a.fd false)

  pub Quiet-use_all : (a : SctpAssociation) (us : List Use) → Quiet fd (use_all p a us)
  unfolding use_all
  Quiet-use_all a [] = Quiet-pure fd tt
  Quiet-use_all a (u ∷ us) = Quiet-bind fd (Quiet-use_once a u) (λ _. Quiet-use_all a us)
