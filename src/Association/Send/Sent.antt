-- ===== src/Association/Send/Sent.antt =====
-- Every outcome of a send, by what was asked of the kernel.
use async_sctp.Common.{
  ℕ, ◌≡◌, refl, ◌⊎◌, inl, inr, ◌∷◌, [], Bool, true, false, Bool-cases, Option, none, some, List,
  Bytes,
}
use async_sctp.Error.{IoError, SctpError, io, os_error, not_connected}
use async_sctp.Platform.{Platform, is_would_block}
use async_sctp.Kernel.{
  Fd, Call, Ret, ret, fail, History, Os, Run, done, failed, waiting, Io, pure, throw, wait, ◌>>=◌,
  issue,
}
use async_sctp.Association.{SctpAssociation, SendOptions}
use async_sctp.Association.Send.{
  Readiness, ready, reactor_error, SelectPoll, sendmsg_call, after_send, on_poll, send_loop,
  send_with,
}

-- From `h` to `g` the call was made some number of times, each time refused as it would block,
-- and each time the readiness was cleared.
pub data Retried (p : Platform) (os : Os) (fd : Fd) (call : Call) (h : History)
    : History → Type 0 where
  none_yet : Retried p os fd call h h
  once_more :
      {g : History} (errno : ℕ)
      → Retried p os fd call h g
      → (os g call).result ≡ fail errno
      → is_would_block p errno ≡ true
      → Retried p os fd call h (Call.clear_ready fd ∷ call ∷ g)

module _ (p : Platform) (os : Os) (fd : Fd) (call : Call) (h : History) where
  -- The kernel accepted the message at the last of the calls, and answered `n`.
  pub record Accepted (n : ℕ) (g : History) : Type 0 where
    pub before : History
    pub retried : Retried p os fd call h before
    pub answer : (os before call).result ≡ ret n
    pub calls : g ≡ call ∷ before

  -- It refused the message for a reason other than a full buffer.
  pub record Refused (e : SctpError) (g : History) : Type 0 where
    pub before : History
    pub errno : ℕ
    pub retried : Retried p os fd call h before
    pub answer : (os before call).result ≡ fail errno
    pub other : is_would_block p errno ≡ false
    pub error : e ≡ io (os_error errno)
    pub calls : g ≡ call ∷ before

  -- The message was never accepted: the association was over, or the runtime failed.
  pub record GaveUp (e : SctpError) (g : History) : Type 0 where
    pub retried : Retried p os fd call h g
    pub error : (e ≡ not_connected) ⊎ ((x : IoError) × (e ≡ io x))

  abbrev pub Sent : Run ℕ → Type 0
  Sent (done n g) = Accepted n g
  Sent (failed e g) = Refused e g ⊎ GaveUp e g
  Sent (waiting g) = Retried p os fd call h g

module _ (p : Platform) (os : Os) (fd : Fd) (call : Call) (h : History) where
  -- What a continuation of the loop is known to do.
  abbrev Goes : Io ℕ → Type 0
  Goes m = (g : History) → Retried p os fd call h g → Sent p os fd call h (m os g)

  after_send-Sent :
      (m : Io ℕ) (g : History) (r : Ret)
      → Goes m
      → Retried p os fd call h g
      → (os g call).result ≡ r
      → Sent p os fd call h (after_send p fd r m os (call ∷ g))
  unfolding after_send pure throw ◌>>=◌ issue
  after_send-Sent m g (ret n) next t e = record {
    before = g;
    retried = t;
    answer = e;
    calls = refl;
  }
  after_send-Sent m g (fail errno) next t e = elim (Bool-cases (is_would_block p errno)) [
    | inl full ↦ rw full (next (Call.clear_ready fd ∷ call ∷ g) (once_more errno t e full))
    | inr other ↦ rw other (
        inl (record {
          before = g;
          errno = errno;
          retried = t;
          answer = e;
          other = other;
          error = refl;
          calls = refl;
        }))
  ]

  on_poll-Sent :
      (m : Io ℕ) (r : Option Readiness) (closed : Bool)
      → Goes m
      → Goes (on_poll p fd call r closed m)
  unfolding on_poll throw ◌>>=◌ issue
  on_poll-Sent m (some ready) closed next g t = after_send-Sent m g _ next t refl
  on_poll-Sent m (some (reactor_error x)) closed next g t =
      inr (record { retried = t; error = inr (x, refl) })
  on_poll-Sent m none true next g t = inr (record { retried = t; error = inl refl })
  on_poll-Sent m none false next g t = next g t

  pub send_loop-Sent : (polls : List SelectPoll) → Goes (send_loop p fd call polls)
  unfolding send_loop wait
  send_loop-Sent [] g t = t
  send_loop-Sent (q ∷ polls) g t = on_poll-Sent _ q.readiness q.closed (send_loop-Sent polls) g t

-- A send that returns a count has made one accepted `sctp_sendmsg` with exactly its arguments,
-- after any number that found the buffer full. One that returns an error has none accepted:
-- either the kernel refused the last call and the error is its `errno`, or the association was
-- over or the runtime failed. While it waits none is accepted.
pub send_with-Sent :
    (p : Platform) (a : SctpAssociation) (msg : Bytes) (stream ppid : ℕ) (opts : SendOptions)
    (polls : List SelectPoll) (os : Os) (h : History)
    → Sent p os a.fd
        (sendmsg_call p a.fd msg stream ppid opts)
        h
        (send_with p a msg stream ppid opts polls os h)
unfolding send_with
send_with-Sent p a msg stream ppid opts polls os h =
    send_loop-Sent p os a.fd (sendmsg_call p a.fd msg stream ppid opts) h polls h none_yet
