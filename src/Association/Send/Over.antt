-- ===== src/Association/Send/Over.antt =====
-- A send does not wait for ever on an association that is over.
use async_sctp.Common.{
  ℕ, ◌≡◌, inl, inr, ◌∷◌, [], ◌++◌, Bool, true, false, Bool-cases, Option, none, some, List, Bytes,
}
use async_sctp.Platform.{Platform, is_would_block}
use async_sctp.Kernel.{Fd, Call, Ret, ret, fail, History, Os, Io, pure, throw, ◌>>=◌, issue}
use async_sctp.Kernel.Prompt.{IsOver}
use async_sctp.Association.{SctpAssociation, SendOptions}
use async_sctp.Association.Send.{
  Readiness, ready, reactor_error, SelectPoll, sendmsg_call, after_send, on_poll, send_loop,
  send_with,
}

module _ (p : Platform) (os : Os) (fd : Fd) (call : Call) where
  -- A continuation that returns, whatever was called before.
  abbrev pub Returns : Io ℕ → Type 0
  Returns m = (h : History) → IsOver (m os h)

  after_send-Returns : (m : Io ℕ) (r : Ret) → Returns m → Returns (after_send p fd r m)
  unfolding after_send pure throw ◌>>=◌ issue
  after_send-Returns m (ret n) next h = tt
  after_send-Returns m (fail errno) next h = elim (Bool-cases (is_would_block p errno)) [
    | inl full ↦ rw full (next (Call.clear_ready fd ∷ h))
    | inr other ↦ rw other tt
  ]

  pub on_poll-Returns :
      (m : Io ℕ) (r : Option Readiness) (closed : Bool)
      → Returns m
      → Returns (on_poll p fd call r closed m)
  unfolding on_poll throw ◌>>=◌ issue
  on_poll-Returns m (some ready) closed next h = after_send-Returns m _ next (call ∷ h)
  on_poll-Returns m (some (reactor_error x)) closed next h = tt
  on_poll-Returns m none true next h = tt
  on_poll-Returns m none false next h = next h

  send_loop-Returns :
      (polls : List SelectPoll) (q : SelectPoll) (rest : List SelectPoll)
      → q.readiness ≡ none
      → q.closed ≡ true
      → Returns (send_loop p fd call (polls ++ q ∷ rest))
  unfolding send_loop
  send_loop-Returns [] q rest n c h = unfold on_poll throw in rw (n, c) tt
  send_loop-Returns (x ∷ polls) q rest n c h =
      on_poll-Returns _ x.readiness x.closed (send_loop-Returns polls q rest n c) h

-- A send that waits for room in the buffer returns at the latest when it is polled after the end
-- of the association was noted, whatever happened at the polls before.
pub send_with-IsOver :
    (p : Platform) (a : SctpAssociation) (msg : Bytes) (stream ppid : ℕ) (opts : SendOptions)
    (os : Os) (h : History)
    → (polls : List SelectPoll) (q : SelectPoll) (rest : List SelectPoll) → q.readiness ≡ none
    → q.closed ≡ true
    → IsOver (send_with p a msg stream ppid opts (polls ++ q ∷ rest) os h)
unfolding send_with
send_with-IsOver p a msg stream ppid opts os h polls q rest n c =
    send_loop-Returns p os a.fd (sendmsg_call p a.fd msg stream ppid opts) polls q rest n c h
