-- ===== src/Association/Connect/Outcome.antt =====
-- What `established` decides, and that a refusal is always reported.
use async_sctp.Common.{ℕ, suc, ◌≡◌, ◌≢◌, arith, ◌⊎◌, ◌∷◌, Bool, true, false, ◌==◌, List}
use async_sctp.Error.{IoError, SctpError, io, os_error, not_connected}
use async_sctp.Platform.{Platform}
use async_sctp.Kernel.{
  Fd, Call, ret, fail, History, Os, Run, done, waiting, Io, pure, throw, ◌>>=◌, issue, checked,
}
use async_sctp.Socket.{Connecting, established, failed, connecting, check_so_error, outcome}
use async_sctp.Association.Connect.{
  Wake, writable, readable, writable_error, readable_error, wait_established,
}

suc_is_no_zero : (n : ℕ) → (suc n == 0) ≡ false
suc_is_no_zero n = ground arith

-- The first error of the runtime for a readiness that is still waited for: for writability any, for
-- readability one that comes before the socket was readable.
pub data Stops : Bool → List Wake → IoError → Type 0 where
  at_writable : {both : Bool} {ws : List Wake} {x : IoError} → Stops both (writable_error x ∷ ws) x
  at_readable : {ws : List Wake} {x : IoError} → Stops true (readable_error x ∷ ws) x
  after_writable :
      {both : Bool} {ws : List Wake} {x : IoError} → Stops both ws x → Stops both (writable ∷ ws) x
  after_readable : {ws : List Wake} {x : IoError} → Stops false ws x → Stops true (readable ∷ ws) x
  past_readable : {ws : List Wake} {x : IoError} → Stops false ws x → Stops false (readable ∷ ws) x
  past_readable_error :
      {ws : List Wake} {x y : IoError} → Stops false ws x → Stops false (readable_error y ∷ ws) x

module _ (p : Platform) (fd : Fd) where
  abbrev pub so_call : Call
  so_call = Call.getsockopt fd p.sol_socket p.so_error

  abbrev pub poll_call : Call
  poll_call = Call.poll fd p.pollout

  -- The last calls before `g`: the socket held no error, and then `poll` said `o` of it.
  pub record Says (os : Os) (o : Connecting) (g : History) : Type 0 where
    pub before : History
    pub calls : g ≡ poll_call ∷ so_call ∷ before
    pub no_error : (os before so_call).value ≡ 0
    pub polled :
        connecting p
          (os (so_call ∷ before) poll_call).result
          (os (so_call ∷ before) poll_call).value
        ≡ o

  -- The last call before `g` was for the socket error, and it failed or gave an error.
  pub record Reports (os : Os) (e : SctpError) (g : History) : Type 0 where
    pub before : History
    pub errno : ℕ
    pub calls : g ≡ so_call ∷ before
    pub error : e ≡ io (os_error errno)
    pub answer :
        ((os before so_call).result ≡ fail errno)
        ⊎ (((os before so_call).value ≡ errno) × (errno ≢ 0))

  -- What the end of the wait says of the association; `Stops` is of the errors of the runtime.
  abbrev pub Decided : (IoError → Type 0) → Os → Run (Unit {0}) → Type 0
  Decided Stops os (done u g) = Says os established g
  Decided Stops os (Run.failed e g) =
      Reports os e g
      ⊎ ((Says os failed g × (e ≡ not_connected)) ⊎ ((x : IoError) × (e ≡ io x) × Stops x))
  Decided Stops os (waiting g) = Unit {0}

  -- What one look at the socket gives.
  abbrev Looked : Os → Run Connecting → Type 0
  Looked os (done o g) = Says os o g
  Looked os (Run.failed e g) = Reports os e g
  Looked os (waiting g) = ⊥

  -- A continuation of the wait that decides rightly.
  abbrev Decides : (IoError → Type 0) → Io (Unit {0}) → Type 0
  Decides F m = (os : Os) (h : History) → Decided F os (m os h)

  -- The socket is writable or readable, which the wait looks at while both are waited for.
  abbrev pub Looks : Wake → Type 0
  Looks writable = Unit {0}
  Looks readable = Unit {0}
  Looks (writable_error x) = ⊥
  Looks (readable_error x) = ⊥

  refused_answer :
      (os : Os) (h : History) (n errno : ℕ) (f : Connecting → Io (Unit {0}))
      → (os h so_call).result ≡ ret n
      → (os h so_call).value ≡ suc errno
      → (outcome p fd >>= f) os h ≡ Run.failed (io (os_error (suc errno))) (so_call ∷ h)
  unfolding outcome check_so_error ◌>>=◌ issue checked pure throw
  refused_answer os h n errno f r v = rw (r, v, suc_is_no_zero errno)

  -- A refused connect is reported by its socket error as soon as the socket becomes readable or
  -- writable for the first time: the wait does not go on.
  pub wait_established-refused :
      (w : Wake) (ws : List Wake) (os : Os) (h : History) (n errno : ℕ)
      → Looks w
      → (os h so_call).result ≡ ret n
      → (os h so_call).value ≡ suc errno
      → wait_established p fd true (w ∷ ws) os h
        ≡ Run.failed (io (os_error (suc errno))) (so_call ∷ h)
  unfolding wait_established
  wait_established-refused writable ws os h n errno l r v = refused_answer os h n errno _ r v
  wait_established-refused readable ws os h n errno l r v = refused_answer os h n errno _ r v
  wait_established-refused (writable_error x) ws os h n errno l r v = absurd l
  wait_established-refused (readable_error x) ws os h n errno l r v = absurd l
