-- ===== src/Examples/EchoServer/Program/Descriptors.antt =====
-- Each association of the echo server is closed once, however its tasks are interleaved.
use async_sctp.Common.{
  ℕ, zero, suc, ◌+◌, ◌≡◌, refl, subst, ap, ◌∙◌, arith, Bytes, List, [], ◌∷◌, ◌++◌, Option, none,
  some, map, ◌==◌, if◌then◌else◌, true, false,
}
use async_sctp.Error.{ok, err, not_connected}
use async_sctp.Platform.{Platform}
use async_sctp.Addr.{SocketAddr}
use async_sctp.Kernel.{Fd, History, Os, Run, done, failed, waiting, ◌>>=◌, issue, pure}
use async_sctp.Kernel.Frame.{closes, after}
use async_sctp.Kernel.Open.{KeepsOpen}
use async_sctp.Listener.Open.{KeepsOpen-accept}
use async_sctp.Recv.{Step, would_block, more, notified, complete, stop, recv_step}
use async_sctp.Types.{RecvInfo}
use async_sctp.Association.{SctpAssociation, RecvResult, message, notice, default_options, ends}
use async_sctp.Association.Lifetime.{drop_socket}
use async_sctp.Association.Lifetime.Quiet.{Quiet-send_with}
use async_sctp.Association.Receive.{
  Wake, readable, reactor_error, Poll, returned, pending, on_step, recv_msg,
}
use async_sctp.Association.Send.{SelectPoll, send, send_with}
use async_sctp.Listener.{SctpListener}
use async_sctp.Listener.Accept.{accept}
use async_sctp.Examples.EchoServer.Program.{
  Task, receiving, answering, association, Event, accepts, receives, answers, Program, Left,
  on_received, on_sent, go_receive, go_answer, task_at, on_accepted, step, and_run, run,
}

-- The calls of `recv_msg` keep the descriptor of the association.
abbrev HasFd : Fd → Poll RecvResult → Type 0
HasFd fd (returned x a ws) = a.fd ≡ fd
HasFd fd (pending a) = a.fd ≡ fd

on_step-HasFd :
    (s : Step) (a : SctpAssociation) (ws : List Wake) (again : Poll RecvResult)
    → HasFd a.fd again
    → HasFd a.fd (on_step s a ws again)
on_step-HasFd would_block a ws again h =
    elim a.ended as (λ b. HasFd a.fd (if b then returned (err not_connected) a ws else again)) [
      | true ↦ refl
      | false ↦ h
    ]
on_step-HasFd more a ws again h = h
on_step-HasFd (notified n) a ws again h =
    elim (ends n) as (λ b. (if b then record a { ended = true } else a).fd ≡ a.fd) [
      | true ↦ refl
      | false ↦ refl
    ]
on_step-HasFd (complete bytes info addr) a ws again h = refl
on_step-HasFd (stop e) a ws again h = refl

recv_msg-HasFd :
    (p : Platform) (a : SctpAssociation) (ws : List Wake) → HasFd a.fd (recv_msg p a ws)
unfolding recv_msg
recv_msg-HasFd p a [] = refl
recv_msg-HasFd p a (reactor_error e ∷ ws) = refl
recv_msg-HasFd p a (readable r ∷ ws) =
    let b = record a { recv_state = (recv_step p false a.recv_state r).1 } in
    on_step-HasFd (recv_step p false a.recv_state r).0 b ws (recv_msg p b ws)
      (recv_msg-HasFd p b ws)

abbrev pub count : Fd → List Fd → ℕ
count d [] = 0
count d (fd ∷ fds) = if fd == d then suc (count d fds) else count d fds

-- The descriptors of some tasks.
abbrev pub fds : List Task → List Fd
fds = map λ t. (association t).fd

count-append : (d : Fd) (xs ys : List Fd) → count d (xs ++ ys) ≡ count d xs + count d ys
count-append d [] ys = omega arith
count-append d (x ∷ xs) ys = ground (arith, count-append d xs ys)

fds-append : (ts us : List Task) → fds (ts ++ us) ≡ fds ts ++ fds us
fds-append [] us = refl
fds-append (t ∷ ts) us = ap (λ ds. (association t).fd ∷ ds) (fds-append ts us)

-- What was open of the descriptor before is open or closed after.
abbrev Balanced : Fd → List Task → History → Left → Type 0
Balanced d ts h (us, g) = closes d g + count d (fds us) ≡ closes d h + count d (fds ts)

module _ (d : Fd) (p : Platform) (os : Os) where
  on_received-Balanced :
      (a : SctpAssociation) (h : History) (r : Poll RecvResult)
      → HasFd a.fd r
      → Balanced d (receiving a ∷ []) h (on_received os h r)
  unfolding drop_socket ◌>>=◌ issue pure
  on_received-Balanced a h (returned (ok (message bytes info)) b ws) same = ground (arith, same)
  on_received-Balanced a h (returned (ok (notice n)) b ws) same = ground (arith, same)
  on_received-Balanced a h (returned (err e) b ws) same = ground (arith, same)
  on_received-Balanced a h (pending b) same = ground (arith, same)

  go_receive-Balanced :
      (ws : List Wake) (t : Task) (h : History) → Balanced d (t ∷ []) h (go_receive p os ws t h)
  unfolding go_receive
  go_receive-Balanced ws (receiving a) h =
      on_received-Balanced a h (recv_msg p a ws) (recv_msg-HasFd p a ws)
  go_receive-Balanced ws (answering a bytes info) h = refl

  on_sent-Balanced :
      (a : SctpAssociation) (bytes : Bytes) (info : RecvInfo) (h : History) (r : Run ℕ)
      → closes d (after r) ≡ closes d h
      → Balanced d (receiving a ∷ []) h (on_sent a bytes info r)
  on_sent-Balanced a bytes info h (done n g) e = omega (arith, e)
  on_sent-Balanced a bytes info h (failed x g) e = omega (arith, e)
  on_sent-Balanced a bytes info h (waiting g) e = omega (arith, e)

  go_answer-Balanced :
      (polls : List SelectPoll) (t : Task) (h : History)
      → Balanced d (t ∷ []) h (go_answer p os polls t h)
  unfolding go_answer send
  go_answer-Balanced polls (receiving a) h = refl
  go_answer-Balanced polls (answering a bytes info) h =
      on_sent-Balanced a bytes info h
        (send_with p a bytes info.stream info.ppid default_options polls os h)
        ((Quiet-send_with d p a bytes info.stream info.ppid default_options polls).same os h).0

  task_at-Balanced :
      (i : ℕ) (go : Task → History → Left)
      → ((t : Task) (h : History) → Balanced d (t ∷ []) h (go t h))
      → (ts : List Task) (h : History) → Balanced d ts h (task_at p os i go ts h)
  unfolding task_at
  task_at-Balanced i go balanced [] h = refl
  task_at-Balanced zero go balanced (t ∷ ts) h =
      ground
        (arith, balanced t h, fds-append (go t h).0 ts, count-append d (fds (go t h).0) (fds ts))
  task_at-Balanced (suc i) go balanced (t ∷ ts) h =
      ground (arith, task_at-Balanced i go balanced ts h)

  -- What was closed of the descriptor since the history `base`, with what the tasks hold of it, is
  -- what accepts gave of it.
  abbrev pub Accounted : History → Program → Type 0
  Accounted base s = closes d s.history + count d (fds s.tasks) ≡ closes d base + count d s.given

  -- In a program that still runs.
  abbrev IsAccounted : History → Option Program → Type 0
  IsAccounted base none = Unit {0}
  IsAccounted base (some s) = Accounted base s

  on_accepted-IsAccounted :
      (base : History) (s : Program) (r : Run (SctpAssociation × SocketAddr))
      → Accounted base s
      → KeepsOpen d s.history r
      → IsAccounted base (on_accepted p os s r)
  on_accepted-IsAccounted base s (done (a, peer) h) is e = ground (arith, is, e)
  on_accepted-IsAccounted base s (failed x h) is e = tt
  on_accepted-IsAccounted base s (waiting h) is e = omega (arith, is, e)

  step-IsAccounted :
      (l : SctpListener) (base : History) (s : Program) (e : Event)
      → Accounted base s
      → IsAccounted base (step p os l s e)
  unfolding step
  step-IsAccounted l base s (accepts ws) is =
      on_accepted-IsAccounted base s (accept p l ws os s.history) is
        (KeepsOpen-accept d os p l ws s.history)
  step-IsAccounted l base s (receives i ws) is =
      task_at-Balanced i (go_receive p os ws) (go_receive-Balanced ws) s.tasks s.history ∙ is
  step-IsAccounted l base s (answers i polls) is =
      task_at-Balanced i (go_answer p os polls) (go_answer-Balanced polls) s.tasks s.history ∙ is

  run_on :
      (l : SctpListener) (base : History) (r : Option Program) (f : Program → Option Program)
      → IsAccounted base r
      → ((s : Program) → Accounted base s → IsAccounted base (f s))
      → IsAccounted base (and_run p os r f)
  run_on l base none f is next = tt
  run_on l base (some s) f is next = next s is

  run-IsAccounted :
      (l : SctpListener) (base : History) (es : List Event) (s : Program)
      → Accounted base s
      → IsAccounted base (run p os l s es)
  unfolding run
  run-IsAccounted l base [] s is = is
  run-IsAccounted l base (e ∷ es) s is =
      run_on l base (step p os l s e) (λ t. run p os l t es) (step-IsAccounted l base s e is)
        (run-IsAccounted l base es)

  -- However the accepts, receives and answers of the echo server are interleaved, and whatever the
  -- kernel and the runtime show to them, as long as the program runs each descriptor was given by
  -- an accept exactly as often as it was closed since the start and is held by a task: no
  -- association that was accepted is leaked or closed twice.
  pub run-Accounted :
      (l : SctpListener) (h : History) (es : List Event) (t : Program)
      → run p os l (record { tasks = []; history = h; given = [] }) es ≡ some t
      → Accounted h t
  run-Accounted l h es t e =
      subst (IsAccounted h) e
        (run-IsAccounted l h es (record { tasks = []; history = h; given = [] }) refl)
