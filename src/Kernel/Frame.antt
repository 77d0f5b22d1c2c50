-- ===== src/Kernel/Frame.antt =====
-- What a computation does to a descriptor: how often it closes and registers it.
use async_sctp.Common.{ℕ, suc, ◌+◌, ◌≡◌, refl, ◌∙◌, Bool, true, false, [], ◌∷◌, ◌==◌, if◌then◌else◌}
use async_sctp.Error.{SctpError, io, os_error}
use async_sctp.Kernel.{
  Fd, Call, socket, close, register, Ret, ret, fail, History, Os, Run, done, failed, waiting, Io,
  pure, throw, wait, and_then, ◌>>=◌, issue, ignore, checked, syscall, syscall_,
}

-- How often the history closes the descriptor.
abbrev pub closes : Fd → History → ℕ
closes fd [] = 0
closes fd (close d ∷ h) = if d == fd then suc (closes fd h) else closes fd h
closes fd (c ∷ h) = closes fd h

-- How often the history registers the descriptor with the runtime.
abbrev pub registers : Fd → History → ℕ
registers fd [] = 0
registers fd (register d ∷ h) = if d == fd then suc (registers fd h) else registers fd h
registers fd (c ∷ h) = registers fd h

abbrev pub gives : Fd → Ret → ℕ
gives fd (ret d) = if d == fd then 1 else 0
gives fd (fail errno) = 0

-- How often a `socket` call of the history gave the descriptor.
abbrev pub opens : Fd → Os → History → ℕ
opens fd os [] = 0
opens fd os (socket domain type protocol ∷ h) =
    gives fd (os h (socket domain type protocol)).result + opens fd os h
opens fd os (c ∷ h) = opens fd os h

abbrev pub SameCounts : Fd → History → History → Type 0
SameCounts fd h g = (closes fd g ≡ closes fd h) × (registers fd g ≡ registers fd h)

abbrev pub after : {A : Type 0} → Run A → History
after (done a h) = h
after (failed e h) = h
after (waiting h) = h

-- `m` neither closes nor registers the descriptor, and opens no socket.
pub record Quiet {A : Type 0} (fd : Fd) (m : Io A) : Type 0 where
  pub same : (os : Os) (h : History) → SameCounts fd h (after (m os h))
  pub opens_none : (os : Os) (h : History) → opens fd os (after (m os h)) ≡ opens fd os h

abbrev pub IsQuietCall : Call → Type 0
IsQuietCall (close fd) = ⊥
IsQuietCall (register fd) = ⊥
IsQuietCall (socket domain type protocol) = ⊥
IsQuietCall c = Unit {0}

module _ (fd : Fd) where
  pub Quiet-pure : {A : Type 0} (a : A) → Quiet fd (pure a)
  unfolding pure
  Quiet-pure a = record { same = λ os h. (refl, refl); opens_none = λ os h. refl }

  pub Quiet-throw : (A : Type 0) (e : SctpError) → Quiet fd (throw {A = A} e)
  unfolding throw
  Quiet-throw A e = record { same = λ os h. (refl, refl); opens_none = λ os h. refl }

  pub Quiet-wait : (A : Type 0) → Quiet fd (wait {A = A})
  unfolding wait
  Quiet-wait A = record { same = λ os h. (refl, refl); opens_none = λ os h. refl }

  SameCounts-call : (c : Call) (h : History) → IsQuietCall c → SameCounts fd h (c ∷ h)
  SameCounts-call (close d) h q = absurd q
  SameCounts-call (register d) h q = absurd q
  SameCounts-call (socket domain type protocol) h q = absurd q
  SameCounts-call c h q = (refl, refl)

  opens-call :
      (os : Os) (c : Call) (h : History) → IsQuietCall c → opens fd os (c ∷ h) ≡ opens fd os h
  opens-call os (socket domain type protocol) h q = absurd q
  opens-call os (close d) h q = refl
  opens-call os c h q = refl

  pub Quiet-issue : (c : Call) → IsQuietCall c → Quiet fd (issue c)
  unfolding issue
  Quiet-issue c q = record {
    same = λ os h. SameCounts-call c h q;
    opens_none = λ os h. opens-call os c h q;
  }

  pub Quiet-checked : (r : Ret) → Quiet fd (checked r)
  unfolding checked
  Quiet-checked (ret n) = Quiet-pure n
  Quiet-checked (fail errno) = Quiet-throw ℕ (io (os_error errno))

  Quiet-and_then :
      {A B : Type 0} (f : A → Io B) (os : Os) (h : History) (r : Run A)
      → SameCounts fd h (after r)
      → ((a : A) → Quiet fd (f a))
      → SameCounts fd h (after (and_then os r f))
  Quiet-and_then f os h (done a g) p q = let s = (q a).same os g in (s.0 ∙ p.0, s.1 ∙ p.1)
  Quiet-and_then f os h (failed e g) p q = p
  Quiet-and_then f os h (waiting g) p q = p

  opens-and_then :
      {A B : Type 0} (f : A → Io B) (os : Os) (h : History) (r : Run A)
      → opens fd os (after r) ≡ opens fd os h
      → ((a : A) → Quiet fd (f a))
      → opens fd os (after (and_then os r f)) ≡ opens fd os h
  opens-and_then f os h (done a g) p q = (q a).opens_none os g ∙ p
  opens-and_then f os h (failed e g) p q = p
  opens-and_then f os h (waiting g) p q = p

  pub Quiet-bind :
      {A B : Type 0} {m : Io A} {f : A → Io B}
      → Quiet fd m
      → ((a : A) → Quiet fd (f a))
      → Quiet fd (m >>= f)
  unfolding ◌>>=◌
  Quiet-bind {m} {f} p q = record {
    same = λ os h. Quiet-and_then f os h (m os h) (p.same os h) q;
    opens_none = λ os h. opens-and_then f os h (m os h) (p.opens_none os h) q;
  }

  pub Quiet-syscall : (c : Call) → IsQuietCall c → Quiet fd (syscall c)
  Quiet-syscall c q = Quiet-bind (Quiet-issue c q) (λ a. Quiet-checked a.result)

  pub Quiet-syscall_ : (c : Call) → IsQuietCall c → Quiet fd (syscall_ c)
  Quiet-syscall_ c q = Quiet-bind (Quiet-syscall c q) (λ _. Quiet-pure tt)

  pub Quiet-ignore : (c : Call) → IsQuietCall c → Quiet fd (ignore c)
  Quiet-ignore c q = Quiet-bind (Quiet-issue c q) (λ _. Quiet-pure tt)

  pub Quiet-if :
      {A : Type 0} {m n : Io A} (b : Bool) → Quiet fd m → Quiet fd n → Quiet fd (if b then m else n)
  Quiet-if true p q = p
  Quiet-if false p q = q

pub ruleset quiet_laws = (
  Quiet-pure, Quiet-throw, Quiet-wait, Quiet-checked, Quiet-bind, Quiet-syscall, Quiet-syscall_,
  Quiet-ignore, Quiet-if,
)
