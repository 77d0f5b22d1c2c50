-- ===== src/Kernel/Prompt.antt =====
-- Computations without an await: they always return.
use async_sctp.Common.{ℕ, Bool, true, false, if◌then◌else◌}
use async_sctp.Error.{SctpError, io, os_error}
use async_sctp.Kernel.{
  Fd, Call, Ret, ret, fail, History, Os, Run, done, failed, waiting, Io, pure, throw, and_then,
  ◌>>=◌, issue, ignore, checked, syscall, syscall_, close_failed, closing,
}

abbrev pub IsOver : {A : Type 0} → Run A → Type 0
IsOver (done a h) = Unit {0}
IsOver (failed e h) = Unit {0}
IsOver (waiting h) = ⊥

pub record IsPrompt {A : Type 0} (m : Io A) : Type 0 where
  pub over : (os : Os) (h : History) → IsOver (m os h)

pub IsPrompt-pure : {A : Type 0} (a : A) → IsPrompt (pure a)
unfolding pure
IsPrompt-pure a = record { over = λ os h. tt }

pub IsPrompt-throw : (A : Type 0) (e : SctpError) → IsPrompt (throw {A = A} e)
unfolding throw
IsPrompt-throw A e = record { over = λ os h. tt }

pub IsPrompt-issue : (c : Call) → IsPrompt (issue c)
unfolding issue
IsPrompt-issue c = record { over = λ os h. tt }

pub IsPrompt-checked : (r : Ret) → IsPrompt (checked r)
unfolding checked
IsPrompt-checked (ret n) = IsPrompt-pure n
IsPrompt-checked (fail errno) = IsPrompt-throw ℕ (io (os_error errno))

IsOver-and_then :
    {A B : Type 0} (f : A → Io B) (os : Os) (r : Run A)
    → IsOver r
    → ((a : A) → IsPrompt (f a))
    → IsOver (and_then os r f)
IsOver-and_then f os (done a g) p q = (q a).over os g
IsOver-and_then f os (failed e g) p q = tt
IsOver-and_then f os (waiting g) p q = p

pub IsPrompt-bind :
    {A B : Type 0} {m : Io A} {f : A → Io B}
    → IsPrompt m
    → ((a : A) → IsPrompt (f a))
    → IsPrompt (m >>= f)
unfolding ◌>>=◌
IsPrompt-bind {m} {f} p q = record { over = λ os h. IsOver-and_then f os (m os h) (p.over os h) q }

IsOver-close_failed : {A : Type 0} (fd : Fd) (r : Run A) → IsOver r → IsOver (close_failed fd r)
IsOver-close_failed fd (done a g) p = tt
IsOver-close_failed fd (failed e g) p = tt
IsOver-close_failed fd (waiting g) p = p

pub IsPrompt-closing : {A : Type 0} {m : Io A} (fd : Fd) → IsPrompt m → IsPrompt (closing fd m)
unfolding closing
IsPrompt-closing {m} fd p = record { over = λ os h. IsOver-close_failed fd (m os h) (p.over os h) }

pub IsPrompt-syscall : (c : Call) → IsPrompt (syscall c)
IsPrompt-syscall c = IsPrompt-bind (IsPrompt-issue c) (λ a. IsPrompt-checked a.result)

pub IsPrompt-syscall_ : (c : Call) → IsPrompt (syscall_ c)
IsPrompt-syscall_ c = IsPrompt-bind (IsPrompt-syscall c) (λ _. IsPrompt-pure tt)

pub IsPrompt-ignore : (c : Call) → IsPrompt (ignore c)
IsPrompt-ignore c = IsPrompt-bind (IsPrompt-issue c) (λ _. IsPrompt-pure tt)

pub IsPrompt-if :
    {A : Type 0} {m n : Io A} (b : Bool) → IsPrompt m → IsPrompt n → IsPrompt (if b then m else n)
IsPrompt-if true p q = p
IsPrompt-if false p q = q

pub ruleset prompt_laws = (
  IsPrompt-pure, IsPrompt-throw, IsPrompt-issue, IsPrompt-checked, IsPrompt-bind, IsPrompt-closing,
  IsPrompt-syscall, IsPrompt-syscall_, IsPrompt-ignore, IsPrompt-if,
)
