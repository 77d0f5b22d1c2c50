-- ===== src/Kernel/Open.antt =====
-- Computations that close no descriptor of others unless they fail.
use async_sctp.Common.{◌≡◌, ◌∙◌}
use async_sctp.Kernel.{Fd, History, Os, Run, done, failed, waiting, Io, and_then, ◌>>=◌}
use async_sctp.Kernel.Frame.{closes, after, Quiet}

-- Over or not, a computation that did not fail has not closed the descriptor.
abbrev pub KeepsOpen : {A : Type 0} → Fd → History → Run A → Type 0
KeepsOpen d h (done a g) = closes d g ≡ closes d h
KeepsOpen d h (failed e g) = Unit {0}
KeepsOpen d h (waiting g) = closes d g ≡ closes d h

module _ (d : Fd) (os : Os) where
  pub Quiet-KeepsOpen : {A : Type 0} (m : Io A) (h : History) → Quiet d m → KeepsOpen d h (m os h)
  Quiet-KeepsOpen m h q = quiet_run (m os h) (q.same os h).0
    where
      quiet_run : {A : Type 0} (r : Run A) → closes d (after r) ≡ closes d h → KeepsOpen d h r
      quiet_run (done a g) e = e
      quiet_run (failed e' g) e = tt
      quiet_run (waiting g) e = e

  pub KeepsOpen-move :
      {A : Type 0} (h g : History) (r : Run A)
      → closes d g ≡ closes d h
      → KeepsOpen d g r
      → KeepsOpen d h r
  KeepsOpen-move h g (done a k) e q = q ∙ e
  KeepsOpen-move h g (failed e' k) e q = tt
  KeepsOpen-move h g (waiting k) e q = q ∙ e

  KeepsOpen-and_then :
      {A B : Type 0} (h : History) (r : Run A) (f : A → Io B)
      → KeepsOpen d h r
      → ((a : A) (g : History) → KeepsOpen d g (f a os g))
      → KeepsOpen d h (and_then os r f)
  KeepsOpen-and_then h (done a g) f q next = KeepsOpen-move h g (f a os g) q (next a g)
  KeepsOpen-and_then h (failed e g) f q next = tt
  KeepsOpen-and_then h (waiting g) f q next = q

  pub KeepsOpen-bind :
      {A B : Type 0} (m : Io A) (f : A → Io B) (h : History)
      → KeepsOpen d h (m os h)
      → ((a : A) (g : History) → KeepsOpen d g (f a os g))
      → KeepsOpen d h ((m >>= f) os h)
  unfolding ◌>>=◌
  KeepsOpen-bind m f h q next = KeepsOpen-and_then h (m os h) f q next
