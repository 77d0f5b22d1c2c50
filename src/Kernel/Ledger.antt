-- ===== src/Kernel/Ledger.antt =====
-- Descriptors opened and closed: what a computation leaves open, from the calls it makes.
use async_sctp.Common.{ℕ, ◌+◌, ◌≡◌, arith, Bool, ◌==◌, if◌then◌else◌}
use async_sctp.Kernel.{
  Fd, History, Os, Run, done, failed, waiting, Io, pure, and_then, ◌>>=◌, close_failed, closing,
}
use async_sctp.Kernel.Frame.{closes, opens, after, Quiet}

abbrev pub tally : Bool → ℕ
tally b = if b then 1 else 0

-- From `h` to `g` the descriptor `d` was given by `socket` calls as often as it was closed, and
-- `n` times more.
abbrev pub Opened : Fd → ℕ → Os → History → History → Type 0
Opened d n os h g = closes d h + opens d os g ≡ n + (closes d g + opens d os h)

-- Over, with a result or an error: all that was opened is closed.
abbrev pub Balanced : {A : Type 0} → Fd → Os → History → Run A → Type 0
Balanced d os h (done a g) = Opened d 0 os h g
Balanced d os h (failed e g) = Opened d 0 os h g
Balanced d os h (waiting g) = Unit {0}

-- A computation that has taken over `n` openings of the descriptor: with a result they are still
-- open, with an error they are closed.
abbrev pub Holds : {A : Type 0} → Fd → ℕ → Os → History → Run A → Type 0
Holds d n os h (done a g) = Opened d 0 os h g
Holds d n os h (failed e g) = n + (closes d h + opens d os g) ≡ closes d g + opens d os h
Holds d n os h (waiting g) = Unit {0}

module _ (d : Fd) (os : Os) where
  pub Opened-Quiet :
      {A : Type 0} {m : Io A} (h : History) → Quiet d m → Opened d 0 os h (after (m os h))
  Opened-Quiet h q = let s = (q.same os h).0 in let o = q.opens_none os h in omega arith

  close_failed-Holds :
      {A : Type 0} (fd : Fd) (h : History) (r : Run A)
      → Opened d 0 os h (after r)
      → Holds d (tally (fd == d)) os h (close_failed fd r)
  close_failed-Holds fd h (done a g) e = e
  close_failed-Holds fd h (failed x g) e = ground arith
  close_failed-Holds fd h (waiting g) e = tt

  pub Holds-closing :
      {A : Type 0} {m : Io A} (fd : Fd) (h : History)
      → Quiet d m
      → Holds d (tally (fd == d)) os h (closing fd m os h)
  unfolding closing
  Holds-closing {m} fd h q = close_failed-Holds fd h (m os h) (Opened-Quiet h q)

  Holds-move :
      {A : Type 0} (n : ℕ) (h g : History) (r : Run A)
      → Opened d 0 os h g
      → Holds d n os g r
      → Holds d n os h r
  Holds-move n h g (done a k) o q = omega arith
  Holds-move n h g (failed e k) o q = omega arith
  Holds-move n h g (waiting k) o q = tt

  Holds-and_then :
      {A B : Type 0} (n : ℕ) (h : History) (r : Run A) (f : A → Io B)
      → Holds d n os h r
      → ((a : A) (g : History) → Holds d n os g (f a os g))
      → Holds d n os h (and_then os r f)
  Holds-and_then n h (done a g) f q next = Holds-move n h g (f a os g) q (next a g)
  Holds-and_then n h (failed e g) f q next = q
  Holds-and_then n h (waiting g) f q next = tt

  pub Holds-bind :
      {A B : Type 0} (n : ℕ) (m : Io A) (f : A → Io B) (h : History)
      → Holds d n os h (m os h)
      → ((a : A) (g : History) → Holds d n os g (f a os g))
      → Holds d n os h ((m >>= f) os h)
  unfolding ◌>>=◌
  Holds-bind n m f h q next = Holds-and_then n h (m os h) f q next

  pub Holds-pure : {A : Type 0} (n : ℕ) (a : A) (h : History) → Holds d n os h (pure a os h)
  unfolding pure
  Holds-pure n a h = omega arith

  Balanced-move :
      {A : Type 0} (h g : History) (r : Run A)
      → Opened d 0 os h g
      → Balanced d os g r
      → Balanced d os h r
  Balanced-move h g (done a k) o q = omega arith
  Balanced-move h g (failed e k) o q = omega arith
  Balanced-move h g (waiting k) o q = tt

  pub Balanced-and_then :
      {A B : Type 0} (h : History) (r : Run A) (f : A → Io B)
      → Balanced d os h r
      → ((a : A) (g : History) → Balanced d os g (f a os g))
      → Balanced d os h (and_then os r f)
  Balanced-and_then h (done a g) f q next = Balanced-move h g (f a os g) q (next a g)
  Balanced-and_then h (failed e g) f q next = q
  Balanced-and_then h (waiting g) f q next = tt

  pub Balanced-bind :
      {A B : Type 0} (m : Io A) (f : A → Io B) (h : History)
      → Balanced d os h (m os h)
      → ((a : A) (g : History) → Balanced d os g (f a os g))
      → Balanced d os h ((m >>= f) os h)
  unfolding ◌>>=◌
  Balanced-bind m f h q next = Balanced-and_then h (m os h) f q next

  pub Balanced-pure : {A : Type 0} (a : A) (h : History) → Balanced d os h (pure a os h)
  unfolding pure
  Balanced-pure a h = omega arith
