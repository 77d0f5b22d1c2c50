-- ===== src/Socket/Ownership.antt =====
-- How often a descriptor is closed on the way from its socket to its registration.
use async_sctp.Common.{ℕ, suc, ◌+◌, ◌≡◌, refl, arith, ◌∷◌}
use async_sctp.Kernel.{
  Fd, Call, Ret, ret, fail, History, Os, Run, done, failed, waiting, Io, pure, throw, and_then,
  ◌>>=◌, issue, checked, close_failed, closing,
}
use async_sctp.Kernel.Frame.{closes, registers, SameCounts, after, Quiet}
use async_sctp.Kernel.Prompt.{IsOver, IsPrompt}
use async_sctp.Socket.{register}

-- What became of the descriptor since the history `h`. Made: it is registered and open. Failed:
-- it was closed once, and once more if the registration was tried.
abbrev pub ClosedAgain : {A : Type 0} → Fd → History → Run A → Type 0
ClosedAgain fd h (done a g) = (closes fd g ≡ closes fd h) × (registers fd g ≡ suc (registers fd h))
ClosedAgain fd h (failed e g) = closes fd g + registers fd h ≡ suc (closes fd h) + registers fd g
ClosedAgain fd h (waiting g) = ⊥

-- Made: it is registered and open. Failed: it was closed exactly if the registration was tried.
abbrev pub ClosedIfRegistered : {A : Type 0} → Fd → History → Run A → Type 0
ClosedIfRegistered fd h (done a g) =
    (closes fd g ≡ closes fd h) × (registers fd g ≡ suc (registers fd h))
ClosedIfRegistered fd h (failed e g) = closes fd g + registers fd h ≡ closes fd h + registers fd g
ClosedIfRegistered fd h (waiting g) = ⊥

-- Made, or still waited for: it is open. Failed: it was closed exactly once.
abbrev pub ClosedOnce : {A : Type 0} → Fd → History → Run A → Type 0
ClosedOnce fd h (done a g) = closes fd g ≡ closes fd h
ClosedOnce fd h (failed e g) = closes fd g ≡ suc (closes fd h)
ClosedOnce fd h (waiting g) = closes fd g ≡ closes fd h

module _ (fd : Fd) where
  registered_answer :
      (os : Os) (h : History) (r : Ret)
      → ClosedIfRegistered fd h
          (close_failed fd (and_then os (checked r os (Call.register fd ∷ h)) (λ _. pure tt)))
  unfolding checked pure throw
  registered_answer os h (ret n) = ground arith
  registered_answer os h (fail errno) = ground arith

  pub register-ClosedIfRegistered :
      (os : Os) (h : History) → ClosedIfRegistered fd h (register fd os h)
  unfolding register closing ◌>>=◌ issue
  register-ClosedIfRegistered os h = registered_answer os h _

  ClosedIfRegistered-move :
      {A : Type 0} (h g : History) (r : Run A)
      → SameCounts fd h g
      → ClosedIfRegistered fd g r
      → ClosedIfRegistered fd h r
  ClosedIfRegistered-move h g (done a k) s c = omega arith
  ClosedIfRegistered-move h g (failed e k) s c = omega arith
  ClosedIfRegistered-move h g (waiting k) s c = c

  quiet_then :
      {A B : Type 0} (f : A → Io B) (os : Os) (h : History) (r : Run A)
      → SameCounts fd h (after r)
      → IsOver r
      → ((a : A) (g : History) → ClosedIfRegistered fd g (f a os g))
      → ClosedIfRegistered fd h (and_then os r f)
  quiet_then f os h (done a g) s o next = ClosedIfRegistered-move h g (f a os g) s (next a g)
  quiet_then f os h (failed e g) s o next = ground arith
  quiet_then f os h (waiting g) s o next = absurd o

  -- Calls that leave the descriptor alone before a registration.
  pub ClosedIfRegistered-bind :
      {A B : Type 0} (m : Io A) (f : A → Io B) (os : Os) (h : History)
      → Quiet fd m
      → IsPrompt m
      → ((a : A) (g : History) → ClosedIfRegistered fd g (f a os g))
      → ClosedIfRegistered fd h ((m >>= f) os h)
  unfolding ◌>>=◌
  ClosedIfRegistered-bind m f os h q p next =
      quiet_then f os h (m os h) (q.same os h) (p.over os h) next

  result_then :
      {A B : Type 0} (os : Os) (h : History) (r : Run A) (f : A → B)
      → ClosedIfRegistered fd h r
      → ClosedIfRegistered fd h (and_then os r (λ a. pure (f a)))
  unfolding pure
  result_then os h (done a g) f c = c
  result_then os h (failed e g) f c = c
  result_then os h (waiting g) f c = c

  -- A result computed from what the registration gave.
  pub ClosedIfRegistered-result :
      {A B : Type 0} (m : Io A) (os : Os) (h : History) (f : A → B)
      → ClosedIfRegistered fd h (m os h)
      → ClosedIfRegistered fd h ((m >>= λ a. pure (f a)) os h)
  unfolding ◌>>=◌
  ClosedIfRegistered-result m os h f c = result_then os h (m os h) f c

  close_failed-ClosedAgain :
      {A : Type 0} (h : History) (r : Run A)
      → ClosedIfRegistered fd h r
      → ClosedAgain fd h (close_failed fd r)
  close_failed-ClosedAgain h (done a g) c = c
  close_failed-ClosedAgain h (failed e g) c = ground arith
  close_failed-ClosedAgain h (waiting g) c = c

  -- A caller that closes the descriptor when setting it up fails.
  pub ClosedAgain-closing :
      {m : Io (Unit {0})} (os : Os) (h : History)
      → Quiet fd m
      → IsPrompt m
      → ClosedAgain fd h (closing fd (m >>= λ _. register fd) os h)
  unfolding closing
  ClosedAgain-closing {m} os h q p =
      close_failed-ClosedAgain h _
        (ClosedIfRegistered-bind m _ os h q p (λ _ g. register-ClosedIfRegistered os g))

  ClosedAgain-result :
      {A B : Type 0} (os : Os) (h : History) (r : Run A) (b : B)
      → ClosedAgain fd h r
      → ClosedAgain fd h (and_then os r (λ _. pure b))
  unfolding pure
  ClosedAgain-result os h (done a g) b c = c
  ClosedAgain-result os h (failed e g) b c = c
  ClosedAgain-result os h (waiting g) b c = c

  -- The same for a caller that goes on to return `b`, from the `socket` call on.
  pub ClosedAgain-socket :
      {B : Type 0} {m : Io (Unit {0})} (domain type protocol : ℕ) (os : Os) (h : History) (b : B)
      → Quiet fd m
      → IsPrompt m
      → ClosedAgain fd h (
          (closing fd (m >>= λ _. register fd) >>= λ _. pure b) os
            (Call.socket domain type protocol ∷ h))
  unfolding ◌>>=◌
  ClosedAgain-socket domain type protocol os h b q p =
      ClosedAgain-result os h _ b (ClosedAgain-closing os _ q p)

  close_failed-ClosedOnce :
      {A : Type 0} (h : History) (r : Run A)
      → SameCounts fd h (after r)
      → ClosedOnce fd h (close_failed fd r)
  close_failed-ClosedOnce h (done a g) s = s.0
  close_failed-ClosedOnce h (failed e g) s = ground arith
  close_failed-ClosedOnce h (waiting g) s = s.0

  pub ClosedOnce-closing :
      {A : Type 0} {m : Io A} (os : Os) (h : History)
      → Quiet fd m
      → ClosedOnce fd h (closing fd m os h)
  unfolding closing
  ClosedOnce-closing {m} os h q = close_failed-ClosedOnce h (m os h) (q.same os h)

  registered_once :
      (os : Os) (h : History) (r : Ret)
      → ClosedOnce fd h
          (close_failed fd (and_then os (checked r os (Call.register fd ∷ h)) (λ _. pure tt)))
  unfolding checked pure throw
  registered_once os h (ret n) = ground arith
  registered_once os h (fail errno) = ground arith

  pub register-ClosedOnce : (os : Os) (h : History) → ClosedOnce fd h (register fd os h)
  unfolding register closing ◌>>=◌ issue
  register-ClosedOnce os h = registered_once os h _

  ClosedOnce-move :
      {A : Type 0} (h g : History) (r : Run A)
      → closes fd g ≡ closes fd h
      → ClosedOnce fd g r
      → ClosedOnce fd h r
  ClosedOnce-move h g (done a k) s c = omega arith
  ClosedOnce-move h g (failed e k) s c = omega arith
  ClosedOnce-move h g (waiting k) s c = omega arith

  once_then :
      {A B : Type 0} (f : A → Io B) (os : Os) (h : History) (r : Run A)
      → ClosedOnce fd h r
      → ((a : A) (g : History) → ClosedOnce fd g (f a os g))
      → ClosedOnce fd h (and_then os r f)
  once_then f os h (done a g) c next = ClosedOnce-move h g (f a os g) c (next a g)
  once_then f os h (failed e g) c next = c
  once_then f os h (waiting g) c next = c

  pub ClosedOnce-bind :
      {A B : Type 0} (m : Io A) (f : A → Io B) (os : Os) (h : History)
      → ClosedOnce fd h (m os h)
      → ((a : A) (g : History) → ClosedOnce fd g (f a os g))
      → ClosedOnce fd h ((m >>= f) os h)
  unfolding ◌>>=◌
  ClosedOnce-bind m f os h c next = once_then f os h (m os h) c next

  pub ClosedOnce-pure : {A : Type 0} (a : A) (os : Os) (h : History) → ClosedOnce fd h (pure a os h)
  unfolding pure
  ClosedOnce-pure a os h = refl
