-- ===== src/Kernel/Bind.antt =====
-- One computation after another.
use async_sctp.Common.{◌≡◌, refl}
use async_sctp.Kernel.{History, Os, Run, done, failed, waiting, Io, and_then, ◌>>=◌}

module _ {A B : Type 0} (os : Os) where
  pub and_then-and_then :
      {C : Type 0} (r : Run A) (f : A → Io B) (g : B → Io C)
      → and_then os (and_then os r f) g ≡ and_then os r (λ a. f a >>= g)
  unfolding ◌>>=◌
  and_then-and_then (done a h) f g = refl
  and_then-and_then (failed e h) f g = refl
  and_then-and_then (waiting h) f g = refl

  pub and_then-ap :
      (r : Run A) (f g : A → Io B)
      → ((a : A) (h : History) → f a os h ≡ g a os h)
      → and_then os r f ≡ and_then os r g
  and_then-ap (done a h) f g same = same a h
  and_then-ap (failed e h) f g same = refl
  and_then-ap (waiting h) f g same = refl
