-- ===== src/Kernel/Script.antt =====
-- Computations whose calls all succeed: the calls that they make, in order.
use async_sctp.Common.{
  ℕ, ◌≡◌, refl, sym, ap, ◌∙◌, Bool, true, false, List, [], ◌∷◌, ◌++◌, if◌then◌else◌,
}
use async_sctp.Kernel.{
  Fd, Call, ret, History, Os, done, Io, pure, and_then, ◌>>=◌, issue, ignore, checked, syscall,
  syscall_, close_failed, closing, when,
}

-- The history after the calls were made one after the other.
abbrev pub since : List Call → History → History
since [] h = h
since (c ∷ cs) h = since cs (c ∷ h)

pub since-append : (cs ds : List Call) (h : History) → since (cs ++ ds) h ≡ since ds (since cs h)
since-append [] ds h = refl
since-append (c ∷ cs) ds h = since-append cs ds (c ∷ h)

-- The kernel refuses no call.
abbrev pub Grants : Os → Type 0
Grants os = (h : History) (c : Call) → (n : ℕ) × ((os h c).result ≡ ret n)

-- On this kernel `m` makes the calls `cs`, in this order, and gives `a`.
pub record Does {A : Type 0} (os : Os) (m : Io A) (a : A) (cs : List Call) : Type 0 where
  pub does : (h : History) → m os h ≡ done a (since cs h)

module _ (os : Os) where
  pub Does-pure : {A : Type 0} (a : A) → Does os (pure a) a []
  unfolding pure
  Does-pure a = record { does = λ h. refl }

  pub Does-bind :
      {A B : Type 0} (m : Io A) (f : A → Io B) (a : A) (b : B) (cs ds : List Call)
      → Does os m a cs
      → Does os (f a) b ds
      → Does os (m >>= f) b (cs ++ ds)
  unfolding ◌>>=◌
  Does-bind m f a b cs ds d e = record {
    does = λ h.
        ap (λ r. and_then os r f) (d.does h)
        ∙ e.does (since cs h)
        ∙ ap (done b) (sym (since-append cs ds h));
  }

  pub Does-syscall :
      (c : Call) (n : ℕ)
      → ((h : History) → (os h c).result ≡ ret n)
      → Does os (syscall c) n (c ∷ [])
  unfolding ◌>>=◌ issue checked pure
  Does-syscall c n e = record { does = λ h. rw (e h) }

  module _ (grants : Grants os) where
    pub Does-syscall_ : (c : Call) → Does os (syscall_ c) tt (c ∷ [])
    unfolding ◌>>=◌ issue checked pure
    Does-syscall_ c = record { does = λ h. rw ((grants h c).1) }

  pub Does-ignore : (c : Call) → Does os (ignore c) tt (c ∷ [])
  unfolding ◌>>=◌ issue pure
  Does-ignore c = record { does = λ h. refl }

  pub Does-closing :
      {A : Type 0} (fd : Fd) (m : Io A) (a : A) (cs : List Call)
      → Does os m a cs
      → Does os (closing fd m) a cs
  unfolding closing
  Does-closing fd m a cs d = record { does = λ h. ap (close_failed fd) (d.does h) }

  pub Does-when :
      (b : Bool) (m : Io (Unit {0})) (cs : List Call)
      → Does os m tt cs
      → Does os (when b m) tt (if b then cs else [])
  Does-when true m cs d = d
  Does-when false m cs d = Does-pure tt

  pub Does-result :
      {A B : Type 0} (m : Io A) (a : A) (b : B) (cs : List Call)
      → Does os m a cs
      → Does os (m >>= λ _. pure b) b cs
  unfolding ◌>>=◌ pure
  Does-result m a b cs d = record { does = λ h. ap (λ r. and_then os r (λ _. pure b)) (d.does h) }
