-- ===== src/Config/Apply.antt =====
-- `SctpConfig::apply` against the list of settings that a configuration asks for.
use async_sctp.Common.{ℕ, ◌≡◌, refl, Option, none, some, as_c_int, List, [], ◌∷◌, ◌++◌}
use async_sctp.Error.{io, os_error}
use async_sctp.Platform.{Platform}
use async_sctp.Sys.{sol_sctp, sctp_initmsg, sctp_nodelay, sctp_autoclose}
use async_sctp.Kernel.{
  Fd, OptionValue, int, init, Call, Ret, ret, fail, History, Os, Run, done, failed, Io, pure, throw,
  ◌>>=◌, ◌>>◌, issue, checked, and_then,
}
use async_sctp.Kernel.Frame.{Quiet, Quiet-pure, Quiet-bind, Quiet-syscall_}
use async_sctp.Config.{SctpConfig, raw_init, bool_as_c_int, setsockopt, if_some, apply}

-- A socket option with its value.
pub record Setting : Type 0 where
  pub level : ℕ
  pub name : ℕ
  pub value : OptionValue

abbrev pub setting : ℕ → ℕ → OptionValue → Setting
setting level name value = record { level = level; name = name; value = value }

abbrev pub set_call : Fd → Setting → Call
set_call fd s = Call.setsockopt fd s.level s.name s.value

abbrev pub asked : {A : Type 0} → Option A → (A → Setting) → List Setting
asked none g = []
asked (some a) g = g a ∷ []

-- What a configuration asks for, in the order of its fields: nothing where a field is `None`.
abbrev pub requested : Platform → SctpConfig → List Setting
requested p c =
    asked c.init (λ i. setting sol_sctp sctp_initmsg (init (raw_init i)))
    ++ (asked c.nodelay (λ on. setting sol_sctp sctp_nodelay (int (bool_as_c_int on)))
        ++ (asked c.recv_buf (λ b. setting p.sol_socket p.so_rcvbuf (int (as_c_int b)))
            ++ (asked c.send_buf (λ b. setting p.sol_socket p.so_sndbuf (int (as_c_int b)))
                ++ asked c.autoclose_secs
                    (λ s. setting sol_sctp sctp_autoclose (int (as_c_int s))))))

-- How a list of settings is made on `fd`: each in turn, up to the first that the kernel refuses,
-- whose error is the result.
pub data Applied (os : Os) (fd : Fd) : History → List Setting → Run (Unit {0}) → Type 0 where
  all_set : {h : History} → Applied os fd h [] (done tt h)
  set :
      {h : History} {s : Setting} {ss : List Setting} {r : Run (Unit {0})} (n : ℕ)
      → (os h (set_call fd s)).result ≡ ret n
      → Applied os fd (set_call fd s ∷ h) ss r
      → Applied os fd h (s ∷ ss) r
  refused :
      {h : History} {s : Setting} {ss : List Setting} (errno : ℕ)
      → (os h (set_call fd s)).result ≡ fail errno
      → Applied os fd h (s ∷ ss) (failed (io (os_error errno)) (set_call fd s ∷ h))

module _ (os : Os) (fd : Fd) where
  abbrev run_set : Setting → Io (Unit {0})
  run_set s = setsockopt fd s.level s.name s.value

  Applied-answer :
      (s : Setting) (ss : List Setting) (k : Io (Unit {0})) (h : History) (r : Ret)
      → (os h (set_call fd s)).result ≡ r
      → ((g : History) → Applied os fd g ss (k os g))
      → Applied os fd h
          (s ∷ ss)
          (and_then os (and_then os (checked r os (set_call fd s ∷ h)) (λ _. pure tt)) (λ _. k))
  unfolding checked pure throw
  Applied-answer s ss k h (ret n) e rest = set n e (rest _)
  Applied-answer s ss k h (fail errno) e rest = refused errno e

  Applied-set :
      (s : Setting) (ss : List Setting) (k : Io (Unit {0})) (h : History)
      → ((g : History) → Applied os fd g ss (k os g))
      → Applied os fd h (s ∷ ss) ((run_set s >> k) os h)
  unfolding setsockopt ◌>>=◌ issue
  Applied-set s ss k h rest = Applied-answer s ss k h _ refl rest

  Applied-if_some :
      {A : Type 0} (o : Option A) (g : A → Setting) (ss : List Setting) (k : Io (Unit {0}))
      (h : History)
      → ((g : History) → Applied os fd g ss (k os g))
      → Applied os fd h (asked o g ++ ss) ((if_some o (λ a. run_set (g a)) >> k) os h)
  unfolding ◌>>=◌ pure
  Applied-if_some none g ss k h rest = rest h
  Applied-if_some (some a) g ss k h rest = unfold ◌>>=◌ in Applied-set (g a) ss k h rest

  Applied-one :
      (s : Setting) (h : History) (r : Ret)
      → (os h (set_call fd s)).result ≡ r
      → Applied os fd h (s ∷ []) (and_then os (checked r os (set_call fd s ∷ h)) (λ _. pure tt))
  unfolding checked pure throw
  Applied-one s h (ret n) e = set n e all_set
  Applied-one s h (fail errno) e = refused errno e

  Applied-last :
      {A : Type 0} (o : Option A) (g : A → Setting) (h : History)
      → Applied os fd h (asked o g) (if_some o (λ a. run_set (g a)) os h)
  unfolding setsockopt ◌>>=◌ issue pure
  Applied-last none g h = all_set
  Applied-last (some a) g h = Applied-one (g a) h _ refl

  -- `apply` makes the settings that the configuration asks for, each once and in the order of the
  -- fields, stops at the first that the kernel refuses and returns its error, and does nothing
  -- else.
  pub apply-Applied :
      (p : Platform) (c : SctpConfig) (h : History)
      → Applied os fd h (requested p c) (apply p c fd os h)
  unfolding apply
  apply-Applied p c h = Applied-if_some c.init _ _ _ h λ h1.
      Applied-if_some c.nodelay _ _ _ h1 λ h2.
        Applied-if_some c.recv_buf _ _ _ h2
          λ h3. Applied-if_some c.send_buf _ _ _ h3 λ h4. Applied-last c.autoclose_secs _ h4

module _ (fd d : Fd) where
  Quiet-if_some :
      {A : Type 0} (o : Option A) (g : A → Setting)
      → Quiet fd (if_some o (λ a. setsockopt d (g a).level (g a).name (g a).value))
  unfolding setsockopt
  Quiet-if_some none g = Quiet-pure fd tt
  Quiet-if_some (some a) g = Quiet-syscall_ fd _ tt

  pub Quiet-apply : (p : Platform) (c : SctpConfig) → Quiet fd (apply p c d)
  unfolding apply
  Quiet-apply p c = Quiet-bind fd (Quiet-if_some c.init _) λ _.
      Quiet-bind fd (Quiet-if_some c.nodelay _) λ _.
        Quiet-bind fd (Quiet-if_some c.recv_buf _)
          λ _. Quiet-bind fd (Quiet-if_some c.send_buf _) λ _. Quiet-if_some c.autoclose_secs _
