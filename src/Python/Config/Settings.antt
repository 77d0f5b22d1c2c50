-- ===== src/Python/Config/Settings.antt =====
-- The socket options that the keyword arguments of Python come to.
use async_sctp.Common.{
  ℕ, ltb, ◌||◌, ◌≡◌, refl, Bool, Bool-cases, inl, inr, Option, none, some, List, [], ◌∷◌, ◌++◌,
  as_c_int, if◌then◌else◌, subst,
}
use async_sctp.Platform.{Platform}
use async_sctp.Sys.{sol_sctp, sctp_initmsg, sctp_nodelay, sctp_autoclose}
use async_sctp.Kernel.{Fd, int, init, History, Os}
use async_sctp.Config.{
  InitMsg, SctpConfig, bool_as_c_int, apply, streams, nodelay, recv_buf, send_buf, autoclose,
}
use async_sctp.Config.Apply.{Setting, setting, asked, requested, Applied, apply-Applied}
use async_sctp.Python.Config.{set_some, new}

-- The stream counts are set where one of them is not zero, with the kernel's defaults for the
-- attempts and the time; each of the others where it is given.
abbrev pub settings :
    Platform
    → (out_streams max_in_streams : ℕ) → Option Bool
    → Option ℕ
    → Option ℕ
    → Option ℕ
    → List Setting
settings p out max_in nodelay? recv_buf? send_buf? autoclose? =
    (if ltb 0 out || ltb 0 max_in
      then setting sol_sctp sctp_initmsg (
          init (record {
            sinit_num_ostreams = out;
            sinit_max_instreams = max_in;
            sinit_max_attempts = 0;
            sinit_max_init_timeo = 0;
          }))
        ∷ []
      else [])
    ++ (asked nodelay? (λ on. setting sol_sctp sctp_nodelay (int (bool_as_c_int on)))
        ++ (asked recv_buf? (λ b. setting p.sol_socket p.so_rcvbuf (int (as_c_int b)))
            ++ (asked send_buf? (λ b. setting p.sol_socket p.so_sndbuf (int (as_c_int b)))
                ++ asked autoclose? (λ t. setting sol_sctp sctp_autoclose (int (as_c_int t))))))

-- A configuration, field by field.
abbrev fields : Option InitMsg → Option Bool → Option ℕ → Option ℕ → Option ℕ → SctpConfig
fields i n r b a = record { init = i; nodelay = n; recv_buf = r; send_buf = b; autoclose_secs = a }

set_some-nodelay :
    (i : Option InitMsg) (n : Option Bool)
    → set_some nodelay n (fields i none none none none) ≡ fields i n none none none
unfolding nodelay
set_some-nodelay i none = refl
set_some-nodelay i (some on) = refl

set_some-recv_buf :
    (i : Option InitMsg) (n : Option Bool) (r : Option ℕ)
    → set_some recv_buf r (fields i n none none none) ≡ fields i n r none none
unfolding recv_buf
set_some-recv_buf i n none = refl
set_some-recv_buf i n (some bytes) = refl

set_some-send_buf :
    (i : Option InitMsg) (n : Option Bool) (r b : Option ℕ)
    → set_some send_buf b (fields i n r none none) ≡ fields i n r b none
unfolding send_buf
set_some-send_buf i n r none = refl
set_some-send_buf i n r (some bytes) = refl

set_some-autoclose :
    (i : Option InitMsg) (n : Option Bool) (r b a : Option ℕ)
    → set_some autoclose a (fields i n r b none) ≡ fields i n r b a
unfolding autoclose
set_some-autoclose i n r b none = refl
set_some-autoclose i n r b (some secs) = refl

requested-fields :
    (p : Platform) (i : Option InitMsg) (n : Option Bool) (r b a : Option ℕ)
    → requested p (
        set_some autoclose a (
          set_some send_buf b
            (set_some recv_buf r (set_some nodelay n (fields i none none none none)))))
      ≡ requested p (fields i n r b a)
requested-fields p i n r b a = rw (
  set_some-nodelay i n,
  set_some-recv_buf i n r,
  set_some-send_buf i n r b,
  set_some-autoclose i n r b a,
)

requested-new :
    (p : Platform) (out max_in : ℕ) (n : Option Bool) (r b a : Option ℕ)
    → requested p (new out max_in n r b a).inner ≡ settings p out max_in n r b a
unfolding new streams
requested-new p out max_in n r b a = elim (Bool-cases (ltb 0 out || ltb 0 max_in)) [
  | inl e ↦ rw e (
      requested-fields p
        (some (record {
          out_streams = out;
          max_in_streams = max_in;
          max_attempts = 0;
          max_init_timeo = 0;
        }))
        n r b a)
  | inr e ↦ rw e (requested-fields p none n r b a)
]

-- A configuration made from keyword arguments, applied to a descriptor, makes exactly the settings
-- that the arguments ask for, in their order, up to the first that the kernel refuses, whose
-- error is the result: the stream counts where one of them is not zero, and each other option
-- where it is given.
pub apply-new :
    (p : Platform) (out max_in : ℕ) (n : Option Bool) (r b a : Option ℕ) (os : Os) (fd : Fd)
    (h : History)
    → Applied os fd h
        (settings p out max_in n r b a)
        (apply p (new out max_in n r b a).inner fd os h)
apply-new p out max_in n r b a os fd h =
    subst (λ ss. Applied os fd h ss (apply p (new out max_in n r b a).inner fd os h))
      (requested-new p out max_in n r b a) (apply-Applied os fd p (new out max_in n r b a).inner h)
