-- ===== src/Socket/Prompt.antt =====
-- The helpers on a descriptor return at once.
use async_sctp.Common.{ℕ, Option, none, some, List}
use async_sctp.Platform.{Platform}
use async_sctp.Addr.{SocketAddr}
use async_sctp.Kernel.{Fd, Io}
use async_sctp.Kernel.Prompt.{IsPrompt, IsPrompt-pure, prompt_laws}
use async_sctp.Config.{SctpConfig, setsockopt, if_some, apply}
use async_sctp.Socket.{
  register, set_nonblocking, set_v6only, set_reuseaddr, configure_events, check_so_error, probe,
  outcome, allow_v4, bind_primary, bind_further,
}

IsPrompt-if_some :
    {A : Type 0} (o : Option A) (f : A → Io (Unit {0}))
    → ((a : A) → IsPrompt (f a))
    → IsPrompt (if_some o f)
IsPrompt-if_some none f p = IsPrompt-pure tt
IsPrompt-if_some (some a) f p = p a

pub IsPrompt-apply : (p : Platform) (c : SctpConfig) (fd : Fd) → IsPrompt (apply p c fd)
unfolding apply setsockopt
IsPrompt-apply p c fd = search (prompt_laws, IsPrompt-if_some) depth 10

module _ (p : Platform) (fd : Fd) where
  pub IsPrompt-register : IsPrompt (register fd)
  unfolding register
  IsPrompt-register = search prompt_laws

  pub IsPrompt-set_nonblocking : IsPrompt (set_nonblocking p fd)
  unfolding set_nonblocking
  IsPrompt-set_nonblocking = search prompt_laws

  pub IsPrompt-set_reuseaddr : IsPrompt (set_reuseaddr p fd)
  unfolding set_reuseaddr
  IsPrompt-set_reuseaddr = search prompt_laws

  pub IsPrompt-configure_events : IsPrompt (configure_events fd)
  unfolding configure_events
  IsPrompt-configure_events = search prompt_laws

  pub IsPrompt-outcome : IsPrompt (outcome p fd)
  unfolding outcome check_so_error probe
  IsPrompt-outcome = search prompt_laws depth 8

  pub IsPrompt-allow_v4 : (domain : ℕ) → IsPrompt (allow_v4 p domain fd)
  unfolding set_v6only
  IsPrompt-allow_v4 domain = search prompt_laws

  pub IsPrompt-bind_primary : (primary : SocketAddr) → IsPrompt (bind_primary p fd primary)
  unfolding bind_primary
  IsPrompt-bind_primary primary = search prompt_laws

  pub IsPrompt-bind_further : (addrs : List SocketAddr) → IsPrompt (bind_further p fd addrs)
  unfolding bind_further
  IsPrompt-bind_further addrs = search prompt_laws

pub ruleset prompt_socket = (
  prompt_laws, IsPrompt-apply, IsPrompt-register, IsPrompt-set_nonblocking, IsPrompt-set_reuseaddr,
  IsPrompt-configure_events, IsPrompt-outcome, IsPrompt-allow_v4, IsPrompt-bind_primary,
  IsPrompt-bind_further,
)
