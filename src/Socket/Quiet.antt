-- ===== src/Socket/Quiet.antt =====
-- The helpers on a descriptor neither close nor register one.
use async_sctp.Common.{ℕ, Bool, List}
use async_sctp.Platform.{Platform}
use async_sctp.Addr.{SocketAddr}
use async_sctp.Kernel.{Fd}
use async_sctp.Kernel.Frame.{Quiet, quiet_laws, Quiet-issue}
use async_sctp.Config.Apply.{Quiet-apply}
use async_sctp.Socket.{
  set_nonblocking, set_v6only, set_reuseaddr, configure_events, check_so_error, probe, outcome,
  allow_v4, bind_primary, bind_further,
}

module _ (fd : Fd) (p : Platform) (d : Fd) where
  pub Quiet-set_nonblocking : Quiet fd (set_nonblocking p d)
  unfolding set_nonblocking
  Quiet-set_nonblocking = search quiet_laws

  pub Quiet-set_v6only : (on : Bool) → Quiet fd (set_v6only p d on)
  unfolding set_v6only
  Quiet-set_v6only on = search quiet_laws

  pub Quiet-set_reuseaddr : Quiet fd (set_reuseaddr p d)
  unfolding set_reuseaddr
  Quiet-set_reuseaddr = search quiet_laws

  pub Quiet-configure_events : Quiet fd (configure_events d)
  unfolding configure_events
  Quiet-configure_events = search quiet_laws

  pub Quiet-check_so_error : Quiet fd (check_so_error p d)
  unfolding check_so_error
  Quiet-check_so_error = search (quiet_laws, Quiet-issue)

  pub Quiet-probe : Quiet fd (probe p d)
  unfolding probe
  Quiet-probe = search (quiet_laws, Quiet-issue)

  pub Quiet-outcome : Quiet fd (outcome p d)
  unfolding outcome
  Quiet-outcome = search (quiet_laws, Quiet-check_so_error, Quiet-probe)

  pub Quiet-allow_v4 : (domain : ℕ) → Quiet fd (allow_v4 p domain d)
  Quiet-allow_v4 domain = search (quiet_laws, Quiet-set_v6only)

  pub Quiet-bind_primary : (primary : SocketAddr) → Quiet fd (bind_primary p d primary)
  unfolding bind_primary
  Quiet-bind_primary primary = search quiet_laws

  pub Quiet-bind_further : (addrs : List SocketAddr) → Quiet fd (bind_further p d addrs)
  unfolding bind_further
  Quiet-bind_further addrs = search quiet_laws

pub ruleset quiet_socket = (
  quiet_laws, Quiet-apply, Quiet-set_nonblocking, Quiet-set_reuseaddr, Quiet-configure_events,
  Quiet-outcome, Quiet-allow_v4, Quiet-bind_primary, Quiet-bind_further,
)
