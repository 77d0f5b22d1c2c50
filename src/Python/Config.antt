-- ===== src/Python/Config.antt =====
-- `PyConfig`, the keyword arguments of `SctpConfig` in Python.
pub mod Settings
use async_sctp.Common.{ℕ, ltb, ◌||◌, Bool, Option, none, some, if◌then◌else◌}
use async_sctp.Config.{SctpConfig, default_config, streams, nodelay, recv_buf, send_buf, autoclose}

pub record PyConfig : Type 0 where
  pub inner : SctpConfig

-- `if let Some(a) = o { c = f(c, a); }`.
abbrev pub set_some :
    {A : Type 0} → (SctpConfig → A → SctpConfig) → Option A → SctpConfig → SctpConfig
set_some f none c = c
set_some f (some a) c = f c a

unfoldable pub new :
    (out_streams max_in_streams : ℕ) → Option Bool → Option ℕ → Option ℕ → Option ℕ → PyConfig
new out_streams max_in_streams nodelay? recv_buf? send_buf? autoclose? =
    let c0 = default_config in
    let c1 =
      if ltb 0 out_streams || ltb 0 max_in_streams
      then streams c0 out_streams max_in_streams
      else c0 in
    let c2 = set_some nodelay nodelay? c1 in
    let c3 = set_some recv_buf recv_buf? c2 in
    let c4 = set_some send_buf send_buf? c3 in
    let c5 = set_some autoclose autoclose? c4 in record { inner = c5 }

-- `config.map(|c| c.inner).unwrap_or_default()`.
abbrev pub config_of : Option PyConfig → SctpConfig
config_of none = default_config
config_of (some c) = c.inner
