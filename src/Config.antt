-- ===== src/Config.antt =====
-- src/config.rs: `InitMsg`, `SctpConfig` with its setters, and `apply`.
pub mod Apply
use async_sctp.Common.{ℕ, Bool, true, false, Option, none, some, ℤ, pos, as_c_int, if◌then◌else◌}
use async_sctp.Platform.{Platform}
use async_sctp.Sys.{sol_sctp, sctp_initmsg, sctp_nodelay, sctp_autoclose, SctpInitMsg}
use async_sctp.Kernel.{Fd, OptionValue, int, init, Call, Io, pure, ◌>>=◌, ◌>>◌, syscall_}

pub record InitMsg : Type 0 where
  pub out_streams : ℕ
  pub max_in_streams : ℕ
  pub max_attempts : ℕ
  pub max_init_timeo : ℕ

pub record SctpConfig : Type 0 where
  pub init : Option InitMsg
  pub nodelay : Option Bool
  pub recv_buf : Option ℕ
  pub send_buf : Option ℕ
  pub autoclose_secs : Option ℕ

-- `InitMsg::default()`.
abbrev pub default_init : InitMsg
default_init = record { out_streams = 0; max_in_streams = 0; max_attempts = 0; max_init_timeo = 0 }

-- `SctpConfig::new()` and `SctpConfig::default()`.
abbrev pub default_config : SctpConfig
default_config = record {
  init = none;
  nodelay = none;
  recv_buf = none;
  send_buf = none;
  autoclose_secs = none;
}

-- `get_or_insert(InitMsg::default())`.
abbrev pub init_or_default : Option InitMsg → InitMsg
init_or_default none = default_init
init_or_default (some i) = i

unfoldable pub streams : SctpConfig → ℕ → ℕ → SctpConfig
streams c out max_in = record c {
  init = some (record (init_or_default c.init) { out_streams = out; max_in_streams = max_in });
}

unfoldable pub init_retransmit : SctpConfig → ℕ → ℕ → SctpConfig
init_retransmit c attempts timeo_ms = record c {
  init =
      some (record (init_or_default c.init) { max_attempts = attempts; max_init_timeo = timeo_ms });
}

unfoldable pub nodelay : SctpConfig → Bool → SctpConfig
nodelay c on = record c { nodelay = some on }

unfoldable pub recv_buf : SctpConfig → ℕ → SctpConfig
recv_buf c bytes = record c { recv_buf = some bytes }

unfoldable pub send_buf : SctpConfig → ℕ → SctpConfig
send_buf c bytes = record c { send_buf = some bytes }

unfoldable pub autoclose : SctpConfig → ℕ → SctpConfig
autoclose c secs = record c { autoclose_secs = some secs }

-- `b as c_int` of a `bool`.
abbrev pub bool_as_c_int : Bool → ℤ
bool_as_c_int true = pos 1
bool_as_c_int false = pos 0

abbrev pub raw_init : InitMsg → SctpInitMsg
raw_init i = record {
  sinit_num_ostreams = i.out_streams;
  sinit_max_instreams = i.max_in_streams;
  sinit_max_attempts = i.max_attempts;
  sinit_max_init_timeo = i.max_init_timeo;
}

unfoldable pub setsockopt : Fd → ℕ → ℕ → OptionValue → Io (Unit {0})
setsockopt fd level opt val = syscall_ (Call.setsockopt fd level opt val)

-- `if let Some(a) = o { f(a)?; }`.
abbrev pub if_some : {A : Type 0} → Option A → (A → Io (Unit {0})) → Io (Unit {0})
if_some none f = pure tt
if_some (some a) f = f a

unfoldable pub apply : Platform → SctpConfig → Fd → Io (Unit {0})
apply p c fd = do
  if_some c.init λ i. setsockopt fd sol_sctp sctp_initmsg (init (raw_init i))
  if_some c.nodelay λ on. setsockopt fd sol_sctp sctp_nodelay (int (bool_as_c_int on))
  if_some c.recv_buf λ b. setsockopt fd p.sol_socket p.so_rcvbuf (int (as_c_int b))
  if_some c.send_buf λ b. setsockopt fd p.sol_socket p.so_sndbuf (int (as_c_int b))
  if_some c.autoclose_secs λ secs. setsockopt fd sol_sctp sctp_autoclose (int (as_c_int secs))
