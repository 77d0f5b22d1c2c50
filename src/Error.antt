-- ===== src/Error.antt =====
-- src/error.rs: `SctpError`, with the part of `std::io::Error` that the crate makes and reads, and
-- the `Result` of a computation that makes no system call.
use async_sctp.Common.{ℕ, Text}

-- The kinds of the errors that the crate itself makes by `io::Error::new`.
pub data ErrorKind : Type 0 where
  invalid_input invalid_data : ErrorKind

pub data IoError : Type 0 where
  os_error : ℕ → IoError
  custom : ErrorKind → Text → IoError

pub data SctpError : Type 0 where
  io : IoError → SctpError
  peer_shutdown : SctpError
  notification : Text → SctpError
  invalid_address : Text → SctpError
  not_connected : SctpError

pub data Result {ℓ} (A : Type ℓ) : Type ℓ where
  ok : A → Result A
  err : SctpError → Result A
