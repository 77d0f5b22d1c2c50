-- ===== src/Python/Server.antt =====
-- `PyServer`.
pub mod Runs
pub mod Skips
pub mod Steps
use async_sctp.Common.{ℕ, zero, suc, ℤ, Bool, List, Option, Bytes, Text, length}
use async_sctp.Error.{ok}
use async_sctp.Platform.{Platform}
use async_sctp.Association.{default_options}
use async_sctp.Association.Receive.{Wake}
use async_sctp.Association.Send.{Readiness}
use async_sctp.Server
use async_sctp.Server.{
  SctpServer, ServerMessage, message, notice, Poll, returned, pending, bind_config, bind_multi_with,
  send_with,
}
use async_sctp.Python.{
  Std, err, PyPoll, over, waits, value, exception, PyIo, pure, ◌>>=◌, call, in_runtime, parse_addr,
  parse_addrs, PyRecvInfo, from_info,
}
use async_sctp.Python.Association.{PyAssociation}
use async_sctp.Python.Config.{PyConfig, config_of}

pub record PyServer : Type 0 where
  pub inner : SctpServer

module _ (s : Std) (p : Platform) where
  unfoldable pub bind : Text → Option PyConfig → PyIo PyServer
  bind addr config = do
    sa ← parse_addr s addr
    server ← in_runtime s (bind_config p sa (config_of config))
    pure (record { inner = server })

  unfoldable pub bind_multi : List Text → Option PyConfig → PyIo PyServer
  bind_multi addrs config = do
    sas ← parse_addrs s addrs
    server ← in_runtime s (bind_multi_with p sas (config_of config))
    pure (record { inner = server })

  -- A message with its info and the text of its peer.
  abbrev pub Message : Type 0
  Message = Bytes × PyRecvInfo × Text

  -- The `match` on what `recv` of the crate gave; `again` is the next round of the loop.
  abbrev pub on_message :
      Poll → (SctpServer → List Wake → PyPoll PyServer Wake Message) → PyPoll PyServer Wake Message
  on_message (returned (ok (message bytes info addr)) server ws) again =
      over (value (bytes, from_info info, s.socket_addr_text addr)) (record { inner = server }) ws
  on_message (returned (ok (notice n)) server ws) again = again server ws
  on_message (returned (async_sctp.Error.err e) server ws) again =
      over (exception (err s e)) (record { inner = server }) ws
  on_message (pending server) again = waits (record { inner = server })

  -- The loop of `recv` on fuel. Each round takes at least one wake.
  unfoldable pub recv_loop : ℕ → SctpServer → List Wake → PyPoll PyServer Wake Message
  recv_loop zero server ws = waits (record { inner = server })
  recv_loop (suc fuel) server ws = on_message (Server.recv p server ws) (recv_loop fuel)

  unfoldable pub recv : PyServer → List Wake → PyPoll PyServer Wake Message
  recv server ws = recv_loop (suc (length ws)) server.inner ws

  unfoldable pub send : PyServer → ℤ → Bytes → ℕ → ℕ → Bool → ℕ → List Readiness → PyIo ℕ
  send server assoc_id msg stream ppid unordered ttl_ms rs = call s (
      send_with p server.inner assoc_id msg stream ppid
        (record default_options { unordered = unordered; ttl_ms = ttl_ms }) rs)

  unfoldable pub peeloff : PyServer → ℤ → PyIo PyAssociation
  peeloff server assoc_id = do
    a ← in_runtime s (Server.peeloff p server.inner assoc_id)
    pure (record { inner = a })

  unfoldable pub local_addr : PyServer → PyIo Text
  local_addr server = do a ← call s (Server.local_addr p server.inner); pure (s.socket_addr_text a)
