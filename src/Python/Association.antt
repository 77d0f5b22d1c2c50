-- ===== src/Python/Association.antt =====
-- `PyAssociation`.
use async_sctp.Common.{ℕ, List, [], Bool, Option, none, some, Bytes, map, Text}
use async_sctp.Error.{Result, ok}
use async_sctp.Platform.{Platform}
use async_sctp.Association.{SctpAssociation, default_options}
use async_sctp.Association.Addrs
use async_sctp.Association.Connect
use async_sctp.Association.Connect.{connect_with, connect_from}
use async_sctp.Association.Receive
use async_sctp.Association.Receive.{Poll, returned, pending}
use async_sctp.Association.Send
use async_sctp.Association.Send.{SelectPoll, send_with}
use async_sctp.Types.{RecvInfo}
use async_sctp.Python.{
  Std, err, PyPoll, over, waits, value, exception, PyIo, pure, ◌>>=◌, ◌>>◌, call, init_runtime,
  parse_addr, parse_addrs, PyRecvInfo, from_info,
}
use async_sctp.Python.Config.{PyConfig, config_of}

pub record PyAssociation : Type 0 where
  pub inner : SctpAssociation

abbrev pub texts_or_none : Option (List Text) → List Text
texts_or_none none = []
texts_or_none (some texts) = texts

module _ (s : Std) (p : Platform) where
  unfoldable pub connect : Text → Option PyConfig → List Connect.Wake → PyIo PyAssociation
  connect addr config ws = do
    init_runtime s
    sa ← parse_addr s addr
    a ← call s (connect_with p sa (config_of config) ws)
    pure (record { inner = a })

  unfoldable pub connect_multi :
      List Text → Option PyConfig → Option (List Text) → List Connect.Wake → PyIo PyAssociation
  connect_multi addrs config local_addrs ws = do
    init_runtime s
    sas ← parse_addrs s addrs
    local ← parse_addrs s (texts_or_none local_addrs)
    a ← call s (connect_from p local sas (config_of config) ws)
    pure (record { inner = a })

  unfoldable pub send : PyAssociation → Bytes → ℕ → ℕ → Bool → ℕ → List SelectPoll → PyIo ℕ
  send a msg stream ppid unordered ttl_ms polls = call s (
      send_with p a.inner msg stream ppid
        (record default_options { unordered = unordered; ttl_ms = ttl_ms }) polls)

  -- What `recv` of the crate gives, for Python.
  abbrev pub for_python :
      Poll (Bytes × RecvInfo) → PyPoll PyAssociation Receive.Wake (Bytes × PyRecvInfo)
  for_python (returned (ok (bytes, info)) a ws) =
      over (value (bytes, from_info info)) (record { inner = a }) ws
  for_python (returned (Result.err e) a ws) = over (exception (err s e)) (record { inner = a }) ws
  for_python (pending a) = waits (record { inner = a })

  unfoldable pub recv :
      PyAssociation → List Receive.Wake → PyPoll PyAssociation Receive.Wake (Bytes × PyRecvInfo)
  recv a ws = for_python (Receive.recv p a.inner ws)

  unfoldable pub peer_addrs : PyAssociation → PyIo (List Text)
  peer_addrs a = do addrs ← call s (Addrs.peer_addrs p a.inner); pure (map s.socket_addr_text addrs)

  unfoldable pub local_addrs : PyAssociation → PyIo (List Text)
  local_addrs a = do
    addrs ← call s (Addrs.local_addrs p a.inner)
    pure (map s.socket_addr_text addrs)

  unfoldable pub shutdown : PyAssociation → PyIo (Unit {0})
  shutdown a = call s (Send.shutdown p a.inner)

  unfoldable pub abort : PyAssociation → List SelectPoll → PyIo (Unit {0})
  abort a polls = call s (Send.abort p a.inner polls)
