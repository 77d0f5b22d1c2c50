-- ===== src/Python/Listener.antt =====
-- `PyListener`.
use async_sctp.Common.{List, Option, Text}
use async_sctp.Platform.{Platform}
use async_sctp.Listener.{SctpListener, bind_config, bind_multi_with}
use async_sctp.Listener.Accept
use async_sctp.Python.{Std, PyIo, pure, ◌>>=◌, call, in_runtime, parse_addr, parse_addrs}
use async_sctp.Python.Association.{PyAssociation}
use async_sctp.Python.Config.{PyConfig, config_of}

pub record PyListener : Type 0 where
  pub inner : SctpListener

module _ (s : Std) (p : Platform) where
  unfoldable pub bind : Text → Option PyConfig → PyIo PyListener
  bind addr config = do
    sa ← parse_addr s addr
    l ← in_runtime s (bind_config p sa (config_of config))
    pure (record { inner = l })

  unfoldable pub bind_multi : List Text → Option PyConfig → PyIo PyListener
  bind_multi addrs config = do
    sas ← parse_addrs s addrs
    l ← in_runtime s (bind_multi_with p sas (config_of config))
    pure (record { inner = l })

  unfoldable pub accept : PyListener → List Accept.Wake → PyIo (PyAssociation × Text)
  accept l ws = do
    (assoc, peer) ← call s (Accept.accept p l.inner ws)
    pure (record { inner = assoc }, s.socket_addr_text peer)

  unfoldable pub local_addr : PyListener → PyIo Text
  local_addr l = do a ← call s (Accept.local_addr p l.inner); pure (s.socket_addr_text a)
