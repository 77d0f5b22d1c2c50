-- ===== src/Association/Lifetime.antt =====
-- An association from its connect to the drop of its socket, which closes the descriptor.
pub mod Closes
pub mod Quiet
use async_sctp.Common.{ℕ, Bytes, List, [], ◌∷◌}
use async_sctp.Platform.{Platform}
use async_sctp.Addr.{SocketAddr}
use async_sctp.Kernel.{Call, done, Io, pure, ◌>>=◌, ◌>>◌, ignore}
use async_sctp.Kernel.Frame.{after}
use async_sctp.Config.{SctpConfig}
use async_sctp.Association.{SctpAssociation, SendOptions}
use async_sctp.Association.Addrs.{peer_addrs, local_addrs}
use async_sctp.Association.Connect.{Wake, connect_bound}
use async_sctp.Association.Send.{SelectPoll, send_with, shutdown, abort}

-- `drop` of the socket.
unfoldable pub drop_socket : SctpAssociation → Io (Unit {0})
drop_socket a = ignore (Call.close a.fd)

-- A call of one of the operations that call the kernel.
pub data Use : Type 0 where
  sends : Bytes → (stream ppid : ℕ) → SendOptions → List SelectPoll → Use
  shuts_down : Use
  aborts : List SelectPoll → Use
  asks_peer asks_local : Use

-- The caller goes on whether the operation is done, has failed, or was dropped while it waits.
unfoldable pub attempted : {A : Type 0} → Io A → Io (Unit {0})
attempted m os h = done tt (after (m os h))

module _ (p : Platform) (a : SctpAssociation) where
  unfoldable pub use_once : Use → Io (Unit {0})
  use_once (sends msg stream ppid opts polls) = attempted (send_with p a msg stream ppid opts polls)
  use_once shuts_down = attempted (shutdown p a)
  use_once (aborts polls) = attempted (abort p a polls)
  use_once asks_peer = attempted (peer_addrs p a)
  use_once asks_local = attempted (local_addrs p a)

  unfoldable pub use_all : List Use → Io (Unit {0})
  use_all [] = pure tt
  use_all (u ∷ us) = use_once u >> use_all us

unfoldable pub lifetime :
    Platform → (local addrs : List SocketAddr) → SctpConfig → List Wake → List Use → Io (Unit {0})
lifetime p local addrs config ws us = do
  a ← connect_bound p local addrs config ws
  use_all p a us
  drop_socket a
