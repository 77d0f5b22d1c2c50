-- ===== src/Examples.antt =====
-- src/examples: programs that use the crate.
pub mod Answering
pub mod Client
pub mod Echoed
pub mod EchoServer
pub mod LeakCheck
pub mod ManyEcho
use async_sctp.Common.{List, [], ◌∷◌}
use async_sctp.Kernel.{Fd, Call, Run, done, failed, waiting, Io}

-- What each `send` of a program sees of the runtime is a list of lists; nothing beyond it.
abbrev pub next_send : {A : Type 0} → List (List A) → List A
next_send [] = []
next_send (seen ∷ sends) = seen

abbrev pub later_sends : {A : Type 0} → List (List A) → List (List A)
later_sends [] = []
later_sends (seen ∷ sends) = sends

abbrev pub closed_after : {A : Type 0} → Fd → Run A → Run A
closed_after fd (done x h) = done x (Call.close fd ∷ h)
closed_after fd (failed e h) = failed e (Call.close fd ∷ h)
closed_after fd (waiting h) = waiting h

-- The rest of a scope that owns a socket, which is dropped at its end, also on an error or a
-- panic.
unfoldable pub owning : {A : Type 0} → Fd → Io A → Io A
owning fd m os h = closed_after fd (m os h)
