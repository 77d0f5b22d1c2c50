-- ===== src/Lib.antt =====
-- async-sctp: SCTP associations for the tokio runtime on the kernel's SCTP of Linux.
--
-- A crate user holds one of three sockets. `SctpAssociation` (src/association.rs) is one connection:
-- it connects, sends messages and receives them. `SctpListener` (src/listener.rs) accepts
-- associations. `SctpServer` (src/server.rs) serves many associations on one socket and can peel one
-- off into an `SctpAssociation`. All three open a descriptor, apply an `SctpConfig` to it, bind
-- addresses, and register it with the runtime. A receive makes one `sctp_recvmsg` at a time, and
-- `Reassembly` (src/recv.rs), which lives in the socket, joins the fragments of a message;
-- notifications of the kernel are parsed by src/notification.rs. A notification that an association
-- is over closes its `ended` semaphore, which wakes a send that waits for room and ends a receive
-- that finds nothing.
--
-- Which file models which part:
--   Sys, Error, Types, Ppid: the constants, structures, errors and texts of src/sys.rs,
--     src/error.rs, src/types.rs and src/ppid.rs. Ppid/Names reads the identifiers back, Ppid/Cases
--     has the unit tests.
--   Platform: the parameters from the `libc` crate (constants, sizes and the memory layout of the
--     socket address structures) and, in `IsPlatform`, the facts of them that proofs use.
--   Kernel: the calls of the kernel and of the runtime. `Io` is a computation that makes calls. It
--     takes the kernel `Os`, any function from the calls made before to an answer, and the history of
--     calls, the latest first, and is done, failed with an `SctpError`, or waits. `?` is the bind of
--     `Io`; `closing` is a value that owns a descriptor and closes it when an error returns.
--     Kernel/Bind has the laws of one computation after another, Kernel/Frame the computations that
--     leave a descriptor alone, Kernel/Ledger and Kernel/Open what a computation opens and closes,
--     Kernel/Prompt those that never wait, and Kernel/Script the calls of those that no call of the
--     kernel refuses.
--   Addr: src/addr.rs (`to_raw`, `from_raw`, `pack`, `parse_array`). Addr/RoundTrip has its laws.
--   Config: src/config.rs. Config/Apply has the settings that `apply` makes.
--   Notification: src/notification.rs. Notification/Parse has the parser's laws,
--     Notification/Event those of the event of an association change.
--   Recv: src/recv.rs (`Reassembly::recv_step` is `recv_step`, `push_chunk` is `push_chunk`). The
--     answer of `sctp_recvmsg` is an argument. Recv/Chunks has the steps, Recv/Bounds the length of
--     the read buffer, Recv/Conserved the data that one read moves, and Recv/Cases the unit tests.
--   Socket: the helpers on a descriptor that src/association.rs shares, and src/reactor.rs.
--     Socket/Ownership counts how often a descriptor is closed.
--   Association: src/association.rs. Association/Receive is `recv_msg` and `recv`, Association/Send
--     is `send`, `send_with`, `shutdown` and `abort`, Association/Connect is the `connect` family,
--     `from_raw_fd` and `established` (`wait_established`), Association/Addrs is `peer_addrs` and
--     `local_addrs`, Association/Lifetime has the drop of the socket. Association/Shared interleaves
--     the reads of receives with the polls of a send.
--   Listener: src/listener.rs, with `accept` and `local_addr` in Listener/Accept.
--   Server: src/server.rs. The modules below it have its laws.
--   Python: src/python.rs, the bindings to Python: `PyIo` is a computation that may build the
--     runtime, calls the crate and returns, raises an exception, or waits. Python/Config,
--     Python/Association, Python/Listener and Python/Server are the classes `PyConfig`,
--     `PyAssociation`, `PyListener` and `PyServer`, Python/Ppids the constants. Python/Invalid is
--     about texts that are no address, Python/Reparsed about texts of addresses given back,
--     Python/Config/Settings about the keyword arguments. Python/Assembly puts the classes and the
--     constants into the module. Python/Server/Runs says what the loop of a receive comes to.
--   Examples: `owning` is the rest of a scope that owns a socket and drops it at its end.
--     Examples/ManyEcho is src/examples/many_echo.rs. Examples/EchoServer is the task that
--     src/examples/echo_server.rs starts for each association, and Examples/EchoServer/Program the
--     whole of it: a state of many tasks, a step for each time that the accept loop or a task goes
--     on, and the events that say which one does and what it is shown. Examples/Client has the
--     clients of src/examples/echo_client.rs, src/examples/perf.rs and of the two phases of
--     src/examples/leak_check.rs, Examples/Answering the server that the last two start, and
--     Examples/LeakCheck the allocator and the verdict. Examples/Echoed puts the client of
--     echo_client and a task of echo_server together, each on a kernel of its own.
--   Tests: a concrete platform, and the theorems at concrete values.
--
-- Awaits: what the runtime shows to a waiting task (readable, writable, an error; for a send also
-- whether `ended` is closed) is an argument, a list with one entry for each time the task is woken.
-- Where the list ends the future still waits, so a prefix of the list is a future that was dropped
-- there. The loops are structural recursion on this list. Only `recv`, whose rounds take one entry
-- or more, is on fuel: one more than the number of entries, and `recv_lem` of
-- Association/Receive/Steps shows that it is the loop of the source with no fuel in it; and `recv` of
-- the server in Python and the loops of the three echo servers, on the same fuel, for which
-- Python/Server/Steps, Examples/ManyEcho/Steps, Examples/EchoServer/Steps and
-- Examples/Answering/Rounds show it.
--
-- Simplifications. A Rust integer is a natural number; wrap-around is written out where the code has
-- a cast or a byte order. An address structure is its bytes, without the padding's values. Locks are
-- left out, since no lock is held across an await. In a receive, `clear_ready` of the runtime is not
-- recorded. An `io::Error` is an error number, or a kind with a text. That `sctp_recvmsg` returns no
-- more bytes than the window is what the kernel promises, so the slice of the read buffer is a
-- `take`.
--
-- In the bindings to Python, `FromStr` and `Display` of std and the variable of the environment are
-- parameters (`Std`), and an awaitable is run to its end, so a call that raises before it makes the
-- awaitable and one that raises when it is awaited are not told apart.
--
-- Not modelled: src/lib.rs (names only), pyo3 with its asyncio bridge, what the examples print and how
-- they read their arguments, that the runtime drops the tasks that are left when `main` returns, the
-- integration tests and those in Python, and the build files.
pub mod Common
pub mod Sys
pub mod Error
pub mod Examples
pub mod Platform
pub mod Addr
pub mod Kernel
pub mod Config
pub mod Notification
pub mod Ppid
pub mod Types
pub mod Recv
pub mod Socket
pub mod Association
pub mod Listener
pub mod Server
pub mod Python
pub mod Tests
