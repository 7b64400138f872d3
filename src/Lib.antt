-- ===== src/Lib.antt =====
-- Verification of execenv: grants of execution environments on one host, with a terminal, a
-- projected file tree and a stream of file events each.
--
-- The parts of the program, and the files that model them:
--   errors.go, internal/mux/status.go: Errors, Errors/Status. Errors are values of a data type; an
--     OpError wraps another error; errors.Is follows the wrapping.
--   id.go, execenv.go: Names. Byte strings are lists of numbers, as Go's len and range over bytes see
--     them.
--   tree.go: Paths (limits, ValidatePath, ValidateEvent) and the tree types in Snapshot.
--   internal/tree/tree.go: Snapshot. A Go map is an association list with distinct keys; no theorem
--     observes its order. A loop over a slice is structural recursion on the list. The sum of body
--     sizes never passes 2^63, since it is checked after each body of at most 10 MiB.
--   internal/watchlog/watchlog.go: Watchlog. The 64-bit counter wraps as in Go; cursors are printed and
--     parsed by the functions that stand for strconv's. The random epoch is an argument.
--   internal/mux/mux.go: Mux. A connection is the list of bytes that the peer sent before it closed; Send
--     is what it writes, Recv takes bytes off the front. Mux/Write has the loop of partial writes, with
--     the outcomes of the calls of conn.Write as an argument.
--   agent/watch.go, agent/server.go: Agent and Agent/Server. A scan is a map from paths to what is there; the order of its entries is the
--     one in which Go ranges over it, and the theorems hold for each.
--     Agent/Server is the session's state, with Handle for the requests, Poll for the poll and Steps for
--     the goroutines; what the machine does for a step (the disk, the start of a shell, the JSON codec,
--     whether a frame can be sent) is a record of functions, which may differ at each step.
--   agent/client.go: Agent/Client. Calls, terminals and observations are addresses; Terminal and Observe
--     have the methods of one object, Calls the sections of a call, Session the read loop and the
--     sections of the other methods, Steps any interleaving of them.
--   remote/server.go: Remote/Dispatch, the dispatcher of one connection. A goroutine and its `done`
--     channel are one address; Steps has the read loop's and the goroutines' steps in any order.
--     Remote/Conn has the connection's tables and handlers over an interface, InnerHost, that stands for
--     the interfaces of execenv.go; Conn/OverMemory fills it with the in-process host. The handlers of
--     one grant run one at a time, by the dispatcher's order, so a handler is one step.
--   remote/config.go: Remote/Auth, with serverConn.auth.
--   daemon/config.go: Daemon, the checks of the operator's configuration, with ValidDigest of
--     isolated/catalog.go; Daemon/Save has Load and Save over a map of files, with the outcome of each
--     call of os and the JSON codec as arguments. A nil slice is an empty one.
--   build.go: Build. Version strings as bytes.
--   isolated/isolated.go: Isolated. The host's tables, and what Ensure, completeEnsure, waitEnsure and
--     Revoke do each time they hold the lock; Isolated/Run has any interleaving of these sections.
--   memory/memory.go, memory/tree.go: Memory. Pointers are addresses into a store that keeps every
--     object ever made, for handles outlive what they point to (Memory/State). A method takes the world,
--     the context's error on entry, and its arguments, and returns its result with the new world: the
--     terminal's in Memory/Terminal, the observation's in Memory/Observe, the environment's in
--     Memory/Env, the host's in Memory/Host. Every method holds one lock from its first access to its
--     last, so it is one step; Host.Revoke has two critical sections and is two steps. Memory/System
--     has the calls of all goroutines as a list of steps, in the order in which they took the locks.
--
-- How the parts interact: the host's Ensure checks a spec by Names; an environment's ReplaceTree and
-- Apply run Snapshot's on its files; its Watch and the guest's writes run Watchlog's on its log, and a
-- write is offered to the current observation, which fails with ErrLagged when its channel is full. The
-- agent's session does the same over the wire: its requests run Snapshot's functions on the projection,
-- its poll compares scans and appends to a Watchlog, and its answers carry the statuses of Errors/Status,
-- which the client turns back into errors.
--
-- Bounds and fuel: no function needs fuel. Sizes, counts and offsets are natural numbers; the watch
-- log's counter and the client's request numbers are taken modulo 2^64.
--
-- What is not modelled: the agent's file operations and system calls, the remote host's
-- client, the isolated environments themselves, running the daemon, the control tool and the commands; and of the parts above, the
-- text of messages, the release stamp, ResolvePath, the JSON payloads and write deadlines of the wire,
-- and the time that a Read or a Next waits, whose result says that it waits.
pub mod Base
pub mod Errors
pub mod Names
pub mod Paths
pub mod Snapshot
pub mod Watchlog
pub mod Memory
pub mod Mux
pub mod Agent
pub mod Build
pub mod Daemon
pub mod Isolated
pub mod Remote
