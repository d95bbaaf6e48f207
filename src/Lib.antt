-- ===== src/Lib.antt =====
-- p2pos is a peer-to-peer cluster node written in Go. A node joins a cluster of members over libp2p; the
-- member list is a snapshot that an administrator signs, and nodes pull it, push it and pass it on. This
-- library models the node's own logic and proves what it promises.
--
-- The parts, and the files that model them:
-- Membership (internal/membership/manager.go): Snapshot, AdminProof and Manager are the structs; new_manager,
-- apply, validate_snapshot, sign_snapshot and the rest are the functions of the same names. apply returns
-- the manager after the call beside the error. A method is one step, so the mutex is not there.
-- Network/Node (internal/network/node.go, runtime_state.go, tracker.go): the node's fields that the logic
-- reads, on_connected and on_disconnected for the callbacks of registerConnectionNotifications,
-- runtime_state for evaluateRuntimeState. What a node does to the world is a list of effects.
-- Network/Push (internal/network/membership.go, membership_push.go, membership_apply.go): the push handler,
-- PublishMembershipSnapshot with its fan-out, and SyncMembership. They call Membership.apply.
-- Network/Heartbeat (internal/network/heartbeat.go), Network/Status (internal/network/status.go and
-- internal/status/service.go), Network/Bootstrap (internal/network/bootstrap.go, and StartBootstrap of node.go in
-- Network/Bootstrap/Discovery), Network/Listen (buildListenMultiaddrs of node.go), Network/Dns
-- (internal/network/dns.go), Network/Start (the decisions of NewNode, the relays, Close and StartShutdownHandler).
-- Network/Push/Gossip puts the handlers of many nodes together: a cluster, with messages that arrive in any
-- order, or are lost. Network/Push/Pull is the other way: the handler that answers with a snapshot, and what
-- -- SyncMembership gets, by whether the stream opens and the answer is decoded.
-- Events (internal/events/bus.go, types.go): the bus as a list of channels with bounded buffers; a run is a list of
-- operations in the order in which they happen. Events/Payload has the events that the program sends.
-- Scheduler (internal/scheduler/scheduler.go): registration, and the loop of a task on the list of signals
-- that its select takes. Tasks (internal/tasks): the three tasks, with what they call as parameters.
-- Database (internal/database/database.go): the repository on a table of peers; any statement may fail.
-- Database/Migration is migratePeerSchema, on the columns and rows of an older table.
-- Presence (internal/presence/service.go): the loop that writes to the table what the events say of the peers.
-- Presence/Shown follows a connection from the node over the bus to the table.
-- Update (internal/update/update.go): versions, the choice of a release, and the decision to install it;
-- Update/Download is DownloadBinary, on the target file and the temporary one.
-- Config (internal/config/config.go): the normal form, the admin proof, the node's key, Init and Update. A write of
-- -- the file that fails may leave it changed.
-- App (internal/app): Keygen is the command keygen, Setup is setupMembership, which joins the configuration, the
-- table and the manager, Shutdown is the bridge from signals and events to the end of the program, and Run is
-- the order of a run. Logging (internal/logging/log.go) is the line of the log.
-- Text, Time and Base64 are the parts of Go's standard library that these use: strings, instants and
-- the standard encoding with padding. Common holds what all modules share.
--
-- Env, the record of keys and time layouts of libp2p and package time, is a parameter of the definitions that
-- use it; SignLaws, NanoLaws and KeyLaws are what theorems assume of it, and Tests/Toy shows that they can
-- hold. An instant is read back as it was printed if its year in UTC has four digits (Time.IsPrintable). HTTP, JSON, DNS, the file system, SQL failures and the transport are parameters as well.
--
-- Bounds: numbers are unbounded. The program counts members, connections, queue places and rows, which fit an
-- int, and the bytes of a download, of which it takes a hundred times in an int64 (enough below 64 PiB); it orders
-- instants by nanoseconds from a day before the year 0. All loops are structural recursion on a list, but for
-- the one that logs percentages: it has fuel for 20 turns, since it counts from 5 to 100 in steps of 5, and
-- Update/Download/Logging shows that it comes to its end.
--
-- Not modelled: the set-up of libp2p, of AutoTLS, of the QUIC buffers and of SQLite (calls of libraries), the
-- encoding of JSON and the HTTP requests, and the web client, which is in another language.
mod Common
pub mod Text
pub mod Time
pub mod App
pub mod Base64
pub mod Env
pub mod Membership
pub mod Events
pub mod Scheduler
pub mod Database
pub mod Update
pub mod Logging
pub mod Tasks
pub mod Network
pub mod Config
pub mod Presence
pub mod Tests
