-- ===== src/Lib.antt =====
-- The Minerva server: a gRPC server that keeps a cache of a simulation's units and groups, fed by
-- the engine, serves it to clients as reads and as streams of updates, and passes clients'
-- commands to the engine.
--
-- Which file models what (paths from the repository's root):
--   Std         what the source uses of Rust's library and of tonic's `Status`: hash maps as
--               association lists in any order, B-tree sets as sorted lists, derived equality,
--               floats by their bits with the equality of floats (NaN differs from itself).
--               Std.Reorder: tables with the same contents in different orders.
--   Ids         src/ids.rs: `UnitId`, `GroupId`, `CommandId` and the allocator, whose counter wraps
--               at 2 ^ 64.
--   Proto       src/gen/minerva/v1/minerva.v1.rs: the messages and enums. `Unit` is `ProtoUnit`.
--   Cache       src/state.rs. Cache.Inner is `Inner`, Cache.Writes, Cache.Groups and Cache.Resets
--               are the writes of `StateCache`, Cache.Reads its reads and subscriptions. Every
--               write holds the write lock to its end, so a write is one step (Cache.Step), and
--               writes interleave only as sequences of steps. A broadcast sender is the log of what
--               was sent into it. `sequence` is a `u64` that wraps.
--               Cache.Index: the member index. Cache.Loops: the loops of a group's replacement.
--               Cache.Frame: what a joined view depends on. Cache.Sequence: the numbers of events.
--               Cache.Unique: the keys of the table of groups. Cache.Lookup and Cache.Listed: reads,
--               Cache.Listed.Order: in which order.
--               Cache.Spec: the cache as maps from ids.
--               Cache.Repeat: writes that are made twice.
--               Cache.Tables and Cache.Passage: what the writes to units and groups have in common.
--               Cache.Replica: the copy of the groups that a client with a side filter keeps, under
--               the broadcasts of each write.
--   Commands    src/commands.rs: `Command::from_proto` (Commands, Commands.Decode) and `Dispatcher`
--               (Commands.Dispatcher, Commands.Pending, Commands.Send). `send` is cut where it takes an
--               id, at its critical section, at the end of its wait and at the drop of its guard;
--               what other calls and the engine do in between are further actions, in any order.
--               Commands.InFlight: the calls that have not ended. Commands.Told: what the engine
--               was told. Commands.Late: acknowledgements after the end of a wait.
--   Services    src/services/: the handlers (Services.Requests, Services.Orders, Services.Engine)
--               and the tasks that forward updates (Services.Forward), over the turns that
--               `select!` takes.
--               Services.Client and Services.Subscription follow a subscription to groups from
--               the cache through the task to the client, Services.States one to the simulation,
--               and Services.Turns and Services.Endings a stream to its end.
--   Server      src/server.rs: how `ServerHandle::spawn` starts its thread, what runs on it, and
--               how `shutdown` ends it, as a step relation on the thread, its tasks and the caller.
--               Server.Serve and Server.Routes: `serve`, `serve_on` and the services they build,
--               with the streaming handlers.
--   Rpc         src/gen/minerva/v1/minerva.v1.tonic.rs: Rpc.Client and Rpc.Server have a module for
--               each generated client and server, with its constructors, its builder and its methods;
--               Rpc.Tonic is what they use of tonic. Rpc.Paths: the paths.
--               Rpc.Settings: the builders.
--   Tests       the theorems applied to concrete inputs, and runs of the model.
--
-- How the parts interact: the handlers read the cache and call the dispatcher; a subscription takes
-- a position in the log of broadcasts, without the lock and so perhaps in the middle of a write, then
-- a snapshot with the sequence number it was read at, and the forwarding task drops the events up to
-- that number. A cache is looked up before a command is dispatched.
--
-- Loops are structural recursion, and no model runs on fuel. The channels, the timer and the choice
-- in `select!` belong to tokio: a forwarding task is given the turns and how many messages the
-- client still takes, what the wait of `send` reports is a parameter, and the handler of
-- `SendCommand` takes the dispatcher's `send` as one. What tonic does with a request at a path is a
-- parameter too.
--
-- A server's thread takes its steps in any order with those of its caller, and each call of std,
-- tokio and tonic ends in any of the ways that the source tells apart; time is in nanoseconds.
--
-- Not modelled: sockets, the wire format of prost, and the capacities of the channels: a subscriber
-- that lags is a turn of its own. How long tokio takes to drop a runtime is not modelled either: the
-- drop is a step by itself. `TryFrom<i32>` of an enum is derived by prost and taken as it is
-- documented. src/lib.rs only passes names on.
pub mod Prelude
pub mod Std
pub mod Ids
pub mod Proto
pub mod Cache
pub mod Commands
pub mod Server
pub mod Services
pub mod Rpc
pub mod Tests
