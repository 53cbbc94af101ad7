-- ===== src/Lib.antt =====
-- A model of the chat server in ws/, types/, filter/, auth/, persistence/, plugins/grpc.go and the two
-- plugins of the repository, with proofs about it.
--
-- The program. A hub stands for one room. A client is a websocket connection: its ReadLoop turns
-- frames into events and sends them to the hub's channels, its WriteLoop sends slices of events back.
-- The hub keeps a ring of events as history, broadcasts events to the clients that their target
-- filters admit, and runs plugins, programs behind gRPC, whose answers are events again. A persister
-- keeps users, rooms and events.
--
-- The files, and what of the source each models:
--   Base: numbers, lists and maps; Run, how a piece of code ends: it returns, panics or runs on.
--   Strings, Strconv, Strconv/Quote: what the code calls of strings and strconv, over bytes.
--   Types: types/*.go; new_event is NewEvent. A nil pointer or map is `none`. Types/StringMap: the
--     methods of types/stringmap.go.
--   Filter: filter/env.go, with the expression library as the parameter ExprLib.
--   Filter/TagUpdates: filter/tags.go.
--   History: the ring of ws/hub.go (NewHub, the EventHistory case of Run, GetHistory).
--   Delivery: ws/filter.go, and the BroadcastEvents case of Run and GetInfo in ws/hub.go.
--   PluginChain: handlePlugins, handleEvents and the cron function of ws/hub.go.
--   Emit: EmitEvents of ws/events.go, over its backing array.
--   Auth: auth/oidc.go, over the OIDC library as the parameter OidcLib; its `authenticate` is what the
--     parameter of the same name in Session and Emit/Lookups stands for.
--   Session: a session's state; Session/Login and Session/Loop: ReadLoop of ws/client.go, by its cases;
--     Session/Write: the part of WriteLoop that groups events; Session/Pump: WriteLoop and PluginLoop.
--     Sends on channels are effects in a list, in the order of the code; a frame is a Turn, with the
--     clock, the hash, the guest's name and whether the hub knows the client. The libraries are
--     SessionLib; Persister's users are UserStore.
--   Session/Connect: the user of a new connection, from cmd/lightspeed-chat/main.go.
--   Grpc, Grpc/Client, Grpc/Server, Grpc/TagChanges, Grpc/Streams: plugins/grpc.go; the connection is a
--     function, what gRPC documents of it is Grpc/Connection's Connection.
--   Bunt, Bunt/Users, Bunt/Rooms, Bunt/Events: persistence/buntdb.go, over the interface Kv, whose
--     documented behaviour is Bunt/ReadBack's IsStore; Bunt/Rfc3339 writes times as time.Format does.
--   Sql/Tables: the tables of persistence/sqlite.go and what its SQL statements do to them; Sql/Users,
--     Sql/Rooms, Sql/Events: its operations, over the interface Engine of the database, whose documented
--     behaviour is Sql/Behaviour's IsSql; Sql/Clients fills UserStore and Emit/Lookups' Persister with
--     them.
--   Gorm: persistence/gorm.go, over the interface Orm; the history query is the record EventQuery, what
--     gorm documents of such queries is Gorm/Queries' IsOrm.
--   Translate, Translate/Handler: plugins/lightspeed-chat-google-translate-plugin/main.go; the cache and
--     the service are TranslateLib, what they promise is Translate/Law's IsTranslator.
--   Startup: NewPersister of persistence/types.go and the rooms at the start, Startup/Plugins: the plugins,
--     from cmd/lightspeed-chat/main.go; Sql/Setup, Bunt/Setup: the constructors of two persisters.
--   Admin: cmd/lightspeed-chat-admin/main.go, over the interface AdminStore, filled by SQLite.
--   Helper: plugins/helper.go.
--   BaseCommands: plugins/lightspeed-chat-base-commands-plugin/main.go.
--   Examples: concrete data, and the theorems applied to it.
--   Lifecycle: the Register and Unregister cases of Run in ws/hub.go, as interleavings of the steps of
--     the handler (cmd/lightspeed-chat/main.go), the loops and the goroutines that send to the client.
--     Sends and receives on the buffers of its channels are steps.
--   Emit/Lookups: the other calls of ws/events.go, over the interface Persister, filled by Bunt.
-- The other children prove what their names say.
--
-- Fuel. handle_plugins takes fuel for the depth of its recursion: each level skips one plugin more, so
-- more fuel than plugins that are not skipped suffices. History.read takes as many rounds as the ring
-- has cells. format_int takes fuel for its digits, the number itself. The depth of HandleEvents
-- in Translate is 2, since the help that it handles again is a chat event. All other loops are structural.
--
-- Not modelled: goroutines and locks but in Lifecycle (each operation runs at once; a channel is
-- the list of what is sent on it, but for the bounded ones of Session/Pump and Lifecycle), deadlines, the
-- closing of databases, the Postgres persister, which nothing constructs, HTTP but for the user of a connection,
-- the command line, the reading of the configuration, and the generated code in proto/.
-- The RFC 3339 times are those of the years from 1 on. A range over a Go map is taken in the order of the
-- list that stands for the map. A plugin's events have one clock and one hash function for each call of
-- the plugin.
pub mod Auth
pub mod Base
pub mod Types
pub mod Strings
pub mod Strconv
pub mod Filter
pub mod History
pub mod Delivery
pub mod PluginChain
pub mod Emit
pub mod Session
pub mod Grpc
pub mod Bunt
pub mod Sql
pub mod Gorm
pub mod BaseCommands
pub mod Examples
pub mod Lifecycle
pub mod Translate
pub mod Startup
pub mod Helper
pub mod Admin
