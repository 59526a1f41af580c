-- ===== src/Lib.antt =====
-- CppMMO, a game server: sessions frame packets on TCP, workers turn packets into chat messages or
-- game commands, one thread plays the commands at a fixed tick and sends each player what is near.
--
-- The flow, and the files here that model it (paths on the left are the repository's):
--   src/Network/Session.cpp: Network/Session (theorems in Network/Framing). `send`, `send_batch`,
--     `read_loop`, `write_loop` and `disconnect` are the methods of those names. A stream is a list
--     of bytes. Network/Link has the two loops as steps that take turns with the threads that send
--     (Network/Delivery on what is on the wire, Network/Peer on
--     what the peer reads of it, Network/Closing on how the loops end).
--   src/Network/SessionManager.cpp, TcpServer.cpp: Network/Manager (theorems in Network/Sessions). A
--     round of `AcceptLoop` is `accept`; the sessions of a manager are a dictionary by id. Online has the
--     server with the callbacks of the chat manager, and a round in two parts (theorems in Agreement);
--     Accepting has what throws in the loop, and ends it.
--   src/Network/PacketManager.cpp, src/Utils/JobProcessor.cpp: Jobs (theorems in Dispatch). A round
--     of `WorkerLoop` is `work`, whose answer says what the worker does. Jobs/Crew has the threads on
--     their queue (Jobs/Stopping on how `Stop` ends them).
--   src/Utils/JobQueue.cpp, src/Game/GameLogicQueue.cpp: Queue, both queues in one model.
--   src/Utils/MemoryPool.cpp: MemoryPool, the pools in one model, and the cache of player names.
--     MemoryPool/Wrappers has the objects that give a pooled object back, by their place in the order
--     of construction (MemoryPool/Exchange on one call, MemoryPool/Ownership on a program),
--     and MemoryPool/Manager the pools and the cache together.
--   src/Game/PacketHandlers/ChatPacketHandler.cpp, src/Game/Managers/ChatManager.cpp: Chat (theorems
--     in ChatText) is the text that goes through Redis, ChatManager (theorems in ChatMap on its map,
--     a sorted list of strings, and in Broadcast) the handler and the manager's sessions.
--   src/Game/Services/RedisChatService.cpp: Redis, with `Initialize` and `Shutdown` of the chat manager
--     (theorems in Subscription). Relay joins the handler, the service and the manager (theorems in
--     Relayed).
--   src/Game/Services/AuthService.cpp: Auth (theorems in Verification), and AuthRequest for what
--     is sent. A callback is the function of its name, and gives the responses that are handed to the
--     caller from there on.
--   src/Game/PacketHandlers/LoginPacketHandler.cpp: LoginHandler (theorems in Login).
--   src/Game/GameCommand.h: Vector and Command.
--   src/Game/Models/: World.
--   src/Game/Spatial/QuadTree.cpp: QuadTree. `insert_into_node`, `remove_from_node` and `query_node`
--     are the recursions; QuadTree/Shape says what a tree looks like, QuadTree/Insert, Remove and
--     Query follow the recursions, QuadTree/Refines takes the public operations as a map from ids to
--     positions.
--   src/Game/Managers/GameManager.cpp: Game/State (members), Game/Input (input, movement), Game/Zone
--     (entering, leaving, dispatch), Game/Snapshot (areas of interest, batches) and Game/Loop (the
--     tick); the other files under Game hold the theorems. The manager is the record `Game`, a handler
--     a function from states to states, what is sent is the list `deliveries`. `Game/Sync` says when
--     the world and its index are in step, `Game/Commands` and `Game/Moves` follow it through the
--     handlers and the movement, `Game/Rounds` through the loop, `Game/Batches` and `Game/Flush`
--     follow the snapshots, `Game/Cached` and `Game/Freshness` the cached areas of interest, which
--     commands leave alone (`Game/Untouched`), `Game/Shown` what a round sends to a player, and
--     `Game/Departure` a player who leaves. Game/Settings is `LoadGameConfig`
--     (theorems in Game/Loading).
--   src/main.cpp: Lifecycle, with `Start` and `Stop` of the game manager and of the TCP server (theorems
--     in Shutdown).
-- Base has lists, dictionaries, tests and texts over the native numbers. Tests has an instance of the
-- float operations in which everything computes, and each theorem at an input.
--
-- `float` is an argument (`Float.FloatOps`); what is used of it is `FloatLaws`, properties that IEEE
-- 754 has for values that are not NaN. The theorems on the index ask that halving the map's sizes be
-- exact down to the depth of 6 (`HalvesExactly`), as it is for the default 200 by 200; where it is not,
-- children may leave a gap at their parent's edge. Clock readings, random draws, flags that other
-- threads write, the FlatBuffers accessors, the concurrent
-- queue, the JSON library, Redis and the outcomes of a request are arguments. A dictionary keeps
-- the order of insertion, where the source's order is unspecified.
--
-- Bounds: `insert_into_node` is structural in the levels left below a node, from 6 at the root.
-- `read_loop` has fuel; a byte more than the stream has is enough, since each round takes four bytes.
-- `run_workers` has fuel; a round more than there are jobs and threads is enough, since each round takes
-- a job.
-- `to_string` prints up to twenty digits, which 2 ^ 64 has. Unsigned sums that can wrap are written
-- with `% 2 ^ 64`; a length is cast with `% 2 ^ 32`. Sums of durations, which last for millennia, are
-- not reduced.
--
-- Not modelled: threads within an operation (each is a step), Asio, the log, the Redis server (it keeps
-- the order of a channel, and gives the subscriber what is published), and the static objects after
-- `main`.
pub mod Base
pub mod Float
pub mod Vector
pub mod QuadTree
pub mod Command
pub mod World
pub mod Game
pub mod Queue
pub mod MemoryPool
pub mod Chat
pub mod ChatText
pub mod ChatManager
pub mod ChatMap
pub mod Broadcast
pub mod Network
pub mod Jobs
pub mod Dispatch
pub mod Redis
pub mod Relay
pub mod Relayed
pub mod Subscription
pub mod Lifecycle
pub mod Shutdown
pub mod Auth
pub mod Verification
pub mod AuthRequest
pub mod LoginHandler
pub mod Login
pub mod Online
pub mod Agreement
pub mod Accepting
pub mod Tests
