-- ===== src/Lib.antt =====
-- A model of the collaborative whiteboard's server and of the rules that it shares with the web
-- application: how edits become durable, how private rooms are relayed and compacted unread, who may
-- see and change a board, what a plan allows and how payments reach it, how a client
-- keeps its connection, and how a drawn design is checked.
--
-- * RoomPersistence is apps/server/src/sync/roomPersistence.ts: the write-ahead queue of one room.
--   A record holds the pending updates, the timer, the promise chain and the task that runs. Each
--   method is a function on it; an `async` method is cut at its `await`s, and the answer that it
--   waits for is an argument of the next function. RoomPersistence.System puts the queue beside the
--   room's document, the database and the other instances, as a step relation: the steps are the
--   calls that apps/server/src/sync/rooms.ts makes and the answers that may come, in any order.
--   The content of a room (Yjs documents) is a parameter: the edits that an update carries, and the
--   marker of a document with given edits.
-- * Entitlements is packages/shared/src/entitlements: limits.ts and derive.ts (plans, grants,
--   subscriptions and their grace), and Entitlements.Checks is checks.ts (the decisions on limits).
-- * BoardAccess is apps/server/src/access/boardAccess.ts: the permission table, and the one query
--   that resolves a caller's role. Tables are lists of rows; a left join on a unique key is a search.
-- * PlanLimits is apps/server/src/billing/limits.ts: board slots and editor seats. It takes the
--   owner's entitlement from Entitlements and the caller's access from BoardAccess. A transaction
--   under its advisory lock is one function on the rows.
-- * CipherLog is the class of that name in apps/server/src/sync/encryptedRoom.ts: the content of a
--   private room, opaque updates known by their hash. It fills the role of a room's content for
--   RoomPersistence: `catch_up` and `committed` are what the queue calls.
-- * EncryptedRoom is the class of that name in the same file, the room of a private board on one
--   instance: a record and a function for each method, cut at its `await`s. EncryptedRoom.Snapshots has
--   the snapshots that clients are asked for, EncryptedRoom.Cluster the messages between instances, and
--   EncryptedRoom.System is the step relation of all calls. It holds a CipherLog, and hands updates to a
--   RoomPersistence. What was sent, published and delivered is kept in logs of the record. The bytes of
--   messages, which lib0 writes, are left out, and a connection's readonly members are a parameter.
-- * Billing is apps/server/src/billing: the grants of entitlements.ts and the seats of sync.ts on the
--   rows of `entitlements`, and Billing.Sync the transaction `syncSubscription` on the rows of one
--   subscription. It gives the grants that Entitlements decides by.
-- * LimitedWrites is apps/server/src/persistence/limitedWrites.ts, through which the queues of all
--   rooms write; LimitedWrites.System is the step relation of the writes that pass it.
-- * MemoryRepository is apps/server/src/persistence/memoryRepository.ts, an implementation of the
--   interface in repository.ts that the queue of RoomPersistence writes to. Snapshots, and what builds
--   them, are parameters: a snapshot stands for a list of updates.
-- * WindowLimiter is the limiter of one process in apps/server/src/http/windowLimiter.ts.
-- * TokenBucket is apps/server/src/sync/rateLimit.ts, with tokens in thousandths.
-- * InterviewTimer is the countdown of packages/shared/src/interview/index.ts with the updates that
--   apps/server/src/api/interviews.ts writes, one request after the other.
-- * Replay is the clock of packages/shared/src/replay/index.ts: the times of a recorded session and
--   the binary search in them, whose fuel is the number of steps.
-- * RoomSocket is packages/shared/src/sync/socketBase.ts, a client's connection to its room: a record
--   and a function for each method and each handler; RoomSocket.Events is what may happen, in any
--   order. It connects to the rooms whose queue RoomPersistence is.
-- * Graph is packages/graph/src, the checks on a design: Graph.Board, Graph.Nodes and Graph.Extract make
--   a graph of a board's shapes (extract.ts), Graph.Index is GraphIndex of context.ts over the work
--   list of Graph.Search, Graph.Rule and Graph.Rules are rule.ts and the files of rules, and
--   Graph.RunRules is engine.ts. The fuel of a search is the length of its stack and the number of
--   edges or nodes, which is enough: an id is pushed once. What regular expressions say of labels is
--   a parameter (Graph.Texts), and so is the parser of shapes.
-- * ZOrder is packages/shared/src/board/zorder.ts, the keys that a reorder of shapes assigns. The
--   package fractional-indexing, which makes the keys, is a parameter that is assumed to return as
--   many as it is asked for where the bounds leave room, and may throw where they do not. The fuel of the loop is the number of shapes.
-- * Base is what they share: tests on numbers, lists over the native numbers, membership, and sorting.
--
-- Numbers stand for ids, digests and instants (milliseconds), which the code only compares or adds
-- to. The other loops are structural. SHA-256 digests and `localeCompare` are
-- parameters; of `localeCompare` it is assumed that it is an order. Messages, metrics, logs and the
-- texts of findings are left out. Not modelled are SQL, Redis and HTTP, which are I/O, and, so far,
-- the rooms' manager, what clients send and merge, the enforcement of limits on boards, checkouts and
-- sweeps of billing, the rules on cycles and chains of calls, and the web application.
pub mod Base
pub mod RoomPersistence
pub mod Entitlements
pub mod BoardAccess
pub mod PlanLimits
pub mod Billing
pub mod CipherLog
pub mod EncryptedRoom
pub mod WindowLimiter
pub mod ZOrder
pub mod LimitedWrites
pub mod InterviewTimer
pub mod Graph
pub mod MemoryRepository
pub mod Replay
pub mod RoomSocket
pub mod TokenBucket
