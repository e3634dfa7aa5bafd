-- ===== src/Lib.antt =====
-- A server for No-Limit Texas Hold'em: the rules of one table, the framing of its protocol, the cache
-- that makes requests idempotent, the rooms and the threads that run them, the accounts, and the
-- wallets and the hands that are recorded.
--
-- The program. A room owns a table and runs its operations one after the other, so each operation
-- is a step from one state to the next: the room manager (include/poker/application/room_manager.hpp,
-- src/poker/application/room_manager.cpp) posts a task for each call to the executor
-- (room_executor.hpp, room_executor.cpp), which has a queue and a thread for each shard. Calls that
-- block go to a pool of threads with one queue (blocking_executor.hpp, blocking_executor.cpp). The
-- table (include/poker/domain/table.hpp, src/poker/domain/table.cpp) draws from a deck (deck.hpp, deck.cpp) and asks the evaluator
-- (hand_evaluator.hpp, hand_evaluator.cpp) for the value of hands; a card is a rank and a suit
-- (card.hpp, card.cpp). The network layer cuts the byte stream of a connection into frames
-- (include/poker/net/length_field_codec.hpp, src/poker/net/length_field_codec.cpp), and the
-- application layer recognises requests that are sent twice
-- (include/poker/application/idempotency_cache.hpp, src/poker/application/idempotency_cache.cpp).
-- Users and their sessions are kept in an account store
-- (include/poker/storage/in_memory_account_store.hpp, src/poker/storage/in_memory_account_store.cpp).
-- Wallets, stacks at tables, and the hands with their actions and settlements are kept in a game store
-- (include/poker/storage/in_memory_game_store.hpp, src/poker/storage/in_memory_game_store.cpp), whose
-- settlements are tested by include/poker/storage/game_store_validation.hpp. Users log in at a service
-- (include/poker/security/auth_service.hpp, src/poker/security/auth_service.cpp). Nodes announce
-- themselves at a registry (include/poker/cluster/in_memory_node_registry.hpp,
-- src/poker/cluster/in_memory_node_registry.cpp), the lobby sends players to them (lobby_router.hpp,
-- lobby_router.cpp), and the tables of nodes that are gone are given up (node_failure_reaper.hpp,
-- node_failure_reaper.cpp). A server starts from a configuration that it reads from its environment
-- (include/poker/config/server_config.hpp, src/poker/config/server_config.cpp).
--
-- The files, and what they model.
--   Domain/Card: `Card`, `cardIndex`, `orderedDeck`, `toString(Card)`.
--   Domain/Deck: `RandomSource`, `DeterministicRandomSource`, the two constructors of `Deck`, `draw`,
--     `burn`, `remaining`; `SystemRandomSource` as built without libsodium, whose device is a
--     parameter. The theorems on the shuffle take of a `RandomSource` what its callers rely on: a
--     number returned is below the bound.
--   Domain/Evaluator: `HandValue` with its order, `evaluateFive`, `evaluateBest`.
--   Domain/Table/State: the types of the header and the private state of `Table`.
--   Domain/Table/Seats: the loops over seats, `findPlayer`, `seatOf`, `nextParticipatingSeat`,
--     `nextCanActSeat`, `contenders`, `potSize`, `totalChips`.
--   Domain/Table/Seating: `seatPlayer`, `removePlayer`, `setReady`, `setConnected`.
--   Domain/Table/Pots: `buildAndAwardPots` and `orderedClockwise`.
--   Domain/Table/Street: `advanceUntilActionOrSettlement`, `advanceStreet`, `settleFoldWin`,
--     `settleShowdown`, `markSettled`, `bettingRoundComplete`.
--   Domain/Table/Betting: `act`, one function for each case of its `switch`.
--   Domain/Table/Hand: `startHand`, `startHandWithDeck`, `abortHand`.
--   Domain/Table/View: `snapshot`, `auditSnapshot`.
--   Net/Codec: `LengthFieldCodec`.
--   Application/Idempotency: `IdempotencyCache`.
--   Application/Executor: `RoomExecutor`. A visit of a queue under its mutex is one step, and an
--     interleaving of the threads is a sequence of steps.
--   Application/Blocking: `BlockingExecutor`, in the same way. Its threads are alike, so only the
--     number of those that have not returned is kept.
--   Application/Rooms/Tasks: the bodies of the tasks. A callback is heard by its number.
--   Application/Rooms/Manager: the rooms, which the map and the tasks share, as positions in a heap;
--     `createTable`, `closeTable`, finding a room, posting a task, and the steps of a worker: it takes
--     a task, reads whether the room is closed, and runs the task. Each is a critical section or a
--     read of an atomic flag in the code, so threads interleave between them. The worker catches
--     the exceptions of a task; the table that one leaves is any table.
--   Application/Rooms/Calls: the operations of `RoomManager` that post a task.
--   Storage/Accounts: `InMemoryAccountStore`.
--   Security/Crypto: `CryptoProvider`, the parameter for hashes and tokens. Security/Auth: `AuthService`
--     over the account store in memory.
--   Cluster/Registry: `InMemoryNodeRegistry`. Cluster/Router: `LobbyRouter`. Cluster/Reaper:
--     `NodeFailureReaper`. They run over the registry and the game store in memory; the times that
--     their clocks show are arguments.
--   Config: `loadFromEnvironment`, over the environment as a parameter. Config/Numbers: `std::stoll` as
--     `integer` calls it.
--   Storage/Games/Records, Validation, Store, Chips, Hands: `InMemoryGameStore`.
-- The modules below these hold the theorems, and the modules named Examples and EdgeCases the tests. The Prelude
-- has the library's names, the result `Run` of a call (it returns, throws, or runs out of fuel),
-- 64-bit counters, integers and association lists.
--
-- The representation. Chips are numbers, since the table keeps no negative amount; the amounts that
-- a caller sends are integers. The operation that may make a stack negative, `abortHand` after a
-- settlement, is `none` there. Chips do not wrap around: a sum beyond 63 bits is not represented.
-- The 64-bit counters wrap around. An unordered set or map is a list whose order nothing reads. A
-- pointer into the seats is the index of the seat, or the id by which the code finds the player.
--
-- Bounds. The loop over the streets has fuel for four rounds: three streets are dealt after the
-- first, and the last round settles. The loop that fills the board has fuel for five: each round
-- adds a card. The loop of `SystemRandomSource::uniform` has no bound. The loop of `feed` has one
-- more than the bytes buffered: each round reads some.
--
-- Not modelled: how the calls that stop the threads wait for them; what a table is after an exception;
-- the provider built on libsodium, and the stores on MySQL and Redis, whose statements other servers
-- run; the token bucket, which computes with floating-point numbers and a clock; metrics, which are
-- text; the server's sockets and the client; the service between the protocol and the rooms,
-- apps/server/protocol_service.cpp.
pub mod Prelude
pub mod Domain
pub mod Net
pub mod Application
pub mod Storage
pub mod Cluster
pub mod Security
pub mod Config
