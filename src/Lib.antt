-- ===== src/Lib.antt =====
-- Xaya X (src/*.cpp) connects a blockchain to the game daemons (GSPs) of the Xaya platform: a sync
-- worker copies the blocks of a base chain into a local chainstate, and every change of its tip is
-- published over ZMQ, as are the moves that are still pending; GSPs ask for missing blocks over RPC.
--
-- The parts, and the files that model them:
-- - src/blockdata.hpp: BlockData.antt, with the interface Codec for the serialisation.
-- - src/basechain.hpp: BaseChain.antt, the record of the operations of a blockchain client. A client is a
--   parameter wherever one is used; its state World may change between calls, and any call may throw.
-- - src/chainstate.cpp: Chainstate/. Table is the SQL table `blocks` as a list of rows, with the statements
--   on it and its constraints; Ops has the queries and updates (GetTipHeight, InsertBlock, MarkAsTip,
--   ...), Fork has GetForkBranch, Methods the operations that change the state (SetTip, ImportTip, Prune,
--   SetChain) with the savepoints of UpdateBatch, Sanity has SanityCheck. Tree says what a well-formed
--   table is, Members relates rows and queries, Segments and Forking follow the branches. Pruning and
--   Detaching are about rows that are removed or moved to a branch, Rewinding about a tip that is set
--   back on the main chain. Paths, Heights, Adopting, Reorganising and Switching are about a tip on a branch,
--   and Extending about a new block, Importing about ImportTip. Branches and Checking are about SanityCheck, Reverting about batches.
-- - src/pending.cpp: Pending.antt with PendingManager; Pending/ has its invariant (Order) and what it sends
--   (Sending).
-- - src/blockcache.cpp: BlockCache.antt with BlockCacheChain and BlockCache/Memory.antt with
--   InMemoryBlockStorage; BlockCache/Serving.antt compares them to the chain. Backed says what the cache relies on
--   in a storage.
-- - src/cache/mysql.cpp: BlockCache/MySql.antt with MySqlBlockStorage, Rows with what its statements do to the
--   table, Persisting with what the cache relies on. The library mypp, with the server, is the record Mypp.
-- - src/database.cpp: Database.antt with the cache of prepared statements, Database/Statements.antt with the
--   methods of a statement, Objects with the statement objects that callers hold and move, Owners and Sharing
--   with who owns which statement, Lifetime with the way from the constructor to the destructor. SQLite is the
--   record Sqlite.
-- - src/zmqpub.cpp: ZmqPub/. Games are the tracked games, Moves is PerTxData, Messages is SendMessage, Blocks
--   has the block and move notifications, Sequence the sequence numbers, Routing which move of a block goes to
--   which game, Announcing the same for pending moves. The JSON libraries and the socket are the records
--   JsonLib and Socket of ZmqPub.antt, which are parameters.
-- - src/sync.cpp: Sync/Step.antt with one step of the worker, Sync/Progress.antt with what a step keeps and
--   Sync/Searching.antt with the steps of a search.
-- - src/controller.cpp: Controller/. Push is PushZmqBlocks and Steps its parts, Updates has the callbacks, Rpc
--   has the RPC methods and Answers what they hold and return, Config the settings and the checks of
--   Controller::Run, Lifecycle the constructor and destructor of RunData, Dispatch the optional argument of
--   game_sendupdates, Replies what the RPC methods answer, Attaching what is sent of attached blocks, Joining
--   how queried blocks fit those detached.
-- - src/blockdata.cpp and src/jsonutils.cpp: Serialisation.antt, with the messages of
--   src/proto/blockdata.proto as records; Serialisation/RoundTrip.antt fills Codec. The generated code and
--   jsoncpp are the record Formats.
-- - src/rpcutils.cpp: RpcUtils.antt with ParseRpcHeaders; RpcUtils/ compares it to a reading of the text split
--   at the semicolons.
-- - src/basechain.cpp: the calls of the callbacks, in BaseChain.antt.
-- - xayacore/corechain.cpp: CoreChain/. Moves is GetMoveFromTx, Blocks has ConstructBlockData and
--   GetBlockRange, Calls the methods that only ask the node, Listening the ZMQ listeners and callbacks. Ranges
--   and Linking are about the ranges of blocks, Burns about what a move burns; Client makes it a BaseChain and
--   puts it behind the block cache, Joining is about its ranges as a user gets them. The generated RPC stub is
--   the record CoreRpc, jsoncpp and double are the record Values of Values.antt.
-- - eth/: EthChain/. Logs has the data of blocks and moves (hexutils.cpp, and the helpers of ethchain.cpp),
--   Blocks the requests and the extraction of moves, Ranges TryBlockRange and GetBlockRange, Calls the methods
--   that only ask the node, Handlers those that change the client's state, Pendings and Mempool the two
--   classes of pending.cpp, WebSocket the messages of websocket.cpp. Headers, Keeping and Linking are about
--   the ranges of blocks, Pool about what stays in the pool. The generated RPC stub is the record EthRpc,
--   eth-utils the record EthUtils, the generated contract code the record Contracts.
-- - eth/main.cpp and xayacore/main.cpp: Main.antt, from the flags to Controller::Run, with Main/Watching.antt
--   for the list of watched contracts; Splitting, Configuring and Starting are about them.
-- - Prelude/ has numbers, texts, lists, maps and the two forms of effectful code; Tests/ has instances of the
--   theorems.
--
-- Stateful code is a function from a state to an outcome (Prelude/Action.antt): it returns, throws an
-- exception and leaves a state behind, or aborts the process by a failed CHECK. Code without effects that
-- may abort is an Option. A mutex makes each handler one step. Of the controller's parts, each acts on its
-- own field of the state of Controller.antt, through on_chain, on_zmq and on_pending.
--
-- Bounds: heights are natural numbers, with the wrap-around of uint64_t, uint32_t and unsigned written out
-- where the code computes with them, and the checks of Database::Statement::Bind. Loops that do not run along
-- a list have fuel. That of GetForkBranch is the greatest height of the table plus 2: each round goes on from
-- a block below, so that it is enough on a well-formed table. That of GetBlockRange of the Xaya Core client is
-- an argument, and the number of blocks asked for is enough with a node that stays in one state. That of
-- GetBlockRange of the Ethereum client, which tries again while the node's answers do not agree, is an
-- argument too. That of ParseRpcHeaders and of AddWatchedContracts is one more than the length of the text.
-- The int64_t heights of TryBlockRange are natural numbers, and so is what it compares: heights from 2^63 on
-- are not distinguished there.
--
-- Not modelled: SQLite and the statements' texts, threads and condition variables, logging, the generated
-- dispatch of RPC calls, the libraries for JSON, HTTP, ZMQ and WebSockets, eth-utils, mypp, gflags, and the
-- Solidity and Python code. They are parameters, glue or input and output. main of the Ethereum connector
-- takes the constructor of EthChain, MySqlBlockStorage::Connect, AddWatchedContract and the client behind the
-- chosen cache as arguments, which may throw or abort; EthChain/Handlers.antt, BlockCache/MySql.antt and
-- BlockCache.antt model them. A run begins there with what the constructor of RunData does to the controller;
-- Controller/Lifecycle.antt has all of that constructor.
pub mod Prelude
pub mod BlockData
pub mod BaseChain
pub mod Chainstate
pub mod Pending
pub mod BlockCache
pub mod ZmqPub
pub mod Sync
pub mod Controller
pub mod Database
pub mod Values
pub mod RpcUtils
pub mod Serialisation
pub mod CoreChain
pub mod EthChain
pub mod Main
pub mod Tests
