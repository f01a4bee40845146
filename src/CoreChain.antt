-- ===== src/CoreChain.antt =====
-- src/xayacore/corechain.cpp: the blockchain client for Xaya Core, a node that is reached over JSON-RPC and
-- ZMQ.
pub mod Moves
pub mod Blocks
pub mod Calls
pub mod Burns
pub mod Listening
pub mod Ranges
pub mod Linking
pub mod Client
pub mod Joining
