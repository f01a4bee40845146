-- ===== src/EthChain.antt =====
-- eth/: the blockchain client for Ethereum nodes.
pub mod Logs
pub mod Blocks
pub mod Ranges
pub mod Headers
pub mod Keeping
pub mod Linking
pub mod Mempool
pub mod Pool
pub mod WebSocket
pub mod Handlers
pub mod Pendings
pub mod Calls
