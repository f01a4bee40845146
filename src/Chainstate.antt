-- ===== src/Chainstate.antt =====
-- src/chainstate.cpp: the tree of recent blocks in an SQLite table. A row of `blocks` is a record, and
-- a statement is a function of the list of rows. `codec` is BlockData::Serialise and Deserialise.
pub mod Table
pub mod Fork
pub mod Members
pub mod Tree
pub mod Segments
pub mod Forking
pub mod Ops
pub mod Methods
pub mod Sanity
pub mod Pruning
pub mod Detaching
pub mod Paths
pub mod Heights
pub mod Adopting
pub mod Reorganising
pub mod Switching
pub mod Extending
pub mod Branches
pub mod Checking
pub mod Importing
pub mod Reverting
pub mod Rewinding
