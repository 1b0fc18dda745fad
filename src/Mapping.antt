-- ===== src/Mapping.antt =====
-- mapping/src: from the node's blocks and transactions to the rows of the database.
pub mod Rpc
pub mod Blocks
pub mod Transactions
pub mod Optional
pub mod Mapper
mod Tests
