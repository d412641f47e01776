-- ===== src/Blockchain.antt =====
-- cs244b_project/src/blockchain: blocks, chains and the manager of the chains.
pub mod Block
pub mod Chain
pub mod Manager
pub mod Ledger
