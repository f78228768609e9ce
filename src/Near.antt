-- ===== src/Near.antt =====
-- The calls of utils/robust.js and utils/borsh.js that send transactions to a NEAR node.
pub mod Node
pub mod SendTx
pub mod Async
