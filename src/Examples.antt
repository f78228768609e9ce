-- ===== src/Examples.antt =====
-- Concrete runs of the operations.
mod Borsh
mod Near
pub mod Config
pub mod Accounts
pub mod Web3
pub mod Relays
pub mod Transfer
mod Contract
mod Client
mod Validators
mod CommandLine
mod Deposit
mod Setup
