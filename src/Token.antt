-- ===== src/Token.antt =====
-- The payment token contract, contracts/token/src: its storage, its entry points by group, and what
-- is proved of them.
pub mod State
pub mod Storage
pub mod Transfer
pub mod Allowance
pub mod Supply
pub mod Control
pub mod Metadata
pub mod Ledger
pub mod Invariant
pub mod Moves
pub mod Batch
pub mod Calls
pub mod Conservation
pub mod Authority
pub mod Paused
pub mod Spending
pub mod Governance
mod Tests
