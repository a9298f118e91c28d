-- ===== src/Shipment.antt =====
-- The shipment contract, contracts/shipment/src: its parts, and what is proved of them.
pub mod Errors
pub mod Status
pub mod Breaker
pub mod RateLimit
pub mod Config
pub mod Data
pub mod Store
pub mod Guards
pub mod Settlement
pub mod Escrow
pub mod Milestones
pub mod Dispute
pub mod Symbols
pub mod Progress
pub mod Updates
pub mod Delivery
pub mod Creation
pub mod Council
pub mod Dependencies
pub mod Calls
pub mod Frozen
pub mod Cancelled
pub mod Custody
pub mod Access
pub mod Keeps
pub mod Calm
pub mod Audit
pub mod Roles
pub mod Administration
pub mod Solvency
mod Tests
