-- ===== src/Approval.antt =====
-- The approval half of the state machine (brain/src/coroner_brain/approval.py): parking a verdict,
-- and resuming it with a decision.
mod State
mod Token
pub mod Rules
pub mod Pipeline
pub mod Park
pub mod Clock
pub mod Decided
pub mod Once
pub mod Completes
pub mod Late
pub mod Settled
pub mod Stands
pub mod Early
pub mod Expires
pub mod Sweeps
pub mod Parked
pub mod Agent
pub mod Injective
unfoldable pub use State.*
unfoldable pub use Token.*
