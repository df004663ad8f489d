-- ===== src/Edge.antt =====
-- internal/sspedge: the store of an edge, its journal consumer and their recovery from the authority.
pub mod Vault
pub mod Tables
pub mod Validate
pub mod Cursor
pub mod Projection
pub mod Apply
pub mod Clock
pub mod Front
pub mod Effects
pub mod Applied
pub mod States
pub mod Contiguous
pub mod FrontEffects
pub mod Delivered
pub mod Receipted
pub mod Receipts
pub mod History
pub mod Recorded
pub mod CursorMoves
pub mod Kept
pub mod Facts
pub mod Claimed
pub mod Consumer
pub mod Reconcile
pub mod Resumed
pub mod UniqueStates
pub mod Stuck
pub mod Sealed
pub mod Turns
pub mod TurnLaws
pub mod TurnDone
pub mod Fetch
pub mod Records
pub mod Recovered
pub mod Scenario
pub mod Examples
pub mod TurnExamples
pub mod ReceiptExamples
