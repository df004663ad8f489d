-- ===== src/Authority.antt =====
-- internal/authority and internal/authority/postgres: the transactional authority.
pub mod Request
pub mod Tables
pub mod Sql
pub mod Cases
pub mod Advice
pub mod Registries
pub mod Transactions
pub mod Written
pub mod Logs
pub mod Emitted
pub mod Effects
pub mod Heads
pub mod History
pub mod Immutable
pub mod Gapless
pub mod Bindings
pub mod Chain
pub mod Origins
pub mod Halted
pub mod Durable
pub mod Generations
pub mod Enrolments
pub mod Resolved
pub mod Replay
pub mod Reads
pub mod Pages
pub mod Projection
pub mod Projected
pub mod Revisions
pub mod Climbing
pub mod ProjectionPages
pub mod Outbox
pub mod Closures
pub mod Moves
pub mod OutboxRows
pub mod Chosen
pub mod Leases
pub mod UniqueIds
pub mod Exclusive
pub mod Claims
pub mod Answers
pub mod Scenario
pub mod LeaseScenario
pub mod Examples
pub mod ReadExamples
pub mod LeaseExamples
pub mod Fenced
pub mod Final
pub mod Budget
