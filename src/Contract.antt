-- ===== src/Contract.antt =====
-- The contract engine: src/contract.
pub mod Text
pub mod Datamap
pub mod Document
pub mod Xml
pub mod Condition
pub mod Patterns
pub mod DataManager
pub mod Fee
pub mod Get
pub mod Input
pub mod Set
pub mod LookUps
pub mod Runner
pub mod Engine
pub mod Parallel
mod Tests
mod Runs
