-- ===== src/Guarantees.antt =====
-- What the operations of internal/store/mutations.go promise across several calls.
pub mod LostUpdate
pub mod Commands
pub mod Replayable
pub mod Verified
pub mod Logged
pub mod JournalGrowth
pub mod Immutable
pub mod Global
pub mod Application
