-- ===== src/WindowCache.antt =====
-- src/quetz_window_cache.h: WindowDataCache, the data cache of a ColdFire core over windows of native
-- memory. State has its fields and its search, Transact its operations, Service a memory that answers
-- its requests.
pub mod State
pub mod Transact
pub mod Service
pub mod View
pub mod Coherent
pub mod Filling
pub mod Push
pub mod Rounds
pub mod Kept
pub mod Transparent
pub mod Bank
mod Owners
mod Answered
mod Examples
mod BankExamples
