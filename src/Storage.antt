-- ===== src/Storage.antt =====
-- internal/storage: the token pool.
pub mod Credential
pub mod Order
pub mod Pool
pub mod Cascade
pub mod Status
pub mod Claims
pub mod Fairness
pub mod Keys
pub mod Cooldowns
pub mod Reactivation
pub mod Totals
pub mod History
pub mod Refusals
pub mod Usage
mod Tests
