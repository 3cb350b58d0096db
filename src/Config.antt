-- ===== src/Config.antt =====
-- The configuration (internal/config): its rules, and how it is loaded from and saved to the database.
pub mod Types
pub mod Rules
pub mod Store
pub mod Codec
pub mod Save
pub mod Load
mod Written
mod Reads
mod Checked
mod Tests
mod Saved
mod Sections
mod Reload
