-- ===== src/Console.antt =====
-- esp32/main/console.c: the types and the blobs of the stored settings.
pub mod Types
pub mod Blob
pub mod Digits
pub mod Values
pub mod Ranges
pub mod Reading
pub mod Storage
pub mod Settings
pub mod Commands
pub mod Task
mod Tests
