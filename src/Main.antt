-- ===== src/Main.antt =====
-- esp32/main/main.c: starting the node.
pub mod Boot
pub mod Settings
pub mod Starting
pub mod Booting
mod Tests
