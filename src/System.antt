-- ===== src/System.antt =====
-- esp32/components/l3dmesh/cmd_system.c: the commands that put the node to sleep, with the deep sleep
-- of esp32/main/main.c.
pub mod Sleep
pub mod Waking
pub mod Info
mod Tests
