-- ===== src/Ui.antt =====
-- esp32/main/ui.c: the task that shows the counters.
pub mod Screen
pub mod Display
mod Tests
