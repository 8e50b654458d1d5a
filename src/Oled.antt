-- ===== src/Oled.antt =====
-- esp32/components/ssd1306 and esp32/main/ui.c: the text display.
pub mod Font
pub mod Panel
pub mod Lines
pub mod Drawing
mod Tests
