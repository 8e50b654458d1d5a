-- ===== src/I2c.antt =====
-- esp32/components/i2c/i2ctools.c: the I2C bus and its console commands.
pub mod Bus
pub mod Tools
pub mod Scans
mod Tests
