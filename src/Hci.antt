-- ===== src/Hci.antt =====
-- esp32/components/l2-ble-bt/ble_hci.c: advertising through raw HCI commands.
pub mod Commands
pub mod Advertising
mod Tests
