-- ===== src/Bt.antt =====
-- esp32/components/l2-ble-bt/bt_spp_server.c: the classic Bluetooth serial port.
pub mod Port
pub mod Routing
mod Tests
