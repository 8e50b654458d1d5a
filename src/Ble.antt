-- ===== src/Ble.antt =====
-- esp32/components/l2-ble-bt/ble_spp_server.c: the GATT server that carries mesh frames, its
-- events, and `bleSend` with its fragments. Calls into the Bluetooth stack are recorded in order.
pub mod Send
pub mod Reassembly
pub mod Overflow
pub mod Server
pub mod Links
pub mod Start
pub mod Boot
mod Tests
