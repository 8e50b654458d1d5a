-- ===== src/Lora.antt =====
-- esp32/components/l2lora: the LoRa transceiver driver (lora_drv.c) and its tasks (lora.c).
pub mod Board
pub mod Driver
pub mod Radio
pub mod Transfer
pub mod Fields
pub mod Config
pub mod Channel
pub mod Filling
pub mod Sending
pub mod Receiving
pub mod Tasks
pub mod Beacons
pub mod Uplink
pub mod Link
pub mod Air
pub mod Sim
mod Tests
