-- ===== src/Wifi.antt =====
-- esp32/main/wifi_sta_ap.c: the Wi-Fi station.
pub mod Station
pub mod Command
pub mod Config
pub mod Runs
pub mod Interfaces
pub mod Lifecycle
pub mod Events
pub mod Joining
mod Tests
