-- ===== src/Nan.antt =====
-- esp32/components/esp-nan-aware: Wi-Fi Aware discovery and messages over raw frames (nan.c, nan.h,
-- beacons.c).
pub mod Frames
pub mod Driver
pub mod Receive
pub mod Timer
pub mod Discovery
pub mod Walking
pub mod Messages
pub mod Sending
pub mod Keeping
pub mod Queue
pub mod Limits
pub mod Samples
pub mod Exchange
pub mod Repeats
pub mod Pings
mod Tests
