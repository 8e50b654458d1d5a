-- ===== src/Dmesh.antt =====
-- esp32/components/l3dmesh/dmesh.c: what is done with a message from any of the links.
pub mod Relay
pub mod Delivery
pub mod Start
mod Tests
