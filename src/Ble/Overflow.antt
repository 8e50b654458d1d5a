-- ===== src/Ble/Overflow.antt =====
-- Where the `uint8_t` counters of `bleSend` (ble_spp_server.c) no longer hold the fragment count.
