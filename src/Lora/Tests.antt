-- ===== src/Lora/Tests.antt =====
-- Runs of the model of lora_drv.c and lora.c, and its theorems at concrete inputs.
use dmesh_l.Base.{
  ◌<◌, ◌⊎◌, ap, none, get_or, ℕ, ◌≤◌, ◌≡◌, refl, true, false, some, List, [], ◌∷◌, arith, ◌==◌,
  if◌then◌else◌, length, replicate, min, codes, pos,
}
use dmesh_l.Lora.Board.{window}
use dmesh_l.Lora.Driver.{
  write_reg, set_tx_power, sleep, read_reg, idle, reset, modify_reg, set_coding_rate,
  set_spreading_factor, invert_iq, receive, disable_crc, set_bandwidth, bandwidth_index,
  set_preamble_length, set_sync_word,
}
use dmesh_l.Lora.Radio.{
  not_found, wait_sent, Radio, initial_lora, receive_upstream, start_packet, send_packet,
  receive_packet, init, init_ok, probe, configure, hook_interrupt, explicit_header_mode,
  set_frequency, open_bus, fill_fifo, fetch_packet, drain_fifo,
}
use dmesh_l.Lora.Config.{settings_of}
use dmesh_l.Lora.Channel.{carrier_word}
use dmesh_l.Lora.Sending.{send_packet_lem, is_sent}
use dmesh_l.Lora.Uplink.{ready}
use dmesh_l.Lora.Receiving.{
  length-receive_packet-le, receive_packet_lem, packet_length, init_lem, IsConfigured,
}
use dmesh_l.Lora.Tasks.{
  App, tune, register_lora, lora_send, handle_beacon, beacon_time, settimeofday,
}
use dmesh_l.Lora.Beacons.{handle_beacon_lem}
use dmesh_l.Lora.Air.{arrived, departed, lora_send-receive_packet}
use dmesh_l.Lora.Link.{started, nodes_agree, modulation_of}
use dmesh_l.Lora.Sim.{Sim, sim_board, sim_IsTransceiver, sim_memory}

-- A packet of 4 bytes has been received, and a transmission would end after two looks.
abbrev chip : Sim
chip = record {
  file = λ r. if r == 0x13 then 4 else if r == 0x10 then 254 else 0;
  ram = λ i. i;
  irq = 0x48;
  looks = 2;
}

abbrev ready_chip : Sim
ready_chip = record chip { looks = 0 }

abbrev radio : Radio sim_board
radio = record { chip = ready_chip; implicit_header = false; frequency = 0; lora = initial_lora }

-- Nothing has been received.
abbrev silent_radio : Radio sim_board
silent_radio = record radio { chip = record ready_chip { irq = 8 } }

-- The beacon of GPS time 1000000000, that is 0x3b9aca00.
abbrev beacon : List ℕ
beacon = 0 ∷ 0 ∷ 0 ∷ 0 ∷ 0 ∷ 0x00 ∷ 0xca ∷ 0x9a ∷ 0x3b ∷ replicate 91 0

abbrev app : App sim_board
app = record {
  radio = record radio { lora = record initial_lora { beacon_band = 7; beacon_receive = true } };
  lorabuf = beacon;
  last_len = 23;
  repeat_send = 0;
  polls = 10;
  calls = [];
}

received_bytes : (receive_packet sim_board 100 radio).0 ≡ 254 ∷ 255 ∷ 0 ∷ 1 ∷ []
unfolding receive_packet fetch_packet drain_fifo read_reg write_reg idle
received_bytes = refl

send_packet_lem_example :
    (c : Sim) × (send_packet sim_board 5 (1 ∷ 2 ∷ 3 ∷ []) chip
      ≡ some (write_reg sim_board 0x12 0x08 c))
    × (window (sim_IsTransceiver.memory c) 0 3 ≡ 1 ∷ 2 ∷ 3 ∷ [])
    × (settings_of sim_board sim_IsTransceiver c
        ≡ record (settings_of sim_board sim_IsTransceiver chip) { mode = 0x83; payload_length = 3 })
send_packet_lem_example =
    send_packet_lem sim_board sim_IsTransceiver (1 ∷ 2 ∷ 3 ∷ []) 2 5 chip (omega arith)
      (omega arith) (unfold start_packet fill_fifo idle write_reg read_reg in refl)

length-receive_packet-le_example : length (receive_packet sim_board 3 radio).0 ≤ 3
length-receive_packet-le_example = length-receive_packet-le sim_board 3 radio

receive_packet_lem_example :
    let standby = idle sim_board (packet_length sim_board sim_IsTransceiver radio).1 in
    (receive_packet sim_board 100 radio).0
    ≡ window
        (sim_IsTransceiver.memory standby)
        (read_reg sim_board 0x10 standby).0
        (min (packet_length sim_board sim_IsTransceiver radio).0 100)
receive_packet_lem_example =
    receive_packet_lem sim_board sim_IsTransceiver 100 radio (unfold read_reg in omega arith)
      (unfold read_reg in refl)

init_lem_example :
    ((0 < 99)
      × ((init sim_board 0 0 ready_chip).0 ≡ init_ok)
      × IsConfigured sim_board sim_IsTransceiver (init sim_board 0 0 ready_chip).1)
    ⊎ ((◌≡◌ {A = ℕ} 0 99) × ((init sim_board 0 0 ready_chip).0 ≡ not_found))
init_lem_example =
    init_lem sim_board sim_IsTransceiver 0 ready_chip (omega arith) (λ j h. absurd (omega arith))
      (unfold read_reg idle reset open_bus write_reg in omega arith)

handle_beacon_lem_example :
    (s : App sim_board) × (handle_beacon sim_board app ≡ some (tt, s))
    × (s.radio.lora
        ≡ record app.radio.lora { lora_beacons = 1; beacon_band = 0; beacon_receive = true })
    × (s.calls ≡ settimeofday (beacon_time beacon) ∷ [])
    × ((settings_of sim_board sim_IsTransceiver s.radio.chip).mode ≡ 0x85)
    × ((settings_of sim_board sim_IsTransceiver s.radio.chip).implicit ≡ 1)
    × ((settings_of sim_board sim_IsTransceiver s.radio.chip).carrier ≡ carrier_word 923300000)
handle_beacon_lem_example = handle_beacon_lem sim_board sim_IsTransceiver app (omega arith)

app_found : (init sim_board 0 0 (reset sim_board app.radio.chip)).0 ≡ init_ok
unfolding init probe reset read_reg write_reg idle open_bus configure set_tx_power sleep
    hook_interrupt
app_found = refl

app_sends :
    is_sent sim_board sim_IsTransceiver (
      start_packet sim_board
        (codes "hello")
        (ready sim_board sim_IsTransceiver (started sim_board sim_IsTransceiver 0 0 app).radio))
    ≡ true
unfolding start_packet fill_fifo idle write_reg read_reg modify_reg set_coding_rate
    set_spreading_factor explicit_header_mode invert_iq receive_upstream set_frequency receive tune
    disable_crc set_bandwidth bandwidth_index set_preamble_length set_sync_word init probe reset
    open_bus configure set_tx_power sleep hook_interrupt
app_sends = refl

nodes_agree_example :
    (s1 s2 r1 : App sim_board) × (c : Sim) × (register_lora sim_board 0 0 (some (pos 2)) app
      ≡ some (init_ok, s1))
    × (lora_send sim_board (codes "hello") s1 ≡ some (tt, s2))
    × (register_lora sim_board 0 0 (some (pos 2)) app ≡ some (init_ok, r1))
    × (s2.radio.chip ≡ write_reg sim_board 0x12 0x08 c)
    × (window (sim_IsTransceiver.memory c) 0 5 ≡ codes "hello")
    × ((settings_of sim_board sim_IsTransceiver c).mode ≡ 0x83)
    × ((settings_of sim_board sim_IsTransceiver c).payload_length ≡ 5)
    × ((settings_of sim_board sim_IsTransceiver r1.radio.chip).mode ≡ 0x85)
    × (modulation_of sim_board sim_IsTransceiver c
        ≡ modulation_of sim_board sim_IsTransceiver r1.radio.chip)
nodes_agree_example =
    nodes_agree sim_board sim_IsTransceiver 0 0 0 0 0 (codes "hello") app app app_found app_found
      refl refl (omega arith) (omega arith) app_sends

-- A transceiver that has received "hello".
abbrev hello_radio : Radio sim_board
hello_radio = record radio {
  chip = record ready_chip {
    file = λ r. if r == 0x13 then 5 else 0;
    ram = λ i. get_or (codes "hello") i 0;
  };
}

hello_sends :
    is_sent sim_board sim_IsTransceiver
      (start_packet sim_board (codes "hello") (ready sim_board sim_IsTransceiver app.radio))
    ≡ true
unfolding start_packet fill_fifo idle write_reg read_reg modify_reg set_coding_rate
    set_spreading_factor explicit_header_mode invert_iq
hello_sends = refl

hello_carried :
    (s : App sim_board)
    → lora_send sim_board (codes "hello") app ≡ some (tt, s)
    → arrived sim_board sim_IsTransceiver 5 hello_radio ≡ departed sim_board sim_IsTransceiver 5 s
unfolding lora_send send_packet wait_sent start_packet fill_fifo idle write_reg read_reg modify_reg
    set_coding_rate set_spreading_factor explicit_header_mode invert_iq
hello_carried s run =
    rw (sim_memory, sim_memory s.radio.chip)
      (ap (λ o. elim o [ none ↦ [] | some r ↦ window r.1.radio.chip.ram 0 5 ]) run)

lora_send-receive_packet_example :
    (s : App sim_board) × (lora_send sim_board (codes "hello") app ≡ some (tt, s))
    × ((receive_packet sim_board 100 hello_radio).0 ≡ codes "hello")
lora_send-receive_packet_example =
    lora_send-receive_packet sim_board sim_IsTransceiver (codes "hello") 0 app hello_radio
      (omega arith) (omega arith) hello_sends (unfold read_reg in omega arith)
      (unfold read_reg in refl) (unfold read_reg write_reg in refl) hello_carried
