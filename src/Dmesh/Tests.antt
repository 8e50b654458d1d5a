-- ===== src/Dmesh/Tests.antt =====
-- The theorem on dmesh.c at a concrete input.
use dmesh_l.Base.{ℕ, ◌≡◌, refl, true, some, List, [], ◌∷◌, arith, replicate, map, u8}
use dmesh_l.Lora.Radio.{initial_lora, start_packet, fill_fifo, explicit_header_mode}
use dmesh_l.Lora.Sim.{Sim, sim_board, sim_IsTransceiver}
use dmesh_l.Lora.Board.{window}
use dmesh_l.Lora.Config.{settings_of}
use dmesh_l.Lora.Driver.{
  write_reg, read_reg, idle, modify_reg, set_coding_rate, set_spreading_factor, invert_iq,
}
use dmesh_l.Ble.Server.{initial_server}
use dmesh_l.Dmesh.Relay.{Node, on_message}
use dmesh_l.Dmesh.Delivery.{HasClients, ReachesClients, on_message_lem, on_message_uplink}

abbrev node : Node sim_board
node = record {
  lora = record {
    radio = record {
      chip = record { file = λ r. 0; ram = λ i. 0; irq = 8; looks = 0 };
      implicit_header = true;
      frequency = 0;
      lora = initial_lora;
    };
    lorabuf = replicate 100 0;
    last_len = 0;
    repeat_send = 0;
    polls = 10;
    calls = [];
  };
  server = record initial_server { is_connected = true };
  port = record { spp_handle = 4; cspp_handle = 0 };
  ble_outcomes = [];
  port_calls = [];
}

abbrev message : List ℕ
message = replicate 40 7

clients : HasClients sim_board message node
clients = record {
  handle = omega arith;
  connected = refl;
  mtu = omega arith;
  long = omega arith;
  short = omega arith;
}

on_message_lem_example :
    (n : Node sim_board) × (on_message sim_board true message node ≡ some n)
    × ReachesClients sim_board message node n
    × (n.lora ≡ node.lora)
on_message_lem_example = on_message_lem sim_board 7 (replicate 39 7) node (omega arith) clients

abbrev uplink_message : List ℕ
uplink_message = b'l' ∷ replicate 29 7

uplink_clients : HasClients sim_board uplink_message node
uplink_clients = record {
  handle = omega arith;
  connected = refl;
  mtu = omega arith;
  long = omega arith;
  short = omega arith;
}

on_message_uplink_example :
    (n : Node sim_board) × (c : Sim) × (on_message sim_board true uplink_message node ≡ some n)
    × ReachesClients sim_board uplink_message node n
    × (n.lora.radio.chip ≡ write_reg sim_board 0x12 0x08 c)
    × (window (sim_IsTransceiver.memory c) 0 30 ≡ map u8 uplink_message)
    × ((settings_of sim_board sim_IsTransceiver c).mode ≡ 0x83)
    × ((settings_of sim_board sim_IsTransceiver c).payload_length ≡ 30)
    × ((settings_of sim_board sim_IsTransceiver c).implicit ≡ 0)
    × ((settings_of sim_board sim_IsTransceiver c).invert ≡ 0x66)
on_message_uplink_example =
    on_message_uplink sim_board sim_IsTransceiver (replicate 29 7) 0 node (omega arith)
      (omega arith)
      (unfold start_packet fill_fifo idle write_reg read_reg set_coding_rate set_spreading_factor
          explicit_header_mode invert_iq modify_reg in
        refl)
      uplink_clients
