-- ===== src/Lora/Tasks.antt =====
-- esp32/components/l2lora/lora.c: the tasks that send, and that serve the transceiver's interrupt.
use dmesh_l.Base.{
  ℕ, ◌+◌, ◌*◌, ◌%◌, ◌^◌, true, ◌&&◌, Option, none, some, List, [], ◌∷◌, ◌++◌, ltb, ◌==◌,
  if◌then◌else◌, add32, inc32, get_or, length, overwrite, M, ◌>>◌, pure, modify, when, choose, take,
  ◌-◌, codes, ℤ, eq_const, gt_const,
}
use dmesh_l.Lora.Board.{Board}
use dmesh_l.Lora.Driver.{
  invert_iq, set_spreading_factor, set_coding_rate, set_sync_word, set_preamble_length,
  set_bandwidth, disable_crc, reset, received, packet_snr,
}
use dmesh_l.Lora.Radio.{
  Radio, on_chip, explicit_header_mode, send_packet, receive_packet, packet_rssi, receive_beacon,
  receive_upstream, init, InitResult, init_ok,
}

-- What the tasks ask of the rest of the program and of the system.
pub data AppCall : Type 0 where
  on_message : List ℕ → (interface_id : ℕ) → AppCall
  settimeofday : (seconds : ℕ) → AppCall
  create_read_task create_ping_task : AppCall

-- The driver and the static variables of lora.c. `polls` bounds how often a transmission is polled
-- for its end.
pub record App (b : Board) : Type 0 where
  pub radio : Radio b
  pub lorabuf : List ℕ
  pub last_len : ℕ
  pub repeat_send : ℕ
  pub polls : ℕ
  pub calls : List AppCall

abbrev pub beacon_size : ℕ
beacon_size = 23

-- `sizeof lorabuf`, and the size passed to `lora_receive_packet`.
abbrev pub lorabuf_size : ℕ
lorabuf_size = 100

-- `ts` of `lora_handle_beacon`: a 32-bit `unsigned long`, from the bytes 5 to 8 of the beacon.
unfoldable pub beacon_time : List ℕ → ℕ
beacon_time buf =
    let t1 = add32 (get_or buf 8 0 * 2 ^ 8 % 2 ^ 32) (get_or buf 7 0) in
    let t2 = add32 (t1 * 2 ^ 8 % 2 ^ 32) (get_or buf 6 0) in
    let t3 = add32 (t2 * 2 ^ 8 % 2 ^ 32) (get_or buf 5 0) in add32 t3 316008000

-- The band counter of `lora_handle_beacon`.
unfoldable pub next_band : ℕ → ℕ
next_band band = if ltb 7 (band + 1) then 0 else band + 1

module _ (b : Board) where
  -- A routine that cannot fail, or that may leave an array.
  abbrev pub on_radio : (Radio b → Radio b) → M (App b) (Unit {0})
  on_radio f = modify λ s. record s { radio = f s.radio }

  abbrev pub try_radio : (Radio b → Option (Radio b)) → M (App b) (Unit {0})
  try_radio f s = elim (f s.radio) [ none ↦ none | some d ↦ some (tt, record s { radio = d }) ]

  abbrev pub call : AppCall → M (App b) (Unit {0})
  call k = modify λ s. record s { calls = s.calls ++ k ∷ [] }

  abbrev pub send : List ℕ → M (App b) (Unit {0})
  send buf s = elim (send_packet b s.polls buf s.radio.chip) [
    | none ↦ none
    | some c ↦ some (tt, record s { radio = record s.radio { chip = c } })
  ]

  -- `loraSend`; `conId` is not used. `none` when the transmission does not end.
  unfoldable pub lora_send : List ℕ → M (App b) (Unit {0})
  lora_send buf = do
    on_radio (on_chip b (invert_iq b true))
    on_radio (explicit_header_mode b)
    on_radio λ d. on_chip b (set_spreading_factor b d.lora.sf) d
    on_radio λ d. on_chip b (set_coding_rate b d.lora.cr) d
    send buf

  -- The counters that `lora_handle_beacon` moves.
  unfoldable pub count_beacon : Radio b → Radio b
  count_beacon d = record d {
    lora = record d.lora {
      lora_beacons = inc32 d.lora.lora_beacons;
      beacon_band = next_band d.lora.beacon_band;
    };
  }

  -- `lora_handle_beacon`; the strings that it formats and logs are left out.
  unfoldable pub handle_beacon : M (App b) (Unit {0})
  handle_beacon s = try_radio (receive_beacon b beacon_size) (record s {
    radio = count_beacon s.radio;
    calls =
        if get_or s.lorabuf 0 0 == 0 && get_or s.lorabuf 1 0 == 0
        then s.calls ++ settimeofday (beacon_time s.lorabuf) ∷ []
        else s.calls;
  })

  -- The part of `task_lora_read` between `lora_received` and the callback: the signal values, and
  -- the packet in `lorabuf`.
  unfoldable pub take_packet : App b → App b
  take_packet s =
      let (rssi, d1) = packet_rssi b s.radio in
      let (snr, c2) = packet_snr b d1.chip in
      let (bytes, d3) = receive_packet b lorabuf_size (record d1 { chip = c2 }) in
      record s {
        radio = record d3 {
          lora = record d3.lora { last = record { len = length bytes; rssi = rssi; snr = snr } };
        };
        lorabuf = overwrite s.lorabuf 0 bytes;
        last_len = length bytes;
      }

  -- What follows a received packet.
  unfoldable pub after_packet : M (App b) (Unit {0})
  after_packet = do
    when (λ s. s.radio.lora.has_callback)
        (λ s. call (on_message (take s.last_len s.lorabuf) s.radio.lora.interface_id) s)
    choose (λ s. s.radio.lora.beacon_receive) handle_beacon
        (when (λ s. s.radio.lora.data_receive)
          (on_radio λ d.
            receive_upstream b
              (record d { lora = record d.lora { lora_received = inc32 d.lora.lora_received } })))

  -- The test of `task_lora_read`, and what it does with a packet.
  unfoldable pub serve_packet : M (App b) (Unit {0})
  serve_packet s =
      let (ready, c) = received b s.radio.chip in
      let s' = record s { radio = record s.radio { chip = c } } in
      if ready then after_packet (take_packet s') else some (tt, s')

  -- One round of `task_lora_read`, for an event from the queue.
  unfoldable pub task_lora_read : M (App b) (Unit {0})
  task_lora_read = do
    serve_packet
    when (λ s. ltb 0 s.repeat_send)
        do modify λ s. record s { repeat_send = s.repeat_send - 1 }; lora_send (codes "ping")

  -- One round of `lora_task`, after its delay.
  unfoldable pub lora_task : M (App b) (Unit {0})
  lora_task = do
    lora_send (codes "ping")
    choose (λ s. s.radio.lora.beacon_receive) (try_radio (receive_beacon b beacon_size))
        (when (λ s. s.radio.lora.data_receive) (on_radio (receive_upstream b)))

  -- The settings that `register_lora` makes once the transceiver has been found.
  unfoldable pub tune : b.Chip → b.Chip
  tune c = disable_crc b (set_bandwidth b 500000 (set_preamble_length b 8 (set_sync_word b 0x34 c)))

  -- `register_lora`: the codes of the SPI calls, and the stored `lora` setting, `none` when it
  -- cannot be read. A mode above 2 starts the test task.
  unfoldable pub register_lora : (bus_code device_code : ℕ) → Option ℤ → M (App b) InitResult
  register_lora bus_code device_code mode s =
      let (result, c) = init b bus_code device_code (reset b s.radio.chip) in
      let s' = record s { radio = record s.radio { chip = c } } in
      elim result [
        | init_ok ↦
            (do
              call create_read_task
              on_radio (on_chip b tune)
              elim mode [
                | none ↦ pure tt
                | some m ↦ do
                  when (λ _. gt_const m 2) (call create_ping_task)
                  when (λ _. eq_const m 1) (try_radio (receive_beacon b beacon_size))
                  when (λ _. eq_const m 2) (on_radio (receive_upstream b))
              ]
              pure init_ok)
              s'
        | other ↦ some (other, s')
      ]
