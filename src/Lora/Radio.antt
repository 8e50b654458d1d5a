-- ===== src/Lora/Radio.antt =====
-- The routines of esp32/components/l2lora/lora_drv.c that also use its static variables, the packet
-- transfers, and `lora_init`.
use dmesh_l.Base.{
  ℕ, zero, suc, ◌+◌, ◌/◌, Bool, true, false, Option, none, some, List, [], ◌∷◌, ltb, leb, ◌==◌,
  if◌then◌else◌, u8, bit_and, bit_or, ◌<<<◌, ◌>>>◌, ℤ, sub_ℕ, get_elem?, length,
}
use dmesh_l.Lora.Board.{
  Board, gpio_pad_select_gpio, gpio_set_direction_output, gpio_set_direction_input,
  spi_bus_initialize, spi_bus_add_device, gpio_config_posedge, gpio_install_isr_service,
  gpio_isr_handler_add, cs_gpio, rst_gpio, dio0_gpio,
}
use dmesh_l.Lora.Driver.{
  write_reg, read_reg, modify_reg, reset, idle, sleep, receive, set_tx_power, set_spreading_factor,
  set_coding_rate, invert_iq,
}

-- `lora_packet`, the fields that the code sets.
pub record Packet : Type 0 where
  pub len : ℕ
  pub rssi : ℤ
  pub snr : ℤ

-- `lora_driver`, less the pins; `has_callback` is `onMessage != NULL`.
pub record LoraState : Type 0 where
  pub data_receive : Bool
  pub band : ℕ
  pub sf : ℕ
  pub cr : ℕ
  pub beacon_receive : Bool
  pub beacon_band : ℕ
  pub lora_beacons : ℕ
  pub lora_received : ℕ
  pub has_callback : Bool
  pub interface_id : ℕ
  pub last : Packet

-- The initial value of `lora`.
abbrev pub initial_lora : LoraState
initial_lora = record {
  data_receive = false;
  band = 0;
  sf = 12;
  cr = 5;
  beacon_receive = false;
  beacon_band = 0;
  lora_beacons = 0;
  lora_received = 0;
  has_callback = false;
  interface_id = 0;
  last = record { len = 0; rssi = ℤ.pos 0; snr = ℤ.pos 0 };
}

-- The transceiver, the static variables `__implicit` and `__frequency`, and `lora`.
pub record Radio (b : Board) : Type 0 where
  pub chip : b.Chip
  pub implicit_header : Bool
  pub frequency : ℕ
  pub lora : LoraState

-- The receive channels.
abbrev pub downstream : List ℕ
downstream =
    923300000 ∷ 923900000 ∷ 924500000 ∷ 925100000 ∷ 925700000 ∷ 926300000 ∷ 926900000 ∷ 927500000
    ∷ []

abbrev pub timeout_reset : ℕ
timeout_reset = 100

-- How `lora_init` ends; `aborted` is a failed `assert`.
pub data InitResult : Type 0 where
  init_ok not_found aborted : InitResult

module _ (b : Board) where
  abbrev pub on_chip : (b.Chip → b.Chip) → Radio b → Radio b
  on_chip f d = record d { chip = f d.chip }

  -- `lora_explicit_header_mode`
  unfoldable pub explicit_header_mode : Radio b → Radio b
  explicit_header_mode d = record d {
    implicit_header = false;
    chip = modify_reg b 0x1d (λ v. bit_and v 0xfe) d.chip;
  }

  -- `lora_implicit_header_mode`
  unfoldable pub implicit_header_mode : (size : ℕ) → Radio b → Radio b
  implicit_header_mode size d = record d {
    implicit_header = true;
    chip = write_reg b 0x22 size (modify_reg b 0x1d (λ v. bit_or v 0x01) d.chip);
  }

  -- `lora_set_frequency`: the product is computed in 64 bits, the register bytes are casts.
  unfoldable pub set_frequency : (frequency : ℕ) → Radio b → Radio b
  set_frequency frequency d =
      let frf = frequency <<< 19 / 32000000 in
      record d {
        frequency = frequency;
        chip =
            write_reg b 0x08 (u8 frf)
              (write_reg b 0x07 (u8 (frf >>> 8)) (write_reg b 0x06 (u8 (frf >>> 16)) d.chip));
      }

  -- The transfer loop of `lora_send_packet`.
  unfoldable pub fill_fifo : List ℕ → b.Chip → b.Chip
  fill_fifo [] c = c
  fill_fifo (x ∷ buf) c = fill_fifo buf (write_reg b 0x00 x c)

  -- The wait for IRQ_TX_DONE; `none` when `fuel` polls were not enough.
  unfoldable pub wait_sent : (fuel : ℕ) → b.Chip → Option b.Chip
  wait_sent zero c = none
  wait_sent (suc fuel) c =
      let (irq, c') = read_reg b 0x12 c in
      elim (bit_and irq 0x08 == 0) [ true ↦ wait_sent fuel (b.task_delay 2 c') | false ↦ some c' ]

  -- `lora_send_packet` up to the start of the transmission.
  unfoldable pub start_packet : List ℕ → b.Chip → b.Chip
  start_packet buf c =
      write_reg b 0x01 0x83
        (write_reg b 0x22 (length buf) (fill_fifo buf (write_reg b 0x0d 0 (idle b c))))

  -- `lora_send_packet`
  unfoldable pub send_packet : (fuel : ℕ) → List ℕ → b.Chip → Option b.Chip
  send_packet fuel buf c = elim (wait_sent fuel (start_packet buf c)) [
    | none ↦ none
    | some c' ↦ some (write_reg b 0x12 0x08 c')
  ]

  -- The transfer loop of `lora_receive_packet`.
  unfoldable pub drain_fifo : (count : ℕ) → b.Chip → List ℕ × b.Chip
  drain_fifo zero c = ([], c)
  drain_fifo (suc count) c =
      let (x, c') = read_reg b 0x00 c in let (rest, c'') = drain_fifo count c' in (x ∷ rest, c'')

  -- `lora_receive_packet` once the interrupt flags have been seen: the packet of `len` bytes.
  unfoldable pub fetch_packet : (len size : ℕ) → b.Chip → List ℕ × b.Chip
  fetch_packet len size c =
      let (current, c') = read_reg b 0x10 (idle b c) in
      drain_fifo (if ltb size len then size else len) (write_reg b 0x0d current c')

  -- `lora_receive_packet`: the bytes stored into the buffer, whose number is returned.
  unfoldable pub receive_packet : (size : ℕ) → Radio b → List ℕ × Radio b
  receive_packet size d =
      let (irq, c1) = read_reg b 0x12 d.chip in
      let c2 = write_reg b 0x12 irq c1 in
      let (len, c3) = read_reg b (if d.implicit_header then 0x22 else 0x13) c2 in
      let (bytes, c4) = fetch_packet len size c3 in
      if bit_and irq 0x40 == 0
      then ([], record d { chip = c2 })
      else if bit_and irq 0x20 == 0
      then (bytes, record d { chip = c4 })
      else ([], record d { chip = c2 })

  -- `lora_packet_rssi`
  unfoldable pub packet_rssi : Radio b → ℤ × Radio b
  packet_rssi d =
      let (value, c) = read_reg b 0x1a d.chip in
      (sub_ℕ value (if ltb d.frequency 868000000 then 164 else 157), record d { chip = c })

  -- `lora_receive_beacon` on the channel that it looks up.
  unfoldable pub listen_beacon : (channel size : ℕ) → Radio b → Radio b
  listen_beacon channel size d = on_chip (receive b) (
      on_chip (set_coding_rate b 5) (
        on_chip (set_spreading_factor b 12) (
          implicit_header_mode size (
            on_chip (invert_iq b false) (
              set_frequency channel
                (record d { lora = record d.lora { beacon_receive = true } }))))))

  -- `lora_receive_beacon`; `none` is an access outside `downstream`.
  unfoldable pub receive_beacon : (size : ℕ) → Radio b → Option (Radio b)
  receive_beacon size d = elim (get_elem? downstream d.lora.beacon_band) [
    | none ↦ none
    | some channel ↦ some (listen_beacon channel size d)
  ]

  -- `lora_receive_upstream`, on the first channel.
  unfoldable pub receive_upstream : Radio b → Radio b
  receive_upstream d =
      let lora' = record d.lora { beacon_receive = false; data_receive = true } in
      on_chip (receive b) (
        on_chip (set_coding_rate b d.lora.cr) (
          on_chip (set_spreading_factor b d.lora.sf) (
            explicit_header_mode
              (on_chip (invert_iq b true) (set_frequency 923300000 (record d { lora = lora' }))))))

  -- The loop of `lora_init` that looks for the version, with `left` tests still to pass: `i` after
  -- the loop, and the transceiver.
  unfoldable pub probe : (left i : ℕ) → b.Chip → ℕ × b.Chip
  probe zero i c = (i + 1, c)
  probe (suc left) i c =
      let (version, c') = read_reg b 0x42 c in
      elim (version == 0) [ true ↦ probe left (i + 1) (b.task_delay 2 c') | false ↦ (i + 1, c') ]

  -- The default configuration at the end of `lora_init`.
  unfoldable pub configure : b.Chip → b.Chip
  configure c = idle b (
      set_tx_power b 17 (
        write_reg b 0x26 0x04 (
          modify_reg b 0x0c (λ v. bit_or v 0x03)
            (write_reg b 0x0e 0 (write_reg b 0x0f 0 (sleep b (write_reg b 0x40 0x00 c)))))))

  -- The interrupt pin, once the transceiver has answered.
  unfoldable pub hook_interrupt : b.Chip → b.Chip
  hook_interrupt c = b.setup (gpio_isr_handler_add dio0_gpio) (
      b.setup gpio_install_isr_service (
        b.setup (gpio_config_posedge dio0_gpio) (
          b.setup (gpio_set_direction_input dio0_gpio)
            (b.setup (gpio_pad_select_gpio dio0_gpio) c))))

  -- The bus and the pins that it needs.
  unfoldable pub open_bus : b.Chip → b.Chip
  open_bus c = b.setup spi_bus_initialize (
      b.setup (gpio_set_direction_output cs_gpio) (
        b.setup (gpio_pad_select_gpio cs_gpio) (
          b.setup (gpio_set_direction_output rst_gpio)
            (b.setup (gpio_pad_select_gpio rst_gpio) c))))

  -- `lora_init`; the two codes are those of `spi_bus_initialize` and `spi_bus_add_device`.
  unfoldable pub init : (bus_code device_code : ℕ) → b.Chip → InitResult × b.Chip
  init bus_code device_code c =
      let c1 = open_bus c in
      let c2 = b.setup spi_bus_add_device c1 in
      let (i, c3) = probe timeout_reset 0 (idle b (reset b c2)) in
      if bus_code == 0
      then if device_code == 0
        then if leb timeout_reset i
          then (not_found, c3)
          else (init_ok, configure (hook_interrupt c3))
        else (aborted, c2)
      else (aborted, c1)
