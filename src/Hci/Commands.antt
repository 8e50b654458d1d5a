-- ===== src/Hci/Commands.antt =====
-- The HCI commands of ble_hci.c, and the task that sends them.
use dmesh_l.Base.{
  ℕ, ◌+◌, ◌/◌, Bool, true, false, List, [], ◌∷◌, ◌++◌, ltb, ◌==◌, ◌&&◌, if◌then◌else◌, u8, take,
  replicate, overwrite, Option, none, some, ℤ, eq_const, codes,
}

-- UINT16_TO_STREAM
abbrev pub u16_stream : ℕ → List ℕ
u16_stream n = u8 n ∷ u8 (n / 256) ∷ []

-- The four bytes before the parameters: H4_TYPE_COMMAND, the opcode, and their number.
abbrev pub preamble : (opcode size : ℕ) → List ℕ
preamble opcode size = 1 ∷ (u16_stream opcode ++ size ∷ [])

-- `make_cmd_reset`
unfoldable pub make_cmd_reset : List ℕ
make_cmd_reset = preamble 0x0c03 0

-- `make_cmd_ble_set_adv_enable`
unfoldable pub make_cmd_ble_set_adv_enable : (adv_enable : ℕ) → List ℕ
make_cmd_ble_set_adv_enable adv_enable = preamble 0x200a 1 ++ u8 adv_enable ∷ []

-- `direct_bda` in the order of BDADDR_TO_STREAM.
unfoldable pub reversed : List ℕ → List ℕ
reversed [] = []
reversed (x ∷ xs) = reversed xs ++ u8 x ∷ []

-- `make_cmd_ble_set_adv_param`
unfoldable pub make_cmd_ble_set_adv_param :
    (int_min int_max adv_type own_type peer_type : ℕ) (direct_bda : List ℕ) (channel_map filter : ℕ)
    → List ℕ
make_cmd_ble_set_adv_param int_min int_max adv_type own_type peer_type direct_bda channel_map
      filter =
    preamble 0x2006 15
    ++ u16_stream int_min
    ++ u16_stream int_max
    ++ (u8 adv_type ∷ u8 own_type ∷ u8 peer_type ∷ [])
    ++ reversed direct_bda
    ++ (u8 channel_map ∷ u8 filter ∷ [])

abbrev pub adv_data_size : ℕ
adv_data_size = 31

-- `make_cmd_ble_set_adv_data`, into the buffer as it is: 31 of the 32 parameters are cleared, and
-- 36 bytes are sent. `p_data` is not NULL.
unfoldable pub make_cmd_ble_set_adv_data : (buf : List ℕ) (data_len : ℕ) (p_data : List ℕ) → List ℕ
make_cmd_ble_set_adv_data buf data_len p_data =
    let cleared = overwrite buf 0 (preamble 0x2008 32 ++ replicate adv_data_size 0) in
    let len = if ltb adv_data_size data_len then adv_data_size else data_len in
    take 36 (if data_len == 0 then cleared else overwrite cleared 4 (len ∷ take len p_data))

-- The state of the task: `cmd_cnt`, the command buffer, and the packets sent.
pub record Advertiser : Type 0 where
  pub cmd_cnt : ℕ
  pub hci_cmd_buf : List ℕ
  pub packets : List (List ℕ)

abbrev pub initial_advertiser : Advertiser
initial_advertiser = record { cmd_cnt = 0; hci_cmd_buf = replicate 128 0; packets = [] }

-- The advertising data of `hci_cmd_send_ble_set_adv_data`.
abbrev pub adv_name : List ℕ
adv_name = codes "ESP-BLE-HELLO"

abbrev pub adv_data : List ℕ
adv_data = 0x02 ∷ 0x01 ∷ 0x06 ∷ 14 ∷ 0x09 ∷ (adv_name ++ replicate 13 0)

-- A packet is written to the front of the buffer, and sent from there.
abbrev pub send_packet : List ℕ → Advertiser → Advertiser
send_packet packet a = record a {
  hci_cmd_buf = overwrite a.hci_cmd_buf 0 packet;
  packets = a.packets ++ packet ∷ [];
}

-- The four commands of the task.
unfoldable pub hci_cmd : (cmd_cnt : ℕ) → (buf : List ℕ) → Option (List ℕ)
hci_cmd cmd_cnt buf =
    if cmd_cnt == 0
    then some make_cmd_reset
    else if cmd_cnt == 1
    then some (
        make_cmd_ble_set_adv_param 256 256 0 0 0 (0x80 ∷ 0x81 ∷ 0x82 ∷ 0x83 ∷ 0x84 ∷ 0x85 ∷ []) 0x07
          0)
    else if cmd_cnt == 2
    then some (make_cmd_ble_set_adv_data buf 18 adv_data)
    else if cmd_cnt == 3
    then some (make_cmd_ble_set_adv_enable 1)
    else none

-- One round of `bleAdvtTask`, after its delay.
unfoldable pub adv_round : (send_avail : Bool) → Advertiser → Advertiser
adv_round send_avail a = elim (if send_avail then hci_cmd a.cmd_cnt a.hci_cmd_buf else none) [
  | none ↦ a
  | some packet ↦ send_packet packet (record a { cmd_cnt = a.cmd_cnt + 1 })
]

unfoldable pub ble_advt_task : List Bool → Advertiser → Advertiser
ble_advt_task [] a = a
ble_advt_task (avail ∷ rounds) a = ble_advt_task rounds (adv_round avail a)

-- `hciInit`, `hciRun`, and the tasks created.
pub record Hci : Type 0 where
  pub hci_init : Bool
  pub hci_run : Bool
  pub tasks : ℕ

-- The calls of `start_hci` that may fail.
pub data HciCall : Type 0 where
  mem_release controller_init controller_enable : HciCall

module _ (code : HciCall → ℕ) where
  -- `start_hci`
  unfoldable pub start_hci : Hci → Hci
  start_hci h =
      let ready = h.hci_init in
      let started = code mem_release == 0 && code controller_init == 0 in
      if ready
      then (if code controller_enable == 0
          then record h { hci_run = true; tasks = h.tasks + 1 }
          else h)
      else if started
      then (if code controller_enable == 0
          then record h { hci_init = true; hci_run = true; tasks = h.tasks + 1 }
          else record h { hci_init = true })
      else h

  -- `ble_cmd`, for arguments that parse.
  unfoldable pub hci_ble_cmd : (start stop : Bool) → Hci → Hci
  hci_ble_cmd start stop h =
      if start then start_hci h else if stop then record h { hci_run = false } else h

  -- `register_hci_ble`, with the stored `hci` setting.
  unfoldable pub register_hci_ble : Option ℤ → Hci → Hci
  register_hci_ble none h = h
  register_hci_ble (some mode) h = if eq_const mode 1 then start_hci h else h
