-- ===== src/Ble/Server.antt =====
-- The GAP and GATT event handlers of esp32/components/l2-ble-bt/ble_spp_server.c.
use dmesh_l.Base.{
  ℕ, Bool, true, false, List, [], ◌∷◌, ◌++◌, ◌==◌, if◌then◌else◌, u16, take, replicate, get_or,
}
use dmesh_l.Ble.Send.{Link}

-- The static variables of the file, with the driver's callback: `has_callback` is
-- `ble.driver.onMessage != NULL`.
pub record Server : Type 0 where
  pub mtu_size : ℕ
  pub conn_id : ℕ
  pub gatts_if : ℕ
  pub enable_data_ntf : Bool
  pub is_connected : Bool
  pub remote_bda : List ℕ
  pub handle_table : List ℕ
  pub has_callback : Bool
  pub interface_id : ℕ

-- SPP_IDX_SVC, SPP_IDX_SPP_DATA_NTY_VAL and SPP_IDX_NB of ble_spp_server.h.
abbrev pub idx_svc : ℕ
idx_svc = 0

abbrev pub idx_data_nty_val : ℕ
idx_data_nty_val = 4

abbrev pub idx_nb : ℕ
idx_nb = 6

-- The initial values.
abbrev pub initial_server : Server
initial_server = record {
  mtu_size = 23;
  conn_id = 0xffff;
  gatts_if = 0xff;
  enable_data_ntf = false;
  is_connected = false;
  remote_bda = replicate 6 0;
  handle_table = replicate idx_nb 0;
  has_callback = false;
  interface_id = 0;
}

-- The connection that `bleSend` uses.
abbrev pub link : Server → Link
link s = record {
  mtu_size = s.mtu_size;
  conn_id = s.conn_id;
  gatts_if = s.gatts_if;
  is_connected = s.is_connected;
  nty_handle = get_or s.handle_table idx_data_nty_val 0;
}

-- spp_adv_data: flags, the Eddystone UUID, and a data element.
abbrev pub adv_data : List ℕ
adv_data =
    0x02 ∷ 0x01 ∷ 0x06 ∷ 0x03 ∷ 0x03 ∷ 0xAA ∷ 0xFE ∷ 0x0F ∷ 0x16 ∷ 0x45 ∷ 0x53 ∷ 0x50 ∷ 0x5f ∷ 0x53
    ∷ 0x50 ∷ 0x50 ∷ 0x5f ∷ 0x53 ∷ 0x45 ∷ 0x52 ∷ 0x56 ∷ 0x45 ∷ 0x52 ∷ []

-- What the handlers ask of the stack.
pub data StackCall : Type 0 where
  set_device_name : StackCall
  config_adv_data_raw : List ℕ → StackCall
  create_attr_tab : (gatts_if count instance_id : ℕ) → StackCall
  start_service : (handle : ℕ) → StackCall
  start_advertising : StackCall
  on_message : List ℕ → (interface_id : ℕ) → StackCall

-- The events of `gatts_event_handler`. A status of 0 is ESP_GATT_OK.
pub data Event : Type 0 where
  reg : (status : ℕ) → Event
  read : Event
  write : List ℕ → Event
  exec_write : Event
  mtu : ℕ → Event
  conf unreg delete start stop : Event
  connect : (conn_id : ℕ) → (remote_bda : List ℕ) → Event
  disconnect : Event
  opened cancel_open close listen congest : Event
  creat_attr_tab : (status num_handle : ℕ) → (handles : List ℕ) → Event
  other : Event

-- `gatts_event_handler`, with the interface that the stack passes.
unfoldable pub gatts_event_handler : Event → (gatts_if : ℕ) → Server → Server × List StackCall
gatts_event_handler (reg status) gatts_if s =
    if status == 0
    then (
      s,
      set_device_name ∷ config_adv_data_raw adv_data ∷ create_attr_tab gatts_if idx_nb 0 ∷ [],
    )
    else (s, [])
gatts_event_handler (write value) gatts_if s =
    if s.has_callback then (s, on_message value s.interface_id ∷ []) else (s, [])
gatts_event_handler (mtu n) gatts_if s = (record s { mtu_size = u16 n }, [])
gatts_event_handler (connect conn_id remote_bda) gatts_if s = (
  record s { conn_id = conn_id; gatts_if = gatts_if; is_connected = true; remote_bda = remote_bda },
  [],
)
gatts_event_handler disconnect gatts_if s =
    (record s { is_connected = false; enable_data_ntf = false }, start_advertising ∷ [])
gatts_event_handler (creat_attr_tab status num_handle handles) gatts_if s =
    if status == 0
    then if num_handle == idx_nb
      then (
        record s { handle_table = take idx_nb handles },
        start_service (get_or handles idx_svc 0) ∷ [],
      )
      else (s, [])
    else (s, [])
gatts_event_handler _ gatts_if s = (s, [])

-- The events of `gap_event_handler`.
pub data GapEvent : Type 0 where
  adv_data_raw_set_complete : GapEvent
  adv_start_complete : (status : ℕ) → GapEvent
  other_gap : GapEvent

-- `gap_event_handler`; what it logs is left out.
unfoldable pub gap_event_handler : GapEvent → List StackCall
gap_event_handler adv_data_raw_set_complete = start_advertising ∷ []
gap_event_handler (adv_start_complete status) = []
gap_event_handler other_gap = []

-- A history of events, each with the interface that it came in on.
unfoldable pub run : List (Event × ℕ) → Server → Server × List StackCall
run [] s = (s, [])
run ((e, gatts_if) ∷ history) s =
    let (s', calls) = gatts_event_handler e gatts_if s in
    let (s'', rest) = run history s' in (s'', calls ++ rest)
