-- ===== src/Bt/Port.antt =====
-- The state of bt_spp_server.c, its two callbacks, `btSend` and `init_bt`.
use dmesh_l.Base.{ℕ, Bool, true, List, [], ◌∷◌, ◌++◌, ◌==◌, not, if◌then◌else◌, replicate, codes}

-- `spp_handle` and `cspp_handle`.
pub record Port : Type 0 where
  pub spp_handle : ℕ
  pub cspp_handle : ℕ

abbrev pub initial_port : Port
initial_port = record { spp_handle = 0; cspp_handle = 0 }

-- What the component asks of the Bluetooth stack and of the program.
pub data PortCall : Type 0 where
  spp_write : (handle : ℕ) (bytes : List ℕ) → PortCall
  set_device_name : (name : List ℕ) → PortCall
  set_scan_mode : PortCall
  start_srv : (name : List ℕ) → PortCall
  on_message : (bytes : List ℕ) (from : ℕ) → PortCall
  pin_reply : (bda : List ℕ) (accept : Bool) (pin : List ℕ) → PortCall
  ssp_confirm_reply : (bda : List ℕ) (accept : Bool) → PortCall

-- `btSend`; `conId` is not used.
unfoldable pub bt_send : List ℕ → Port → List PortCall
bt_send bytes p =
    if not (p.spp_handle == 0)
    then spp_write p.spp_handle bytes ∷ []
    else if not (p.cspp_handle == 0)
    then spp_write p.cspp_handle bytes ∷ []
    else []

-- The events of `esp_spp_cb`.
pub data PortEvent : Type 0 where
  spp_init spp_close spp_start cl_init cong write other : PortEvent
  data_ind : (bytes : List ℕ) (handle : ℕ) → PortEvent
  srv_open : (handle : ℕ) → PortEvent

-- `esp_spp_cb`, less the log.
unfoldable pub esp_spp_cb : PortEvent → Port → Port × List PortCall
esp_spp_cb spp_init p =
    (p, set_device_name (codes "DM-BT") ∷ set_scan_mode ∷ start_srv (codes "SPP_SERVER") ∷ [])
esp_spp_cb spp_close p = (record p { spp_handle = 0; cspp_handle = 0 }, [])
esp_spp_cb (data_ind bytes handle) p = (p, on_message bytes handle ∷ [])
esp_spp_cb (srv_open handle) p = (record p { spp_handle = handle }, [])
esp_spp_cb spp_start p = (p, [])
esp_spp_cb cl_init p = (p, [])
esp_spp_cb cong p = (p, [])
esp_spp_cb write p = (p, [])
esp_spp_cb other p = (p, [])

-- The events of `esp_bt_gap_cb`.
pub data PairingEvent : Type 0 where
  auth_cmpl key_notif key_req other_gap : PairingEvent
  pin_req : (bda : List ℕ) (min_16_digit : Bool) → PairingEvent
  cfm_req : (bda : List ℕ) → PairingEvent

-- `esp_bt_gap_cb`, less the log: of the PIN only the digits that are passed on.
unfoldable pub esp_bt_gap_cb : PairingEvent → List PortCall
esp_bt_gap_cb (pin_req bda min_16_digit) =
    pin_reply bda true (if min_16_digit then replicate 16 0 else codes "1234") ∷ []
esp_bt_gap_cb (cfm_req bda) = ssp_confirm_reply bda true ∷ []
esp_bt_gap_cb auth_cmpl = []
esp_bt_gap_cb key_notif = []
esp_bt_gap_cb key_req = []
esp_bt_gap_cb other_gap = []

-- The events of a while, one after the other, and the calls that they cause.
unfoldable pub run_port : List PortEvent → Port → Port × List PortCall
run_port [] p = (p, [])
run_port (e ∷ events) p =
    let (q, calls) = esp_spp_cb e p in let (r, rest) = run_port events q in (r, calls ++ rest)

-- The calls of `init_bt`, whose checked ones may fail.
pub data BtInit : Type 0 where
  controller_init controller_enable bluedroid_init bluedroid_enable : BtInit
  ble_services gap_register spp_register spp_initialize : BtInit
  set_security_param set_pin : BtInit

module _ (code : BtInit → ℕ) where
  -- The steps from the first of the list on, each of which has to succeed, and what follows them.
  unfoldable pub checked : List BtInit → List BtInit → List BtInit
  checked [] last = last
  checked (c ∷ cs) last = let rest = checked cs last in c ∷ (if code c == 0 then rest else [])

  -- `init_bt`
  unfoldable pub init_bt : List BtInit
  init_bt = checked (controller_init ∷ controller_enable ∷ bluedroid_init ∷ bluedroid_enable ∷ []) (
      ble_services
      ∷ checked (gap_register ∷ spp_register ∷ spp_initialize ∷ [])
          (set_security_param ∷ set_pin ∷ []))
