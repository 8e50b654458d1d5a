-- ===== src/Ble/Send.antt =====
-- `bleSend` of esp32/components/l2-ble-bt/ble_spp_server.c.
use dmesh_l.Base.{
  ℕ, zero, suc, ◌+◌, ◌-◌, ◌*◌, ◌/◌, ◌%◌, Bool, true, false, ◌||◌, Option, none, some, List, [], ◌∷◌,
  ◌++◌, leb, ltb, ◌==◌, if◌then◌else◌, u8, slice, length,
}

-- What `bleSend` asks of the stack and of the scheduler.
pub data Call : Type 0 where
  -- esp_ble_gatts_send_indicate(gatts_if, conn_id, handle, length value, value, false)
  send_indicate : (gatts_if conn_id handle : ℕ) (value : List ℕ) → Call
  -- vTaskDelay(20 / portTICK_PERIOD_MS)
  delay : Call

-- How a call of `bleSend` ends. `bad_access` is a read or a write outside an array, or a division
-- by zero; `no_fuel` means that the model stopped counting rounds.
pub data Outcome : Type 0 where
  sent : List Call → Outcome
  bad_access : Outcome
  no_fuel : Outcome

-- The connection that the static variables describe.
pub record Link : Type 0 where
  pub mtu_size : ℕ
  pub conn_id : ℕ
  pub gatts_if : ℕ
  pub is_connected : Bool
  -- spp_handle_table[SPP_IDX_SPP_DATA_NTY_VAL]
  pub nty_handle : ℕ

-- The bytes copied behind the header in round `current`: from `data + (current - 1) * payload`,
-- up to the end in the last round. `none` if they lie outside `data`, or do not fit the
-- `payload + 4` bytes of `ntf_value_p`.
unfoldable pub part : List ℕ → (payload total current : ℕ) → Option (List ℕ)
part value payload total zero = none
part value payload total (suc before) =
    let offset = before * payload in
    if ltb (suc before) total
    then slice value offset payload
    else if ltb (length value) offset || ltb payload (length value - offset)
    then none
    else slice value offset (length value - offset)

-- One round: the notification, then the pause.
unfoldable pub round : Link → (total current : ℕ) → List ℕ → List Call
round k total current bytes =
    send_indicate k.gatts_if k.conn_id k.nty_handle (b'#' ∷ b'#' ∷ total ∷ current ∷ bytes)
    ∷ delay
    ∷ []

-- `while (current_num <= total_num)`, with `uint8_t` counters.
unfoldable pub send_parts :
    Link → List ℕ → (payload total : ℕ) → (fuel current : ℕ) → List Call → Outcome
send_parts k value payload total zero current out = no_fuel
send_parts k value payload total (suc fuel) current out = elim (leb current total) [
  | false ↦ sent out
  | true ↦ elim (part value payload total current) [
    | none ↦ bad_access
    | some bytes ↦
        send_parts k value payload total fuel (u8 (current + 1))
          (out ++ round k total current bytes)
  ]
]

-- `total_num`, as computed before it is stored in a byte.
unfoldable pub part_count : ℕ → ℕ → ℕ
part_count size payload = if size % payload == 0 then size / payload else size / payload + 1

-- More rounds than a byte can count.
abbrev pub send_fuel : ℕ
send_fuel = 300

-- The part of `bleSend` for a value that does not fit one notification. `malloc_ok` tells whether
-- `malloc` returned a buffer. With an MTU below 8 the source divides by zero or by a negative
-- number, and the model stops.
unfoldable pub send_long : Link → (malloc_ok : Bool) → List ℕ → Outcome
send_long k malloc_ok value =
    let payload = k.mtu_size - 7 in
    let total = u8 (part_count (length value) payload) in
    let parts = send_parts k value payload total send_fuel 1 [] in
    if leb k.mtu_size 7 then bad_access else if malloc_ok then parts else sent []

-- `bleSend`. `conId` is not used by the source.
unfoldable pub ble_send : Link → (malloc_ok : Bool) → List ℕ → Outcome
unfolding send_long
ble_send k malloc_ok value =
    if k.is_connected
    then if leb (length value) (k.mtu_size - 3)
      then sent (send_indicate k.gatts_if k.conn_id k.nty_handle value ∷ [])
      else send_long k malloc_ok value
    else sent []
