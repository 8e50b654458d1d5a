-- ===== src/Ble/Tests.antt =====
-- Runs of the model of ble_spp_server.c, and its theorems at concrete inputs.
use dmesh_l.Base.{ℕ, ◌≡◌, refl, true, Option, none, some, List, [], ◌∷◌, arith, replicate, ℤ, pos}
use dmesh_l.Ble.Send.{
  Call, send_indicate, delay, sent, Link, part, round, send_parts, part_count, ble_send, send_long,
}
use dmesh_l.Ble.Reassembly.{collect, AllFit, ble_send_reassembles}
use dmesh_l.Ble.Server.{
  link, initial_server, mtu, connect, disconnect, conf, gatts_event_handler, run, start_advertising,
}
use dmesh_l.Ble.Links.{AllTo, calls_of, ble_send_follows_link, mtu_outlives_link}

abbrev default_link : Link
default_link = record {
  mtu_size = 23;
  conn_id = 3;
  gatts_if = 5;
  is_connected = true;
  nty_handle = 44;
}

-- One byte in each fragment.
abbrev narrow_link : Link
narrow_link = record default_link { mtu_size = 8 }

abbrev message : List ℕ
message = replicate 40 7

ble_send_splits :
    ble_send narrow_link true (1 ∷ 2 ∷ 3 ∷ 4 ∷ 5 ∷ 6 ∷ [])
    ≡ sent (
        send_indicate 5 3 44 (b'#' ∷ b'#' ∷ 6 ∷ 1 ∷ 1 ∷ [])
        ∷ delay
        ∷ send_indicate 5 3 44 (b'#' ∷ b'#' ∷ 6 ∷ 2 ∷ 2 ∷ [])
        ∷ delay
        ∷ send_indicate 5 3 44 (b'#' ∷ b'#' ∷ 6 ∷ 3 ∷ 3 ∷ [])
        ∷ delay
        ∷ send_indicate 5 3 44 (b'#' ∷ b'#' ∷ 6 ∷ 4 ∷ 4 ∷ [])
        ∷ delay
        ∷ send_indicate 5 3 44 (b'#' ∷ b'#' ∷ 6 ∷ 5 ∷ 5 ∷ [])
        ∷ delay
        ∷ send_indicate 5 3 44 (b'#' ∷ b'#' ∷ 6 ∷ 6 ∷ 6 ∷ [])
        ∷ delay
        ∷ [])
unfolding ble_send send_long send_parts part round part_count
ble_send_splits = refl

ble_send_reassembles_example :
    (calls : List Call) × (ble_send default_link true message ≡ sent calls)
    × (collect 1 calls ≡ some message)
    × AllFit 20 calls
ble_send_reassembles_example =
    ble_send_reassembles default_link message refl (omega arith) (omega arith) (omega arith)

ble_send_follows_link_example :
    (let k = link (run ((connect 2 [], 5) ∷ (conf, 5) ∷ []) initial_server).0 in
      AllTo 5 2 k.nty_handle (calls_of (ble_send k true message)))
    × (ble_send (link (run ((disconnect, 5) ∷ (conf, 5) ∷ []) initial_server).0) true message
        ≡ sent [])
    × ((gatts_event_handler disconnect 5 initial_server).1 ≡ start_advertising ∷ [])
ble_send_follows_link_example =
    ble_send_follows_link initial_server ((conf, 5) ∷ []) 2 5 [] message true (tt, tt)

mtu_outlives_link_example :
    let k =
      link
        (run
          ((connect 2 [], 5) ∷ (mtu 64, 5) ∷ (disconnect, 5) ∷ (connect 3 [], 5) ∷ [])
          initial_server).0 in
    (k.mtu_size ≡ 64)
    × (ble_send k true message ≡ sent (send_indicate k.gatts_if 3 k.nty_handle message ∷ []))
mtu_outlives_link_example =
    mtu_outlives_link initial_server 64 2 3 5 [] [] message true (omega arith) (omega arith)
      (omega arith)

abbrev unset : Option ℤ
unset = none

abbrev enabled : Option ℤ
enabled = some (pos 1)
