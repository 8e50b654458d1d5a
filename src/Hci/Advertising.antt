-- ===== src/Hci/Advertising.antt =====
-- What the advertising task of ble_hci.c sends.
use dmesh_l.Base.{
  ℕ, zero, suc, ◌+◌, ◌≤◌, ◌≡◌, refl, ap, ◌∙◌, Bool, true, false, List, [], ◌∷◌, ◌++◌, arith, ltb,
  take, replicate, min, inl, inr, Bool-cases,
}
use dmesh_l.Hci.Commands.{
  make_cmd_reset, make_cmd_ble_set_adv_enable, reversed, make_cmd_ble_set_adv_param,
  make_cmd_ble_set_adv_data, Advertiser, initial_advertiser, adv_name, hci_cmd, adv_round,
  ble_advt_task,
}

-- The rounds in which the controller takes a packet.
abbrev pub available : List Bool → ℕ
available [] = 0
available (true ∷ rounds) = suc (available rounds)
available (false ∷ rounds) = available rounds

-- The commands that start advertising.
abbrev pub script : List (List ℕ)
script =
    (1 ∷ 0x03 ∷ 0x0c ∷ 0 ∷ [])
    ∷ (1 ∷ 0x06 ∷ 0x20 ∷ 15 ∷ 0 ∷ 1 ∷ 0 ∷ 1 ∷ 0 ∷ 0 ∷ 0 ∷ 0x85 ∷ 0x84 ∷ 0x83 ∷ 0x82 ∷ 0x81 ∷ 0x80
        ∷ 7 ∷ 0 ∷ [])
    ∷ (1 ∷ 0x08 ∷ 0x20 ∷ 32 ∷ 18 ∷ 0x02 ∷ 0x01 ∷ 0x06 ∷ 14 ∷ 0x09 ∷ (adv_name ++ replicate 13 0))
    ∷ (1 ∷ 0x0a ∷ 0x20 ∷ 1 ∷ 1 ∷ [])
    ∷ []

-- The task after the first `k` commands.
abbrev after : ℕ → Advertiser
after zero = initial_advertiser
after (suc k) = adv_round true (after k)

after_packets : (k : ℕ) → k ≤ 4 → (after k).packets ≡ take k script
unfolding adv_round hci_cmd make_cmd_reset make_cmd_ble_set_adv_param make_cmd_ble_set_adv_data
    make_cmd_ble_set_adv_enable reversed
after_packets zero h = refl
after_packets (suc zero) h = refl
after_packets (suc (suc zero)) h = refl
after_packets (suc (suc (suc zero))) h = refl
after_packets (suc (suc (suc (suc zero)))) h = refl
after_packets (suc (suc (suc (suc (suc k))))) h = absurd (omega arith)

after_done : adv_round true (after 4) ≡ after 4
unfolding adv_round hci_cmd
after_done = refl

idle_round : (a : Advertiser) → adv_round false a ≡ a
unfolding adv_round
idle_round a = refl

task_after :
    (rounds : List Bool) (k : ℕ)
    → k ≤ 4
    → ble_advt_task rounds (after k) ≡ after (min (k + available rounds) 4)
unfolding ble_advt_task
task_after [] k h = let same : k ≡ min (k + 0) 4 = omega arith in ap after same
task_after (false ∷ rounds) k h =
    ap (ble_advt_task rounds) (idle_round (after k)) ∙ task_after rounds k h
task_after (true ∷ rounds) k h = elim (Bool-cases (ltb k 4)) [
  | inl more ↦
      let same : min (suc k + available rounds) 4 ≡ min (k + suc (available rounds)) 4 =
        omega arith in
      task_after rounds (suc k) (ground arith) ∙ ap after same
  | inr last ↦
      let top : k ≡ 4 = ground arith in
      let same : min (4 + available rounds) 4 ≡ min (k + suc (available rounds)) 4 = omega arith in
      ap (λ j. ble_advt_task rounds (adv_round true (after j))) top
      ∙ ap (ble_advt_task rounds) after_done
      ∙ task_after rounds 4 (omega arith)
      ∙ ap after same
]

-- Whenever the controller is ready, the task sends the next of four commands: reset, the
-- parameters, the data with the name, and the start, byte for byte as HCI encodes them. Each is sent
-- once, in this order, and nothing after the fourth.
pub ble_advt_task_lem :
    (rounds : List Bool)
    → (ble_advt_task rounds initial_advertiser).packets ≡ take (min (available rounds) 4) script
ble_advt_task_lem rounds =
    let fits : min (0 + available rounds) 4 ≤ 4 = omega arith in
    let same : min (0 + available rounds) 4 ≡ min (available rounds) 4 = omega arith in
    ap (λ a. a.packets) (task_after rounds 0 (omega arith))
    ∙ after_packets (min (0 + available rounds) 4) fits
    ∙ ap (λ k. take k script) same
