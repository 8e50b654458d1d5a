-- ===== src/Ui/Screen.antt =====
-- The texts of ui.c and its other routines.
use dmesh_l.Base.{
  ℕ, ◌-◌, ◌^◌, Bool, List, [], ◌∷◌, ◌++◌, ◌==◌, ltb, if◌then◌else◌, ℤ, pos, negsuc, gt_const,
  signed_text, take, codes, bit_or, bit_and, not, M,
}
use dmesh_l.Lora.Radio.{LoraState}
use dmesh_l.Nan.Driver.{Nan}
use dmesh_l.Oled.Panel.{Panel, task_ui_round}
use dmesh_l.I2c.Bus.{Bus, i2c_master_init}

-- `%d` of a counter, an `int` that is kept as its 32 bits.
unfoldable pub counter_text : ℕ → List ℕ
counter_text n = signed_text (if ltb n (2 ^ 31) then pos n else negsuc (2 ^ 32 - 1 - n))

-- snprintf into 20 bytes.
abbrev pub printed : List ℕ → List ℕ
printed text = take 19 text

-- "L:%d/%d %d/%d"
unfoldable pub lora_text : LoraState → List ℕ
lora_text l =
    codes "L:"
    ++ (counter_text l.lora_beacons
        ++ (b'/'
            ∷ (counter_text l.lora_received
                ++ (b' ' ∷ (signed_text l.last.rssi ++ (b'/' ∷ signed_text l.last.snr))))))

unfoldable pub lora_line : LoraState → List ℕ
lora_line l = printed (lora_text l)

-- "N: %d %d %d %d"
unfoldable pub nan_text : Nan → List ℕ
nan_text n =
    codes "N: "
    ++ (counter_text n.nan_messages_in
        ++ (b' '
            ∷ (counter_text n.nan_s_beacon
                ++ (b' ' ∷ (counter_text n.nan_d_beacon ++ (b' ' ∷ counter_text n.nan_packets))))))

unfoldable pub nan_line : Nan → List ℕ
nan_line n = printed (nan_text n)

-- The calls of the task around the drawing, and of `register_ui`.
pub data UiCall : Type 0 where
  set_output set_high : (pin : ℤ) → UiCall
  lock_acquire lock_release create_task : UiCall

-- The reset pin, where one is set.
unfoldable pub raise_reset : (rst : ℤ) → List UiCall
raise_reset rst = if gt_const rst 0 then set_output rst ∷ set_high rst ∷ [] else []

-- A round of `task_ui`: the calls, and what it draws of the time, which strftime formats, and of
-- the counters of the two radios.
unfoldable pub round_calls : (rst : ℤ) → List UiCall
round_calls rst = raise_reset rst ++ lock_acquire ∷ lock_release ∷ []

unfoldable pub ui_round : (time : List ℕ) → LoraState → Nan → M Panel (Unit {0})
ui_round time l n = task_ui_round time (lora_line l) (nan_line n)

-- `oled_wakeup`
unfoldable pub oled_wakeup : (rst : ℤ) → List UiCall
oled_wakeup rst = raise_reset rst

-- `ui_update` sets the bits of the mask 0, and the task waits for bit 1.
unfoldable pub ui_update : (line bits : ℕ) → ℕ
ui_update line bits = bit_or bits 0

unfoldable pub task_wakes : (bits : ℕ) → Bool
task_wakes bits = not (bit_and bits 1 == 0)

-- The pin `rst` and the calls of `register_ui`, and the bus: `oledrst`, `sda` and `scl` are what
-- nvs_get_i32 does for the settings, `init_code` what ssd1306_init returns.
unfoldable pub register_ui :
    (oledrst sda scl : ℕ × ℤ) (init_code : ℕ) → Bus → (ℤ × List UiCall) × Bus
register_ui oledrst sda scl init_code s =
    let stored = oledrst.0 == 0 in
    let rst = if stored then oledrst.1 else negsuc 0 in
    let reset = if stored then set_output rst ∷ set_high rst ∷ [] else [] in
    let (code, s1) = i2c_master_init sda scl s in
    (
      (
        rst,
        reset ++ (elim code [
          | pos n ↦ if n == 0 then (if init_code == 0 then create_task ∷ [] else []) else []
          | negsuc n ↦ []
        ]),
      ),
      s1,
    )
