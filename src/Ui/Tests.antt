-- ===== src/Ui/Tests.antt =====
-- The theorem on the display of ui.c at a concrete input.
use dmesh_l.Base.{signed_text, decimal, digits, ◌≡◌, refl, some, [], ◌∷◌, arith, codes}
use dmesh_l.Lora.Radio.{initial_lora}
use dmesh_l.Nan.Samples.{node}
use dmesh_l.Oled.Panel.{Panel}
use dmesh_l.Oled.Drawing.{to_page, lines_from}
use dmesh_l.Ui.Screen.{counter_text, lora_text, ui_round}
use dmesh_l.Ui.Display.{screen, ui_round_lem}

abbrev blank_panel : Panel
blank_panel = record { line = 0; transactions = [] }

lora_text_initially : lora_text initial_lora ≡ codes "L:0/0 0/0"
unfolding lora_text counter_text signed_text decimal digits
lora_text_initially = refl

ui_round_lem_example :
    ui_round (codes "1:2") initial_lora node blank_panel
    ≡ some (
      tt,
      record {
        line = 8;
        transactions = to_page 0 ∷ lines_from 0 (screen (codes "1:2") initial_lora node);
      },
    )
ui_round_lem_example =
    ui_round_lem (codes "1:2") initial_lora node blank_panel
      (omega arith, (omega arith, (omega arith, tt))) (omega arith)
