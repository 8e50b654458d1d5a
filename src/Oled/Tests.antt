-- ===== src/Oled/Tests.antt =====
-- Runs of the model of the display, and its theorems at concrete inputs.
use dmesh_l.Base.{ℕ, ◌≡◌, refl, List, length, codes}
use dmesh_l.Oled.Panel.{row}

abbrev text : List ℕ
text = codes "L:3/4"

pads_short_text : length (row text) ≡ 16
unfolding row
pads_short_text = refl
