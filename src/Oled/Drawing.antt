-- ===== src/Oled/Drawing.antt =====
-- What the text of ssd1306.c and ui.c puts on the display: each transaction, glyph by glyph.
use dmesh_l.Base.{
  ℕ, ◌+◌, ◌≤◌, ◌<◌, ◌≡◌, refl, ◌∙◌, ap, true, some, List, [], ◌∷◌, ◌++◌, arith, ◌==◌, ==_iff,
  bit_or, get_elem?, get_or, get_elem?-eq-get_or, length, append-nil, append_assoc, ◌>>◌, modify,
  seq-then, holds_under, from_table,
}
use dmesh_l.Oled.Font.{font8x8_basic_tr}
use dmesh_l.Oled.Panel.{
  Panel, write_char, glyph_index, write_chars, select_page, page_for, row, ui_println, print_all,
  write_address, data_stream, cmd_stream,
}
use dmesh_l.Oled.Lines.{AllAscii, AllTextsAscii, row-AllAscii}

-- The characters of a line, one transaction each.
abbrev pub glyphs : List ℕ → List (List ℕ)
glyphs [] = []
glyphs (c ∷ cs) = (write_address ∷ data_stream ∷ get_or font8x8_basic_tr c []) ∷ glyphs cs

-- The cursor goes to the start of a page.
abbrev pub to_page : ℕ → List ℕ
to_page page = write_address ∷ cmd_stream ∷ 0 ∷ 0x10 ∷ (0xb0 + page) ∷ []

-- Lines drawn one below the other: after each, the cursor goes to the page of the next.
abbrev pub lines_from : (line : ℕ) → List (List ℕ) → List (List ℕ)
lines_from line [] = []
lines_from line (cs ∷ css) = glyphs cs ++ to_page (line + 1) ∷ lines_from (line + 1) css

abbrev pub rows : List (List ℕ) → List (List ℕ)
rows [] = []
rows (text ∷ texts) = row text ∷ rows texts

write_char-run :
    (c : ℕ) (p : Panel)
    → c < 128
    → write_char c p
      ≡ some (
        tt,
        record p {
          transactions =
              p.transactions ++ (write_address ∷ data_stream ∷ get_or font8x8_basic_tr c []) ∷ [];
        },
      )
unfolding write_char glyph_index
write_char-run c p small =
    let index : glyph_index c ≡ c = ground arith in
    let found : get_elem? font8x8_basic_tr c ≡ some (get_or font8x8_basic_tr c []) =
      get_elem?-eq-get_or font8x8_basic_tr c [] small in
    rw (index, found, write_char)

-- The panel after more transactions.
abbrev told : List (List ℕ) → Panel → Panel
told ts p = record p { transactions = p.transactions ++ ts }

write_chars-run :
    (cs : List ℕ) (p : Panel) → AllAscii cs → write_chars cs p ≡ some (tt, told (glyphs cs) p)
unfolding write_chars
write_chars-run [] p all = rw (append-nil p.transactions) refl
write_chars-run (c ∷ cs) p all =
    seq-then (write_char c) (write_chars cs) (write_char-run c p all.0) (write_chars-run cs _ all.1)
    ∙ rw (append_assoc p.transactions (glyphs (c ∷ [])) (glyphs cs)) refl

page_table : holds_under (λ l. bit_or 0xb0 (page_for l) == 0xb0 + l) 9 ≡ true
unfolding holds_under page_for
page_table = refl

page_for-byte : (l : ℕ) → l < 9 → bit_or 0xb0 (page_for l) ≡ 0xb0 + l
page_for-byte l h = (==_iff _ (0xb0 + l)).0 (from_table _ 9 page_table h)

ui_println-run :
    (text : List ℕ) (p : Panel)
    → AllAscii text
    → p.line < 8
    → ui_println text p
      ≡ some (tt, record (told (lines_from p.line (row text ∷ [])) p) { line = p.line + 1 })
unfolding ui_println select_page
ui_println-run text p all h =
    let drawn : Panel = told (glyphs (row text)) p in
    seq-then (write_chars (row text) >> modify (λ q. record q { line = q.line + 1 })) _
      (seq-then (write_chars (row text)) (modify λ q. record q { line = q.line + 1 })
        (write_chars-run (row text) p (row-AllAscii text all)) refl)
      (rw
        (page_for-byte (p.line + 1) (omega arith), append_assoc p.transactions (glyphs (row text)))
        refl)

-- Lines of ASCII text that still fit on the display are drawn one below the other.
pub print_all-run :
    (texts : List (List ℕ)) (p : Panel)
    → AllTextsAscii texts
    → p.line + length texts ≤ 8
    → print_all texts p
      ≡ some (tt, record (told (lines_from p.line (rows texts)) p) { line = p.line + length texts })
unfolding print_all
print_all-run [] p all h =
    rw (append-nil p.transactions) (ap (λ l. some (tt, record p { line = l })) (omega arith))
print_all-run (text ∷ texts) p all h =
    let last : p.line + 1 + length texts ≡ p.line + length (text ∷ texts) = omega arith in
    seq-then (ui_println text) (print_all texts) (ui_println-run text p all.0 (omega arith))
      (print_all-run texts _ all.1 (omega arith))
    ∙ rw (last, append_assoc p.transactions, append_assoc (glyphs (row text))) refl
