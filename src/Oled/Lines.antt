-- ===== src/Oled/Lines.antt =====
-- Which pages the text of ssd1306.c and ui.c lands on.
use dmesh_l.Base.{
  ℕ, zero, suc, ◌+◌, ◌-◌, ◌*◌, ◌/◌, ◌≤◌, ◌<◌, ◌≡◌, refl, sym, ap, ◌∙◌, true, some, List, [], ◌∷◌,
  ◌++◌, arith, ltb, ◌==◌, if◌then◌else◌, ==_iff, u8, bit_or, get_elem?, get_or, get_elem?-eq-get_or,
  length, replicate, take, append-nil, append_assoc, M, ◌>>◌, modify, seq-then, holds_under,
  from_table,
}
use dmesh_l.Oled.Font.{font8x8_basic_tr}
use dmesh_l.Oled.Panel.{
  Panel, write_char, glyph_index, write_chars, select_page, page_for, row, ui_println, print_all,
  contrast_for, write_address, data_stream, cmd_stream,
}

-- The pages that a transaction selects, and all that the display has been told.
abbrev pub selected : List ℕ → List ℕ
selected (address ∷ control ∷ low ∷ high ∷ page ∷ []) =
    if control == 0 then (page - 0xb0) ∷ [] else []
selected _ = []

abbrev pub pages : List (List ℕ) → List ℕ
pages [] = []
pages (t ∷ ts) = selected t ++ pages ts

pages-append : (xs ys : List (List ℕ)) → pages (xs ++ ys) ≡ pages xs ++ pages ys
pages-append [] ys = refl
pages-append (x ∷ xs) ys =
    ap (◌++◌ (selected x)) (pages-append xs ys)
    ∙ sym (append_assoc (selected x) (pages xs) (pages ys))

selected-glyph : (glyph : List ℕ) → selected (write_address ∷ data_stream ∷ glyph) ≡ []
selected-glyph (a ∷ b ∷ c ∷ []) = refl
selected-glyph [] = refl
selected-glyph (a ∷ []) = refl
selected-glyph (a ∷ b ∷ []) = refl
selected-glyph (a ∷ b ∷ c ∷ d ∷ cs) = refl

-- The text has characters of the font only.
abbrev pub AllAscii : List ℕ → Type 0
AllAscii [] = Unit {0}
AllAscii (c ∷ cs) = (c < 128) × AllAscii cs

-- A run that draws, from the panel `p` on: it ends, moves on by `lines` and selects `drawn`.
abbrev pub Draws : (lines : ℕ) (drawn : List ℕ) → M Panel (Unit {0}) → Panel → Type 0
Draws lines drawn m p =
    (q : Panel) × (m p ≡ some (tt, q))
    × (q.line ≡ p.line + lines)
    × (pages q.transactions ≡ pages p.transactions ++ drawn)

write_char-Draws : (c : ℕ) (p : Panel) → c < 128 → Draws 0 [] (write_char c) p
unfolding write_char glyph_index
write_char-Draws c p small =
    let glyph : List ℕ = get_or font8x8_basic_tr c [] in
    let index : glyph_index c ≡ c = ground arith in
    let found : get_elem? font8x8_basic_tr c ≡ some glyph =
      get_elem?-eq-get_or font8x8_basic_tr c [] small in
    (
      record p { transactions = p.transactions ++ (write_address ∷ data_stream ∷ glyph) ∷ [] },
      rw (index, found, write_char),
      omega arith,
      pages-append p.transactions _ ∙ rw (selected-glyph glyph),
    )

write_chars-Draws : (cs : List ℕ) (p : Panel) → AllAscii cs → Draws 0 [] (write_chars cs) p
unfolding write_chars
write_chars-Draws [] p all = (p, refl, omega arith, sym (append-nil _))
write_chars-Draws (c ∷ cs) p all =
    let (q, e, l, d) = write_char-Draws c p all.0 in
    let (r, e', l', d') = write_chars-Draws cs q all.1 in
    (r, seq-then (write_char c) (write_chars cs) e e', omega arith, d' ∙ append-nil _ ∙ d)

take-AllAscii : (n : ℕ) (cs : List ℕ) → AllAscii cs → AllAscii (take n cs)
take-AllAscii zero cs all = tt
take-AllAscii (suc n) [] all = tt
take-AllAscii (suc n) (c ∷ cs) all = (all.0, take-AllAscii n cs all.1)

append-AllAscii : (xs ys : List ℕ) → AllAscii xs → AllAscii ys → AllAscii (xs ++ ys)
append-AllAscii [] ys a b = b
append-AllAscii (x ∷ xs) ys a b = (a.0, append-AllAscii xs ys a.1 b)

pub spaces-AllAscii : (n : ℕ) → AllAscii (replicate n b' ')
spaces-AllAscii zero = tt
spaces-AllAscii (suc n) = (omega arith, spaces-AllAscii n)

pub row-AllAscii : (text : List ℕ) → AllAscii text → AllAscii (row text)
unfolding row
row-AllAscii text all =
    let cut : ℕ = if ltb 16 (u8 (length text)) then 16 else u8 (length text) in
    append-AllAscii (take cut text) (replicate (16 - cut) b' ') (take-AllAscii cut text all)
      (spaces-AllAscii (16 - cut))

page_table : holds_under (λ l. bit_or 0xb0 l - 0xb0 == l) 9 ≡ true
unfolding holds_under
page_table = refl

page_for-bound : (l : ℕ) → page_for l < 9
unfolding page_for
page_for-bound l = ground arith

page_for-selected : (l : ℕ) → bit_or 0xb0 (page_for l) - 0xb0 ≡ page_for l
page_for-selected l = (==_iff _ (page_for l)).0 (from_table _ 9 page_table (page_for-bound l))

select_page-pages :
    (l : ℕ) (p : Panel)
    → pages (
        p.transactions
        ++ (write_address ∷ cmd_stream ∷ 0 ∷ 0x10 ∷ bit_or 0xb0 (page_for l) ∷ []) ∷ [])
      ≡ pages p.transactions ++ page_for l ∷ []
select_page-pages l p = pages-append p.transactions _ ∙ rw (page_for-selected l)

ui_println-Draws :
    (text : List ℕ) (p : Panel)
    → AllAscii text
    → Draws 1 (page_for (p.line + 1) ∷ []) (ui_println text) p
unfolding ui_println select_page
ui_println-Draws text p all =
    let (q, e, l, d) = write_chars-Draws (row text) p (row-AllAscii text all) in
    let same : q.line ≡ p.line = omega arith in
    let moved : Panel = record q { line = q.line + 1 } in
    let page : ℕ = bit_or 0xb0 (page_for (q.line + 1)) in
    (
      record moved {
        transactions = q.transactions ++ (write_address ∷ cmd_stream ∷ 0 ∷ 0x10 ∷ page ∷ []) ∷ [];
      },
      seq-then (write_chars (row text) >> modify (λ q. record q { line = q.line + 1 })) _
          (seq-then (write_chars (row text)) (modify λ q. record q { line = q.line + 1 }) e refl)
          refl,
      omega arith,
      select_page-pages (q.line + 1) q
          ∙ ap (λ x. x ++ page_for (q.line + 1) ∷ []) (d ∙ append-nil _)
          ∙ ap (λ x. pages p.transactions ++ page_for (x + 1) ∷ []) same,
    )

-- The pages that `count` lines select, from `line` on.
abbrev pub page_sequence : (line count : ℕ) → List ℕ
page_sequence line zero = []
page_sequence line (suc count) = page_for (line + 1) ∷ page_sequence (line + 1) count

abbrev pub AllTextsAscii : List (List ℕ) → Type 0
AllTextsAscii [] = Unit {0}
AllTextsAscii (text ∷ texts) = AllAscii text × AllTextsAscii texts

print_all-Draws :
    (texts : List (List ℕ)) (p : Panel)
    → AllTextsAscii texts
    → Draws (length texts) (page_sequence p.line (length texts)) (print_all texts) p
unfolding print_all
print_all-Draws [] p all = (p, refl, omega arith, sym (append-nil _))
print_all-Draws (text ∷ texts) p all =
    let (q, e, l, d) = ui_println-Draws text p all.0 in
    let (r, e', l', d') = print_all-Draws texts q all.1 in
    (
      r,
      seq-then (ui_println text) (print_all texts) e e',
      omega arith,
      d' ∙ rw (d, l) (append_assoc (pages p.transactions) _ _),
    )

stuck : (line count : ℕ) → 8 ≤ line → page_sequence line count ≡ replicate count 0
unfolding page_for
stuck line zero h = refl
stuck line (suc count) h = ground (arith, stuck (line + 1) count (omega arith))

-- After eight lines without `ui_setline`, every further line of ASCII text selects page 0 again:
-- the line number is not wrapped, and all of them are drawn over each other on that page.
pub print_all_sticks :
    (texts : List (List ℕ)) (p : Panel)
    → AllTextsAscii texts
    → 8 ≤ p.line
    → (q : Panel) × (print_all texts p ≡ some (tt, q))
      × (q.line ≡ p.line + length texts)
      × (pages q.transactions ≡ pages p.transactions ++ replicate (length texts) 0)
print_all_sticks texts p all h =
    let (q, e, l, d) = print_all-Draws texts p all in
    (q, e, l, d ∙ ap (λ x. pages p.transactions ++ x) (stuck p.line (length texts) h))

-- The contrast follows the brightness without wrapping: it is 1.171 times the brightness, rounded
-- down, below 128, and 43 less from there on, and neither leaves a byte.
pub contrast_for_lem :
    (brightness : ℕ)
    → brightness < 256
    → (contrast_for brightness ≡ (
        if ltb brightness 128
        then brightness * 1171 / 1000
        else (brightness * 1171 - 43000) / 1000))
      × (contrast_for brightness < 256)
unfolding contrast_for
contrast_for_lem brightness h = ground arith

-- The contrast is not monotone: every brightness from 92 to 127 gives a higher contrast than 128.
pub contrast_for_drops :
    (brightness : ℕ)
    → 92 ≤ brightness
    → brightness < 128
    → contrast_for 128 < contrast_for brightness
unfolding contrast_for
contrast_for_drops brightness l h = ground arith
