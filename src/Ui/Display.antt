-- ===== src/Ui/Display.antt =====
-- What the display of ui.c shows, for all counters.
use dmesh_l.Base.{
  append_assoc, ◌∙◌, seq-then, u8, replicate, take-length, ℕ, zero, suc, ◌-◌, ◌≤◌, ◌<◌, ◌≡◌, refl,
  ap, true, some, List, [], ◌∷◌, ◌++◌, ltb, arith, ℤ, pos, negsuc, signed_text, decimal, digits,
  take, length, length-take, min, ◌/◌, ◌^◌, if◌then◌else◌, Bool-cases, inl, inr,
}
use dmesh_l.Lora.Radio.{LoraState}
use dmesh_l.Nan.Driver.{Nan}
use dmesh_l.Oled.Panel.{Panel, row, task_ui_round, ui_setline, select_page, page_for, print_all}
use dmesh_l.Oled.Lines.{AllAscii, spaces-AllAscii}
use dmesh_l.Oled.Drawing.{to_page, lines_from, rows, print_all-run}
use dmesh_l.Ui.Screen.{counter_text, printed, lora_line, nan_line, lora_text, nan_text, ui_round}

append-AllAscii : (xs ys : List ℕ) → AllAscii xs → AllAscii ys → AllAscii (xs ++ ys)
append-AllAscii [] ys a b = b
append-AllAscii (x ∷ xs) ys a b = (a.0, append-AllAscii xs ys a.1 b)

take-AllAscii : (n : ℕ) (xs : List ℕ) → AllAscii xs → AllAscii (take n xs)
take-AllAscii zero xs a = tt
take-AllAscii (suc n) [] a = tt
take-AllAscii (suc n) (x ∷ xs) a = (a.0, take-AllAscii n xs a.1)

digits-AllAscii : (fuel n : ℕ) → AllAscii (digits fuel n)
unfolding digits
digits-AllAscii zero n = tt
digits-AllAscii (suc fuel) n = elim (Bool-cases (ltb n 10)) [
  | inl small ↦ rw small (ground arith, tt)
  | inr large ↦
      rw large
        (append-AllAscii (digits fuel (n / 10)) _ (digits-AllAscii fuel (n / 10)) (omega arith, tt))
]

signed_text-AllAscii : (v : ℤ) → AllAscii (signed_text v)
unfolding signed_text decimal
signed_text-AllAscii (pos n) = digits-AllAscii (suc n) n
signed_text-AllAscii (negsuc n) = (omega arith, digits-AllAscii (suc (suc n)) (suc n))

counter_text-AllAscii : (n : ℕ) → AllAscii (counter_text n)
unfolding counter_text
counter_text-AllAscii n =
    signed_text-AllAscii (if ltb n (2 ^ 31) then pos n else negsuc (2 ^ 32 - 1 - n))

-- A text, one character and a text.
joined-AllAscii :
    (xs : List ℕ) (c : ℕ) (ys : List ℕ)
    → AllAscii xs
    → c < 128
    → AllAscii ys
    → AllAscii (xs ++ c ∷ ys)
joined-AllAscii xs c ys a h b = append-AllAscii xs (c ∷ ys) a (h, b)

lora_text-AllAscii : (l : LoraState) → AllAscii (lora_text l)
unfolding lora_text
lora_text-AllAscii l = (
  omega arith,
  (
    omega arith,
    joined-AllAscii (counter_text l.lora_beacons) b'/' _ (counter_text-AllAscii l.lora_beacons)
        (omega arith)
        (joined-AllAscii (counter_text l.lora_received) b' ' _
          (counter_text-AllAscii l.lora_received) (omega arith)
          (joined-AllAscii (signed_text l.last.rssi) b'/' _ (signed_text-AllAscii l.last.rssi)
            (omega arith) (signed_text-AllAscii l.last.snr))),
  ),
)

nan_text-AllAscii : (n : Nan) → AllAscii (nan_text n)
unfolding nan_text
nan_text-AllAscii n = (
  omega arith,
  (
    omega arith,
    (
      omega arith,
      joined-AllAscii (counter_text n.nan_messages_in) b' ' _
          (counter_text-AllAscii n.nan_messages_in) (omega arith)
          (joined-AllAscii (counter_text n.nan_s_beacon) b' ' _
            (counter_text-AllAscii n.nan_s_beacon) (omega arith)
            (joined-AllAscii (counter_text n.nan_d_beacon) b' ' _
              (counter_text-AllAscii n.nan_d_beacon) (omega arith)
              (counter_text-AllAscii n.nan_packets))),
    ),
  ),
)

take-take : (n : ℕ) (xs : List ℕ) (m : ℕ) → m ≤ n → take m (take n xs) ≡ take m xs
take-take n xs zero h = refl
take-take zero xs (suc m) h = absurd (omega arith)
take-take (suc n) [] (suc m) h = refl
take-take (suc n) (x ∷ xs) (suc m) h = ap (◌∷◌ x) (take-take n xs m (omega arith))

lora_line-AllAscii : (l : LoraState) → AllAscii (lora_line l)
unfolding lora_line
lora_line-AllAscii l = take-AllAscii 19 (lora_text l) (lora_text-AllAscii l)

nan_line-AllAscii : (n : Nan) → AllAscii (nan_line n)
unfolding nan_line
nan_line-AllAscii n = take-AllAscii 19 (nan_text n) (nan_text-AllAscii n)

-- A text, cut or padded to the sixteen columns of the display.
abbrev pub shown : List ℕ → List ℕ
shown text = take 16 text ++ replicate (16 - length text) b' '

-- What snprintf leaves of a text is shown as the text itself.
row-printed : (text : List ℕ) → row (printed text) ≡ shown text
unfolding row
row-printed text =
    let n : ℕ = length text in
    let cut_length : length (printed text) ≡ min 19 n = length-take 19 text in
    elim (Bool-cases (ltb 16 n)) [
      | inl long ↦
          let e : u8 (length (printed text)) ≡ min 19 n = omega (arith, cut_length) in
          let over : ltb 16 (min 19 n) ≡ true = ground arith in
          let none_left : 16 - n ≡ 0 = ground arith in
          rw (e, over, none_left, take-take 19 text 16 (omega arith))
      | inr short ↦
          let e : u8 (length (printed text)) ≡ n = ground (arith, cut_length) in
          let all : take 16 text ≡ text = take-length 16 text (ground arith) in
          rw (e, short, all, take-length 19 text (ground arith), take-length n text (omega arith))
    ]

-- A text of fewer than 256 bytes is shown as it is, cut or padded.
row-shown : (text : List ℕ) → length text < 256 → row text ≡ shown text
unfolding row
row-shown text h =
    let n : ℕ = length text in
    let e : u8 n ≡ n = ground arith in
    elim (Bool-cases (ltb 16 n)) [
      | inl long ↦ let none_left : 16 - n ≡ 0 = ground arith in rw (e, long, none_left) refl
      | inr short ↦
          rw (e, short, take-length 16 text (ground arith), take-length n text (omega arith))
    ]

-- The eight lines that the display shows.
abbrev pub screen : (time : List ℕ) → LoraState → Nan → List (List ℕ)
screen time l n =
    shown time ∷ shown (lora_text l) ∷ shown (nan_text n) ∷ replicate 5 (replicate 16 b' ')

rows-screen :
    (time : List ℕ) (l : LoraState) (n : Nan)
    → length time < 256
    → rows (time ∷ lora_line l ∷ nan_line n ∷ replicate 5 (replicate 16 b' ')) ≡ screen time l n
unfolding lora_line nan_line row
rows-screen time l n short =
    rw (row-shown time short, row-printed (lora_text l), row-printed (nan_text n)) refl

-- One round of `task_ui` always ends, whatever the counters of the two radios are, if the time is
-- ASCII text of fewer than 256 bytes. It puts the cursor on page 0 of the display and writes eight
-- lines, glyph by glyph, after each of which it moves the cursor to the page below, to page 8 after
-- the last, whatever was drawn before: the time, the texts of the two radios with all counters, each
-- cut or padded to 16 characters, and five lines of spaces.
pub ui_round_lem :
    (time : List ℕ) (l : LoraState) (n : Nan) (p : Panel)
    → AllAscii time
    → length time < 256
    → ui_round time l n p
      ≡ some (
        tt,
        record {
          line = 8;
          transactions = p.transactions ++ to_page 0 ∷ lines_from 0 (screen time l n);
        },
      )
unfolding ui_round task_ui_round ui_setline select_page page_for
ui_round_lem time l n p ascii short =
    let blank : List ℕ = replicate 16 b' ' in
    let s = spaces-AllAscii 16 in
    let texts : List (List ℕ) = time ∷ lora_line l ∷ nan_line n ∷ replicate 5 blank in
    let start : Panel = record { line = 0; transactions = p.transactions ++ to_page 0 ∷ [] } in
    seq-then (ui_setline 0) (print_all texts) {s = p} {t = start} refl (
      print_all-run texts start
        (ascii, (lora_line-AllAscii l, (nan_line-AllAscii n, (s, (s, (s, (s, (s, tt))))))))
        (omega arith))
    ∙ ap (λ ts. some (tt, record { line = 8; transactions = ts }))
        (append_assoc p.transactions (to_page 0 ∷ []) (lines_from 0 (rows texts))
          ∙ ap (λ css. p.transactions ++ to_page 0 ∷ lines_from 0 css) (rows-screen time l n short))
