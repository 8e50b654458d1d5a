-- ===== src/Oled/Panel.antt =====
-- esp32/components/ssd1306/ssd1306.c as the I2C transactions that it makes, and one round of the
-- display task of esp32/main/ui.c.
use dmesh_l.Base.{
  ℕ, zero, suc, ◌+◌, ◌-◌, ◌*◌, ◌/◌, none, some, List, [], ◌∷◌, ◌++◌, ltb, ◌==◌, if◌then◌else◌, u8,
  bit_or, get_elem?, length, replicate, take, M, ◌>>◌, pure, modify,
}
use dmesh_l.Oled.Font.{font8x8_basic_tr}

-- `ui`, whose `lines` are not used, and the transactions so far: the bytes after each start.
pub record Panel : Type 0 where
  pub line : ℕ
  pub transactions : List (List ℕ)

-- (OLED_I2C_ADDRESS << 1) | I2C_MASTER_WRITE
abbrev pub write_address : ℕ
write_address = 0x78

abbrev pub cmd_single : ℕ
cmd_single = 0x80

abbrev pub cmd_stream : ℕ
cmd_stream = 0x00

abbrev pub data_stream : ℕ
data_stream = 0x40

abbrev pub transact : List ℕ → M Panel (Unit {0})
transact bytes =
    modify λ p. record p { transactions = p.transactions ++ (write_address ∷ bytes) ∷ [] }

-- `sendCommand`
abbrev pub send_command : ℕ → M Panel (Unit {0})
send_command x = transact (cmd_single ∷ x ∷ [])

abbrev pub send_commands : List ℕ → M Panel (Unit {0})
send_commands [] = pure tt
send_commands (x ∷ xs) = send_command x >> send_commands xs

-- `displayOn`, `displayOff`, `invertDisplay`, `normalDisplay`
abbrev pub display_on : M Panel (Unit {0})
display_on = send_command 0xaf

abbrev pub display_off : M Panel (Unit {0})
display_off = send_command 0xae

abbrev pub invert_display : M Panel (Unit {0})
invert_display = send_command 0xa7

abbrev pub normal_display : M Panel (Unit {0})
normal_display = send_command 0xa6

-- The index of the glyph that `writeChar` reads.
unfoldable pub glyph_index : ℕ → ℕ
glyph_index c = if ltb 128 c then 0 else c

-- `writeChar`; `none` is a glyph behind the end of the font.
unfoldable pub write_char : ℕ → M Panel (Unit {0})
write_char c p = elim (get_elem? font8x8_basic_tr (glyph_index c)) [
  | none ↦ none
  | some glyph ↦ transact (data_stream ∷ glyph) p
]

-- The page that `ui_setline` selects.
unfoldable pub page_for : (line : ℕ) → ℕ
page_for line = if ltb 8 line then 0 else line

-- The transaction of `ui_setline`.
unfoldable pub select_page : (page : ℕ) → M Panel (Unit {0})
select_page page = transact (cmd_stream ∷ 0x00 ∷ 0x10 ∷ bit_or 0xb0 page ∷ [])

-- `ui_setline`
unfoldable pub ui_setline : (line : ℕ) → M Panel (Unit {0})
ui_setline line = modify (λ p. record p { line = page_for line }) >> select_page (page_for line)

unfoldable pub write_chars : List ℕ → M Panel (Unit {0})
write_chars [] = pure tt
write_chars (c ∷ cs) = write_char c >> write_chars cs

-- The sixteen characters of `ui_println`: the length is a `uint8_t`.
unfoldable pub row : (text : List ℕ) → List ℕ
row text =
    let text_len = u8 (length text) in
    let cut = if ltb 16 text_len then 16 else text_len in take cut text ++ replicate (16 - cut) b' '

-- `ui_println`. It moves `line` on, and passes the address of its own pointer to `ui_setline`, so
-- that the page stored there is lost.
unfoldable pub ui_println : (text : List ℕ) → M Panel (Unit {0})
ui_println text p =
    (write_chars (row text) >> modify (λ q. record q { line = q.line + 1 }) >> λ q.
    select_page (page_for q.line) q)
      p

-- `setContrast`
unfoldable pub set_contrast : (contrast precharge comdetect : ℕ) → M Panel (Unit {0})
set_contrast contrast precharge comdetect =
    send_commands (0xd9 ∷ precharge ∷ 0x81 ∷ contrast ∷ 0xdb ∷ comdetect ∷ 0xa4 ∷ 0xa6 ∷ 0xaf ∷ [])

-- `sendInitCommands`
unfoldable pub send_init_commands : M Panel (Unit {0})
send_init_commands = send_commands (
    0xae ∷ 0xd5 ∷ 0xf0 ∷ 0xd3 ∷ 0x00 ∷ 0x40 ∷ 0x8d ∷ 0x14 ∷ 0x20 ∷ 0x00 ∷ 0xa0 ∷ 0xc0 ∷ 0xda ∷ 0x12
    ∷ 0x81 ∷ 0xcf ∷ 0xd9 ∷ 0xf1 ∷ 0xdb ∷ 0x40 ∷ 0xa4 ∷ 0xa6 ∷ 0x2e ∷ 0xaf ∷ [])

-- `brightness * 1.171` and `brightness * 1.171 - 43`, cut to an integer.
unfoldable pub contrast_for : (brightness : ℕ) → ℕ
contrast_for brightness =
    if ltb brightness 128
    then u8 (brightness * 1171 / 1000)
    else u8 ((brightness * 1171 - 43000) / 1000)

-- `setBrightness`
unfoldable pub set_brightness : (brightness : ℕ) → M Panel (Unit {0})
set_brightness brightness =
    set_contrast (contrast_for brightness) (if brightness == 0 then 0 else 241) (brightness / 8)

-- `displaySleep` and `displayWakeup`
unfoldable pub display_sleep : M Panel (Unit {0})
display_sleep = send_commands (0x8d ∷ 0x10 ∷ 0xae ∷ [])

unfoldable pub display_wakeup : M Panel (Unit {0})
display_wakeup = send_commands (0x8d ∷ 0x14 ∷ 0xaf ∷ [])

-- The loop of `display_clear`, with `left` pages to go.
unfoldable pub clear_pages : (left page : ℕ) → M Panel (Unit {0})
clear_pages zero page = pure tt
clear_pages (suc left) page =
    transact (cmd_single ∷ bit_or 0xb0 page ∷ data_stream ∷ replicate 128 0)
    >> clear_pages left (page + 1)

-- `display_clear`
unfoldable pub display_clear : M Panel (Unit {0})
display_clear = clear_pages 8 0

-- `ssd1306_init`; its result is that of the bus.
unfoldable pub ssd1306_init : M Panel (Unit {0})
ssd1306_init = transact (cmd_stream ∷ 0x8d ∷ 0x14 ∷ 0xa1 ∷ 0xc8 ∷ 0xaf ∷ [])

unfoldable pub print_all : List (List ℕ) → M Panel (Unit {0})
print_all [] = pure tt
print_all (text ∷ texts) = ui_println text >> print_all texts

-- What one round of `task_ui` draws: the three texts that it formats, and five empty lines.
unfoldable pub task_ui_round : (time lora_line nan_line : List ℕ) → M Panel (Unit {0})
task_ui_round time lora_line nan_line =
    ui_setline 0 >> print_all (time ∷ lora_line ∷ nan_line ∷ replicate 5 (replicate 16 b' '))
