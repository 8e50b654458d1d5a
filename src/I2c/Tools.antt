-- ===== src/I2c/Tools.antt =====
-- The commands of i2ctools.c that use the bus.
use dmesh_l.Base.{
  ℕ, zero, suc, ◌+◌, ◌-◌, ◌*◌, ◌/◌, ◌%◌, Bool, Option, none, some, List, [], ◌∷◌, ◌++◌, ◌==◌, ◌||◌,
  ltb, leb, if◌then◌else◌, ℤ, pos, negsuc, u8, codes, map,
}
use dmesh_l.Console.Blob.{hex_digit}
use dmesh_l.I2c.Bus.{
  BusOp, start, stop, read_last, write, read_acked, BusCall, begin, Bus, bus_called, u8_of_int,
  open_driver, close_driver,
}

-- `%02x` of a byte.
unfoldable pub hex_byte : ℕ → List ℕ
hex_byte n = hex_digit (n / 16) ∷ hex_digit (n % 16) ∷ []

abbrev pub crlf : List ℕ
crlf = 13 ∷ 10 ∷ []

-- ESP_ERR_TIMEOUT
abbrev pub err_timeout : ℕ
err_timeout = 0x107

-- The first byte of a transaction: `chip_addr << 1` with WRITE_BIT or READ_BIT.
abbrev pub write_to : (chip : ℤ) → ℕ
write_to chip = u8 (u8_of_int chip * 2)

abbrev pub read_from : (chip : ℤ) → ℕ
read_from chip = write_to chip + 1

-- The end of a read of `len` bytes, of which all but the last are acknowledged.
unfoldable pub read_ops : (len : ℕ) → List BusOp
read_ops len = (if ltb 1 len then read_acked (len - 1) ∷ [] else []) ++ read_last ∷ stop ∷ []

-- A read of `len` bytes from a register on.
unfoldable pub register_read : (chip : ℤ) (register len : ℕ) → List BusOp
register_read chip register len =
    start ∷ write (write_to chip) ∷ write register ∷ start ∷ write (read_from chip) ∷ read_ops len

-- What `i2cget` prints of the bytes that it read, the first at index `i`.
unfoldable pub print_bytes : (i : ℕ) → List ℕ → List ℕ
print_bytes i [] = if i % 16 == 0 then [] else crlf
print_bytes i (x ∷ xs) =
    codes "0x"
    ++ (hex_byte x ++ (b' ' ∷ ((if (i + 1) % 16 == 0 then crlf else []) ++ print_bytes (i + 1) xs)))

-- The values of a dumped read: the bytes, or -1 for each.
pub data Cell : Type 0 where
  value : ℕ → Cell
  unreadable : Cell

unfoldable pub unreadables : (size : ℕ) → List Cell
unreadables zero = []
unreadables (suc n) = unreadable ∷ unreadables n

unfoldable pub cell_text : Cell → List ℕ
cell_text (value x) = hex_byte x ++ b' ' ∷ []
cell_text unreadable = codes "XX "

-- The character of a byte in the right column of the dump. An unreadable one gets an X, and then,
-- as -1 has the low byte 0xff, a point.
unfoldable pub cell_char : Cell → List ℕ
cell_char (value x) =
    if x == 0 || x == 0xff then b'.' ∷ [] else if ltb x 32 || leb 127 x then b'?' ∷ [] else x ∷ []
cell_char unreadable = b'X' ∷ b'.' ∷ []

unfoldable pub concat_map : (Cell → List ℕ) → List Cell → List ℕ
concat_map f [] = []
concat_map f (c ∷ cs) = f c ++ concat_map f cs

abbrev pub detect_head : List ℕ
detect_head = codes "     0  1  2  3  4  5  6  7  8  9  a  b  c  d  e  f" ++ crlf

-- The transaction of `i2cget`; a register of -1 is none.
unfoldable pub get_ops : (chip : ℤ) (register : ℤ) (len : ℕ) → List BusOp
get_ops chip (negsuc zero) len = start ∷ write (read_from chip) ∷ read_ops len
get_ops chip (negsuc (suc n)) len = register_read chip (u8_of_int (negsuc (suc n))) len
get_ops chip (pos n) len = register_read chip (u8_of_int (pos n)) len

-- The transaction of `i2cset`.
unfoldable pub set_ops : (chip : ℤ) (register : Option ℤ) (bytes : List ℤ) → List BusOp
set_ops chip none bytes =
    start ∷ write (write_to chip) ∷ map (λ x. write (u8_of_int x)) bytes ++ stop ∷ []
set_ops chip (some register) bytes =
    start
      ∷ write (write_to chip)
      ∷ write (u8_of_int register)
      ∷ map (λ x. write (u8_of_int x)) bytes
    ++ stop ∷ []

abbrev pub dump_head : List ℕ
dump_head = codes "     0  1  2  3  4  5  6  7  8  9  a  b  c  d  e  f    0123456789abcdef" ++ crlf

abbrev pub is_read_size : ℕ → Bool
is_read_size n = n == 1 || n == 2 || n == 4

-- What the bus answers to a transaction after the calls before it: the code, and the bytes read.
module _ (answer : List BusCall → List BusOp → ℕ × List ℕ) where
  unfoldable pub begin_ops : List BusOp → Bus → (ℕ × List ℕ) × Bus
  begin_ops ops s = (answer s.calls ops, bus_called (begin s.port ops ∷ []) s)

  -- A cell of `i2cdetect`.
  unfoldable pub probe : (address : ℕ) → Bus → List ℕ × Bus
  probe address s =
      let r = begin_ops (start ∷ write (u8 (address * 2)) ∷ stop ∷ []) s in
      (
        (if r.0.0 == 0
            then hex_byte address ++ b' ' ∷ []
            else if r.0.0 == err_timeout
            then codes "UU "
            else codes "-- "),
        r.1,
      )

  unfoldable pub probe_row : (left address : ℕ) → Bus → List ℕ × Bus
  probe_row zero address s = (crlf, s)
  probe_row (suc left) address s =
      let (text, s1) = probe address s in
      let (rest, s2) = probe_row left (address + 1) s1 in (text ++ rest, s2)

  unfoldable pub probe_rows : (left address : ℕ) → Bus → List ℕ × Bus
  probe_rows zero address s = ([], s)
  probe_rows (suc left) address s =
      let (text, s1) = probe_row 16 address s in
      let (rest, s2) = probe_rows left (address + 16) s1 in
      (hex_byte address ++ (codes ": " ++ (text ++ rest)), s2)

  -- `do_i2cdetect_cmd`: the output; its exit code is 0.
  unfoldable pub do_i2cdetect_cmd : Bus → List ℕ × Bus
  do_i2cdetect_cmd s =
      let (text, s1) = probe_rows 8 0 (open_driver s) in (detect_head ++ text, close_driver s1)

  -- `do_i2cget_cmd` with its output, if memory is left for the bytes; its exit code is 0. With a
  -- length below 1 the last byte is read to the place before the buffer.
  unfoldable pub do_i2cget_cmd : (nerrors : ℕ) (chip register len : ℤ) → Bus → Option (List ℕ × Bus)
  do_i2cget_cmd nerrors chip register (negsuc n) s = if nerrors == 0 then none else some ([], s)
  do_i2cget_cmd nerrors chip register (pos zero) s = if nerrors == 0 then none else some ([], s)
  do_i2cget_cmd nerrors chip register (pos (suc n)) s =
      if nerrors == 0
      then (let r = begin_ops (get_ops chip register (suc n)) (open_driver s) in
          some ((if r.0.0 == 0 then print_bytes 0 r.0.1 else []), close_driver r.1))
      else some ([], s)

  -- `do_i2cset_cmd`, which only logs what came of it; its exit code is 0.
  unfoldable pub do_i2cset_cmd :
      (nerrors : ℕ) (chip : ℤ) (register : Option ℤ) (bytes : List ℤ) → Bus → Bus
  do_i2cset_cmd nerrors chip register bytes s =
      if nerrors == 0
      then close_driver (begin_ops (set_ops chip register bytes) (open_driver s)).1
      else s

  -- A read of the dump, and the cells that come of it.
  unfoldable pub dump_read : (chip : ℤ) (size register : ℕ) → Bus → List Cell × Bus
  dump_read chip size register s =
      let r = begin_ops (register_read chip (u8 register) size) s in
      ((if r.0.0 == 0 then map value r.0.1 else unreadables size), r.1)

  unfoldable pub dump_row : (left : ℕ) (chip : ℤ) (size register : ℕ) → Bus → List Cell × Bus
  dump_row zero chip size register s = ([], s)
  dump_row (suc left) chip size register s =
      let (cells, s1) = dump_read chip size register s in
      let (rest, s2) = dump_row left chip size (register + size) s1 in (cells ++ rest, s2)

  unfoldable pub dump_rows : (left : ℕ) (chip : ℤ) (size register : ℕ) → Bus → List ℕ × Bus
  dump_rows zero chip size register s = ([], s)
  dump_rows (suc left) chip size register s =
      let (cells, s1) = dump_row (16 / size) chip size register s in
      let (rest, s2) = dump_rows left chip size (register + 16) s1 in
      (
        hex_byte register
            ++ (codes ": "
                ++ (concat_map cell_text cells
                    ++ (codes "   " ++ (concat_map cell_char cells ++ (crlf ++ rest))))),
        s2,
      )

  -- `do_i2cdump_cmd`: the exit code and the output.
  unfoldable pub do_i2cdump_cmd : (nerrors : ℕ) (chip : ℤ) (size : ℕ) → Bus → (ℕ × List ℕ) × Bus
  do_i2cdump_cmd nerrors chip size s =
      if nerrors == 0
      then if is_read_size size
        then (let r = dump_rows 8 chip size 0 (open_driver s) in
            ((0, dump_head ++ r.0), close_driver r.1))
        else ((1, []), s)
      else ((0, []), s)
