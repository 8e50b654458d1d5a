-- ===== src/I2c/Scans.antt =====
-- Which transactions the commands of i2ctools.c make, and what they leave of the driver.
use dmesh_l.Base.{
  ℕ, zero, suc, ◌+◌, ◌^◌, ◌*◌, ◌/◌, ◌%◌, ◌≤◌, ◌<◌, ◌⊎◌, ◌≡◌, refl, sym, ap, ◌∙◌, Bool, true, false,
  Option, some, List, [], ◌∷◌, ◌++◌, ◌==◌, if◌then◌else◌, ℤ, pos, arith, append_assoc, append-nil,
  inl, inr, ==_refl,
}
use dmesh_l.I2c.Bus.{
  BusOp, BusCall, param_config, driver_install, driver_delete, begin, Bus, bus_called, open_driver,
  close_driver,
}
use dmesh_l.I2c.Tools.{
  register_read, begin_ops, probe, probe_row, probe_rows, do_i2cdetect_cmd, do_i2cget_cmd,
  do_i2cset_cmd, dump_read, dump_row, dump_rows, is_read_size, do_i2cdump_cmd,
}

-- The transactions that read `count` times `size` bytes, from a register on.
abbrev pub reads : (port : ℕ) (chip : ℤ) (size count register : ℕ) → List BusCall
reads port chip size zero register = []
reads port chip size (suc count) register =
    begin port (register_read chip register size) ∷ reads port chip size count (register + size)

reads-add :
    (port : ℕ) (chip : ℤ) (size m n register : ℕ)
    → reads port chip size (m + n) register
      ≡ reads port chip size m register ++ reads port chip size n (register + m * size)
reads-add port chip size zero n register =
    ap (λ k. reads port chip size k register) {x = 0 + n} (omega arith)
    ∙ ap (reads port chip size n) {x = register} (omega arith)
reads-add port chip size (suc m) n register =
    ap (λ k. reads port chip size k register) {x = suc m + n} {y = suc (m + n)} (omega arith)
    ∙ ap (◌∷◌ (begin port (register_read chip register size))) (
        reads-add port chip size m n (register + size)
        ∙ ap (λ r. reads port chip size m (register + size) ++ reads port chip size n r)
            {x = register + size + m * size} (grind arith))

bus_called-append :
    (xs ys : List BusCall) (s : Bus) → bus_called ys (bus_called xs s) ≡ bus_called (xs ++ ys) s
bus_called-append xs ys s = ap (λ cs. record s { calls = cs }) (append_assoc s.calls xs ys)

whole_rows : (size : ℕ) → is_read_size size ≡ true → (0 < size) × ((16 / size) * size ≡ 16)
whole_rows size h =
    let sizes : (size ≡ 1) ⊎ (size ≡ 2) ⊎ (size ≡ 4) = ground arith in
    elim sizes [
      | inl e ↦ rw e (omega arith, refl)
      | inr (inl e) ↦ rw e (omega arith, refl)
      | inr (inr e) ↦ rw e (omega arith, refl)
    ]

module _ (answer : List BusCall → List BusOp → ℕ × List ℕ) where
  dump_row-reads :
      (left : ℕ) (chip : ℤ) (size register : ℕ) (s : Bus)
      → register + left * size ≤ 256
      → 0 < size
      → (dump_row answer left chip size register s).1
        ≡ bus_called (reads s.port chip size left register) s
  unfolding dump_row dump_read begin_ops
  dump_row-reads zero chip size register s h large = rw (append-nil s.calls)
  dump_row-reads (suc left) chip size register s h large =
      let below : register + size + left * size ≤ 256 = grind arith in
      let small : register % 2 ^ 8 ≡ register = omega arith in
      rw small (
        dump_row-reads left chip size (register + size) _ below large
        ∙ bus_called-append (begin s.port (register_read chip register size) ∷ [])
            (reads s.port chip size left (register + size)) s)

  dump_rows-reads :
      (left : ℕ) (chip : ℤ) (size register : ℕ) (s : Bus)
      → register + left * 16 ≤ 256
      → 0 < size
      → (16 / size) * size ≡ 16
      → (dump_rows answer left chip size register s).1
        ≡ bus_called (reads s.port chip size (left * (16 / size)) register) s
  unfolding dump_rows
  dump_rows-reads zero chip size register s h large whole =
      ap (λ cs. record s { calls = cs })
        (sym (append-nil s.calls)
          ∙ ap (λ k. s.calls ++ reads s.port chip size k register) {x = 0} (omega arith))
  dump_rows-reads (suc left) chip size register s h large whole =
      let cells : ℕ = 16 / size in
      rw (dump_row-reads cells chip size register s (omega (arith, whole)) large) (
        dump_rows-reads left chip size (register + 16) _ (omega arith) large whole
        ∙ bus_called-append (reads s.port chip size cells register)
            (reads s.port chip size (left * cells) (register + 16)) s
        ∙ ap (λ cs. bus_called cs s)
            (ap
                (λ r.
                  reads s.port chip size cells register ++ reads s.port chip size (left * cells) r)
                {x = register + 16} (omega (arith, whole))
              ∙ sym (reads-add s.port chip size cells (left * cells) register)
              ∙ ap (λ k. reads s.port chip size k register) {x = cells + left * cells}
                  (grind arith)))

  -- With a read size of 1, 2 or 4, `i2cdump` installs the driver, reads the registers 0 to 127 of
  -- the chip in order, each once, and deletes the driver, whatever the bus answers.
  pub do_i2cdump_cmd_lem :
      (chip : ℤ) (size : ℕ) (s : Bus)
      → is_read_size size ≡ true
      → let count = 8 * (16 / size) in
        ((do_i2cdump_cmd answer 0 chip size s).1.calls
          ≡ s.calls
            ++ (driver_install s.port
                  ∷ param_config s.port s.sda s.scl s.frequency
                  ∷ reads s.port chip size count 0
                ++ driver_delete s.port ∷ []))
        × (count * size ≡ 128)
  unfolding do_i2cdump_cmd open_driver close_driver
  do_i2cdump_cmd_lem chip size s ok =
      let (large, whole) = whole_rows size ok in
      let opened : Bus = open_driver s in
      let e = dump_rows-reads 8 chip size 0 opened (omega arith) large whole in
      (rw (ok, e) (simp append_assoc), grind arith)

-- Whether the driver of the port is there after the calls.
abbrev pub installed : (port : ℕ) → Bool → List BusCall → Bool
installed port b [] = b
installed port b (driver_install p ∷ cs) = installed port (if p == port then true else b) cs
installed port b (driver_delete p ∷ cs) = installed port (if p == port then false else b) cs
installed port b (c ∷ cs) = installed port b cs

installed-delete :
    (port : ℕ) (cs : List BusCall) (b : Bool)
    → installed port b (cs ++ driver_delete port ∷ []) ≡ false
installed-delete port [] b = rw (==_refl port) refl
installed-delete port (param_config p sda scl f ∷ cs) b = installed-delete port cs b
installed-delete port (driver_install p ∷ cs) b =
    installed-delete port cs (if p == port then true else b)
installed-delete port (driver_delete p ∷ cs) b =
    installed-delete port cs (if p == port then false else b)
installed-delete port (begin p ops ∷ cs) b = installed-delete port cs b

closed :
    (port : ℕ) (b : Bool) (s : Bus)
    → s.port ≡ port
    → installed port b (close_driver s).calls ≡ false
unfolding close_driver
closed port b s e = rw e (installed-delete port s.calls b)

module _ (answer : List BusCall → List BusOp → ℕ × List ℕ) where
  probe_row-port : (left address : ℕ) (s : Bus) → (probe_row answer left address s).1.port ≡ s.port
  unfolding probe_row probe begin_ops
  probe_row-port zero address s = refl
  probe_row-port (suc left) address s = probe_row-port left (address + 1) _

  probe_rows-port :
      (left address : ℕ) (s : Bus) → (probe_rows answer left address s).1.port ≡ s.port
  unfolding probe_rows
  probe_rows-port zero address s = refl
  probe_rows-port (suc left) address s =
      probe_rows-port left (address + 16) _ ∙ probe_row-port 16 address s

  dump_row-port :
      (left : ℕ) (chip : ℤ) (size register : ℕ) (s : Bus)
      → (dump_row answer left chip size register s).1.port ≡ s.port
  unfolding dump_row dump_read begin_ops
  dump_row-port zero chip size register s = refl
  dump_row-port (suc left) chip size register s = dump_row-port left chip size (register + size) _

  dump_rows-port :
      (left : ℕ) (chip : ℤ) (size register : ℕ) (s : Bus)
      → (dump_rows answer left chip size register s).1.port ≡ s.port
  unfolding dump_rows
  dump_rows-port zero chip size register s = refl
  dump_rows-port (suc left) chip size register s =
      dump_rows-port left chip size (register + 16) _
      ∙ dump_row-port (16 / size) chip size register s

  -- Each of the four commands that use the bus, with arguments that it accepts, leaves the port
  -- without a driver, also when the driver was there before, as the display needs it.
  pub tools_remove_driver :
      (chip register : ℤ) (target : Option ℤ) (bytes : List ℤ) (len size : ℕ) (b : Bool) (s : Bus)
      → is_read_size size ≡ true
      → (installed s.port b (do_i2cdetect_cmd answer s).1.calls ≡ false)
        × (installed s.port b (do_i2cset_cmd answer 0 chip target bytes s).calls ≡ false)
        × (installed s.port b (do_i2cdump_cmd answer 0 chip size s).1.calls ≡ false)
        × ((output : List ℕ) × (t : Bus) × (do_i2cget_cmd answer 0 chip register (pos (suc len)) s
              ≡ some (output, t))
            × (installed s.port b t.calls ≡ false))
  unfolding do_i2cdetect_cmd do_i2cset_cmd do_i2cdump_cmd do_i2cget_cmd begin_ops open_driver
  tools_remove_driver chip register target bytes len size b s ok = (
    closed s.port b _ (probe_rows-port 8 0 (open_driver s)),
    closed s.port b _ refl,
    rw ok (closed s.port b _ (dump_rows-port 8 chip size 0 (open_driver s))),
    (_, _, refl, closed s.port b _ refl),
  )
