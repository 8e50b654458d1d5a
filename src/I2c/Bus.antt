-- ===== src/I2c/Bus.antt =====
-- The bus of i2ctools.c, and its set-up.
use dmesh_l.Base.{
  ℕ, ◌-◌, ◌%◌, ◌^◌, Option, none, some, List, [], ◌∷◌, ◌++◌, ◌==◌, ◌||◌, if◌then◌else◌, ℤ, pos,
  negsuc, eq_const,
}

-- A part of a transaction: the bytes that are read go to the caller.
pub data BusOp : Type 0 where
  start stop read_last : BusOp
  write : (byte : ℕ) → BusOp
  read_acked : (count : ℕ) → BusOp

-- The calls of the I2C driver.
pub data BusCall : Type 0 where
  param_config : (port : ℕ) (sda scl : ℤ) (clk_speed : ℕ) → BusCall
  driver_install driver_delete : (port : ℕ) → BusCall
  begin : (port : ℕ) (ops : List BusOp) → BusCall

-- `i2c_port`, `i2c_frequency`, `i2c_gpio_sda` and `i2c_gpio_scl`, and the calls so far.
pub record Bus : Type 0 where
  pub port : ℕ
  pub frequency : ℕ
  pub sda : ℤ
  pub scl : ℤ
  pub calls : List BusCall

abbrev pub initial_bus : Bus
initial_bus = record { port = 0; frequency = 100000; sda = pos 18; scl = pos 19; calls = [] }

abbrev pub bus_called : List BusCall → Bus → Bus
bus_called cs s = record s { calls = s.calls ++ cs }

-- An `int` as a `uint8_t` and as a `uint32_t`.
abbrev pub u8_of_int : ℤ → ℕ
u8_of_int (pos n) = n % 2 ^ 8
u8_of_int (negsuc n) = 2 ^ 8 - 1 - n % 2 ^ 8

abbrev pub u32_of_int : ℤ → ℕ
u32_of_int (pos n) = n % 2 ^ 32
u32_of_int (negsuc n) = 2 ^ 32 - 1 - n % 2 ^ 32

-- ESP_FAIL and ESP_ERR_NVS_NOT_FOUND
abbrev pub esp_fail : ℤ
esp_fail = negsuc 0

abbrev pub nvs_not_found : ℕ
nvs_not_found = 0x1102

-- A setting that `i2c_master_init` reads: the value, or 0 if it is missing, or another error.
unfoldable pub pin_setting : (err : ℕ) (value : ℤ) → Option ℤ
pin_setting err value =
    if err == 0 then some value else if err == nvs_not_found then some (pos 0) else none

-- `i2c_master_init` behind the settings.
unfoldable pub master_config : (sda scl : ℤ) → Bus → ℤ × Bus
master_config sda scl s =
    if eq_const sda 0 || eq_const scl 0
    then (esp_fail, s)
    else (pos 0, bus_called (param_config 0 sda scl 1000000 ∷ driver_install 0 ∷ []) s)

-- `i2c_master_init`, with what nvs_get_i32 does for `sda` and `scl`.
unfoldable pub i2c_master_init : (sda scl : ℕ × ℤ) → Bus → ℤ × Bus
i2c_master_init sda scl s = elim (pin_setting sda.0 sda.1) [
  | none ↦ (pos sda.0, s)
  | some sda_pin ↦ elim (pin_setting scl.0 scl.1) [
    | none ↦ (pos scl.0, s)
    | some scl_pin ↦ master_config sda_pin scl_pin s
  ]
]

-- `i2c_get_port`: there are two ports.
unfoldable pub i2c_get_port : (port : ℤ) → Option ℕ
i2c_get_port (negsuc n) = some 0
i2c_get_port (pos n) = if n == 0 then some 0 else if n == 1 then some 1 else none

-- `i2c_master_driver_initialize`, with the installation that goes before it.
unfoldable pub open_driver : Bus → Bus
open_driver s =
    bus_called (driver_install s.port ∷ param_config s.port s.sda s.scl s.frequency ∷ []) s

unfoldable pub close_driver : Bus → Bus
close_driver s = bus_called (driver_delete s.port ∷ []) s

-- `do_i2cconfig_cmd` behind `--port`.
unfoldable pub configure : (freq : Option ℤ) (sda scl : ℤ) → Bus → Bus
configure none sda scl s = record s { sda = sda; scl = scl }
configure (some freq) sda scl s = record s { frequency = u32_of_int freq; sda = sda; scl = scl }

-- `do_i2cconfig_cmd` with its exit code.
unfoldable pub do_i2cconfig_cmd : (nerrors : ℕ) (port freq : Option ℤ) (sda scl : ℤ) → Bus → ℕ × Bus
do_i2cconfig_cmd nerrors none freq sda scl s =
    if nerrors == 0 then (0, configure freq sda scl s) else (0, s)
do_i2cconfig_cmd nerrors (some port) freq sda scl s =
    if nerrors == 0
    then elim (i2c_get_port port) [
      | none ↦ (1, s)
      | some p ↦ (0, configure freq sda scl (record s { port = p }))
    ]
    else (0, s)
