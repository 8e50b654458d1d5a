-- ===== src/Gpio.antt =====
-- esp32/components/gpio/cmd_gpio.c: the console command that sets a pin.
use dmesh_l.Base.{ℕ, Option, none, some, List, [], ◌∷◌, ◌++◌}

pub data GpioCall : Type 0 where
  gpio_set_direction : (pin mode : ℕ) → GpioCall
  gpio_set_level : (pin level : ℕ) → GpioCall

-- The pin of `gpio_cmd` without `--pin`.
abbrev pub default_pin : ℕ
default_pin = 22

abbrev pub pin_of : Option ℕ → ℕ
pin_of none = default_pin
pin_of (some p) = p

abbrev pub optional_call : Option ℕ → (ℕ → GpioCall) → List GpioCall
optional_call none f = []
optional_call (some n) f = f n ∷ []

-- `gpio_cmd`, for arguments that parse.
unfoldable pub gpio_cmd : (pin mode level : Option ℕ) → List GpioCall
gpio_cmd pin mode level =
    optional_call mode (gpio_set_direction (pin_of pin))
    ++ optional_call level (gpio_set_level (pin_of pin))
