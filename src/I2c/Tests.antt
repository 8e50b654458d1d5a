-- ===== src/I2c/Tests.antt =====
-- The theorems on i2ctools.c at concrete inputs.
use dmesh_l.Base.{ℕ, ◌*◌, ◌≡◌, refl, true, false, some, none, List, [], ◌∷◌, ◌++◌, pos, negsuc}
use dmesh_l.I2c.Bus.{BusOp, BusCall, driver_install, driver_delete, param_config, Bus, initial_bus}
use dmesh_l.I2c.Tools.{do_i2cdetect_cmd, do_i2cset_cmd, do_i2cget_cmd, do_i2cdump_cmd}
use dmesh_l.I2c.Scans.{reads, do_i2cdump_cmd_lem, installed, tools_remove_driver}

-- A bus on which nobody answers.
abbrev silent : List BusCall → List BusOp → ℕ × List ℕ
silent calls ops = (0xffffffff, [])

do_i2cdump_cmd_lem_example :
    ((do_i2cdump_cmd silent 0 (pos 60) 4 initial_bus).1.calls
      ≡ driver_install 0 ∷ param_config 0 (pos 18) (pos 19) 100000 ∷ reads 0 (pos 60) 4 32 0
        ++ driver_delete 0 ∷ [])
    × (◌≡◌ {A = ℕ} (32 * 4) 128)
do_i2cdump_cmd_lem_example = do_i2cdump_cmd_lem silent (pos 60) 4 initial_bus refl

tools_remove_driver_example :
    (installed 0 true (do_i2cdetect_cmd silent initial_bus).1.calls ≡ false)
    × (installed 0 true (do_i2cset_cmd silent 0 (pos 60) none (pos 1 ∷ []) initial_bus).calls
        ≡ false)
    × (installed 0 true (do_i2cdump_cmd silent 0 (pos 60) 1 initial_bus).1.calls ≡ false)
    × ((output : List ℕ) × (t : Bus) × (do_i2cget_cmd silent 0
            (pos 60)
            (negsuc 0)
            (pos 3)
            initial_bus
          ≡ some (output, t))
        × (installed 0 true t.calls ≡ false))
tools_remove_driver_example =
    tools_remove_driver silent (pos 60) (negsuc 0) none (pos 1 ∷ []) 2 1 true initial_bus refl
