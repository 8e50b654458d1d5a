-- ===== src/Console/Commands.antt =====
-- The console commands of console.c around the settings, the `bt` and the `lora` command.
use dmesh_l.Base.{
  ℕ, Bool, Option, none, some, List, [], ◌∷◌, ◌++◌, ◌==◌, if◌then◌else◌, codes, take,
}
use dmesh_l.Nvs.{Strings}
use dmesh_l.Lora.Board.{Board}
use dmesh_l.Lora.Driver.{sleep, dump_registers}
use dmesh_l.Lora.Radio.{Radio, receive_beacon, receive_upstream}
use dmesh_l.Bt.Port.{BtInit, init_bt}
use dmesh_l.Console.Types.{NvsType, str_to_type, type_to_str}
use dmesh_l.Console.Values.{
  Numbers, NvsCall, SetResult, undefined_type, value_too_long, blob_mismatch, blob_no_mem,
  nvs_error, Store, set_value_in_nvs,
}
use dmesh_l.Console.Reading.{Got, open_failed, read, NumberStore, get_value_from_nvs}

-- The exit code of a command for what `set_value_in_nvs` returns.
unfoldable pub exit_of_set : SetResult → ℕ
exit_of_set (nvs_error err) = if err == 0 then 0 else 1
exit_of_set undefined_type = 1
exit_of_set value_too_long = 1
exit_of_set blob_mismatch = 1
exit_of_set blob_no_mem = 1

-- `set_value`, the command nvs_set.
unfoldable pub set_value :
    (numbers : Numbers) (code : NvsCall → ℕ) (malloc_ok : Bool) (nerrors : ℕ)
    (key type values : List ℕ)
    → Store
    → ℕ × Store
set_value numbers code malloc_ok nerrors key type values s =
    if nerrors == 0
    then (let r = set_value_in_nvs numbers code malloc_ok key type values s in
        (exit_of_set r.0, r.1))
    else (1, s)

-- The exit code and the output for what `get_value_from_nvs` returns.
unfoldable pub exit_of_get : Got → ℕ × List ℕ
exit_of_get (read err output) = (if err == 0 then 0 else 1, output)
exit_of_get (open_failed err) = (1, [])
exit_of_get Got.undefined_type = (1, [])

-- `get_value`, the command nvs_get.
unfoldable pub get_value :
    (number : NumberStore) (strings blobs : Strings) (buffers : ℕ → Bool) (open_code nerrors : ℕ)
    (key type : List ℕ)
    → Option (ℕ × List ℕ)
get_value number strings blobs buffers open_code nerrors key type =
    if nerrors == 0
    then elim (get_value_from_nvs number strings blobs buffers open_code key type) [
      | none ↦ none
      | some got ↦ some (exit_of_get got)
    ]
    else some (1, [])

-- `set_namespace`: strlcpy into the 16 characters of `current_namespace`.
unfoldable pub set_namespace : (nerrors : ℕ) (name current_namespace : List ℕ) → ℕ × List ℕ
set_namespace nerrors name current_namespace =
    if nerrors == 0 then (0, take 15 name) else (1, current_namespace)

-- An entry of the storage, as nvs_entry_info tells it.
pub record Entry : Type 0 where
  pub namespace_name : List ℕ
  pub key : List ℕ
  pub type : NvsType

-- A line of `list`.
unfoldable pub entry_line : Entry → List ℕ
entry_line e =
    codes "namespace '"
    ++ (e.namespace_name
        ++ (codes "', key '"
            ++ (e.key ++ (codes "', type '" ++ (type_to_str e.type ++ (codes "' " ++ 10 ∷ []))))))

unfoldable pub entry_lines : List Entry → List ℕ
entry_lines [] = []
entry_lines (e ∷ es) = entry_line e ++ entry_lines es

-- `list`, the exit code and the output, where nvs_entry_find and nvs_entry_next give the entries of
-- a partition that have a type. The namespace is not used.
unfoldable pub list :
    (find : (part : List ℕ) → NvsType → List Entry) (part name str_type : List ℕ) → ℕ × List ℕ
list find part name str_type = elim (find part (str_to_type str_type)) [
  | [] ↦ (1, [])
  | e ∷ es ↦ (0, entry_line e ++ entry_lines es)
]

-- `list_entries`, the command nvs_list.
unfoldable pub list_entries :
    (find : (part : List ℕ) → NvsType → List Entry) (nerrors : ℕ) (part name str_type : List ℕ)
    → ℕ × List ℕ
list_entries find nerrors part name str_type =
    if nerrors == 0 then list find part name str_type else (1, [])

-- `cmd_bt`: the calls that it makes; its exit code is always 0.
unfoldable pub cmd_bt : (code : BtInit → ℕ) (nerrors start_count : ℕ) → List BtInit
cmd_bt code nerrors start_count =
    if nerrors == 0 then (if start_count == 0 then [] else init_bt code) else []

-- The options of `cmd_lora` that it looks at.
pub record LoraArgs : Type 0 where
  pub nerrors : ℕ
  pub stop_count : ℕ
  pub dump_count : ℕ
  pub beacon : Option ℕ
  pub data_count : ℕ

module _ (b : Board) where
  -- `cmd_lora` behind `--beacon`.
  unfoldable pub lora_data : (data_count : ℕ) → Radio b → Radio b
  lora_data data_count d = if data_count == 0 then d else receive_upstream b d

  -- `cmd_lora`; its exit code is always 0. none is an access outside the channel table.
  unfoldable pub cmd_lora : LoraArgs → Radio b → Option (Radio b)
  cmd_lora args d =
      if args.nerrors == 0
      then if args.stop_count == 0
        then if args.dump_count == 0
          then elim args.beacon [
            | none ↦ some (lora_data args.data_count d)
            | some size ↦ receive_beacon b size d
          ]
          else some (record d { chip = (dump_registers b d.chip).1 })
        else some (record d { chip = sleep b d.chip })
      else some d
