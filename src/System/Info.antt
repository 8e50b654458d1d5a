-- ===== src/System/Info.antt =====
-- The commands of cmd_system.c that tell about the system, and `restart`.
use dmesh_l.Base.{
  ℕ, ◌+◌, ◌*◌, ◌/◌, Bool, Option, none, some, List, [], ◌∷◌, ◌++◌, ◌==◌, leb, if◌then◌else◌, length,
  codes, decimal, bit_and,
}

-- `esp_chip_info_t`, whether its model is CHIP_ESP32, and the size of the flash.
pub record ChipInfo : Type 0 where
  pub is_esp32 : Bool
  pub features : ℕ
  pub cores : ℕ
  pub revision : ℕ
  pub flash_size : ℕ

-- CHIP_FEATURE_EMB_FLASH, CHIP_FEATURE_WIFI_BGN, CHIP_FEATURE_BLE and CHIP_FEATURE_BT
abbrev pub emb_flash : ℕ
emb_flash = 1

abbrev pub wifi_bgn : ℕ
wifi_bgn = 2

abbrev pub ble : ℕ
ble = 16

abbrev pub bt : ℕ
bt = 32

unfoldable pub feature : (features mask : ℕ) (present absent : List ℕ) → List ℕ
feature features mask present absent = if bit_and features mask == 0 then absent else present

-- A line of `get_version`: a label, a text and the end of the line.
unfoldable pub version_line : (label text : List ℕ) → List ℕ
version_line label text = label ++ (text ++ 13 ∷ 10 ∷ [])

-- The output of `get_version`; its exit code is 0.
unfoldable pub get_version : (idf_version : List ℕ) → ChipInfo → List ℕ
get_version idf_version c =
    version_line (codes "IDF Version:") idf_version
    ++ (version_line (codes "Chip info:") []
        ++ (version_line (9 ∷ codes "model:") (if c.is_esp32 then codes "ESP32" else codes "Unknow")
            ++ (version_line (9 ∷ codes "cores:") (decimal c.cores)
                ++ (version_line (9 ∷ codes "feature:") (
                      feature c.features wifi_bgn (codes "/802.11bgn") []
                      ++ (feature c.features ble (codes "/BLE") []
                          ++ (feature c.features bt (codes "/BT") []
                              ++ (feature c.features emb_flash (codes "/Embedded-Flash:")
                                    (codes "/External-Flash:")
                                  ++ (decimal (c.flash_size / (1024 * 1024)) ++ codes " MB")))))
                    ++ version_line (9 ∷ codes "revision number:") (decimal c.revision)))))

-- The output of `free_mem`, of a size below 2^31; its exit code is 0.
unfoldable pub free_mem : (free_heap_size : ℕ) → List ℕ
free_mem free_heap_size = decimal free_heap_size ++ 10 ∷ []

-- `tasks_info`: the exit code and the output, where vTaskList writes a listing with a terminator.
-- none is a listing that leaves the buffer.
unfoldable pub tasks_info :
    (malloc_ok has_core_id : Bool) (task_count : ℕ) (listing : List ℕ) → Option (ℕ × List ℕ)
tasks_info malloc_ok has_core_id task_count listing =
    if malloc_ok
    then if leb (length listing + 1) (task_count * 40)
      then some (
        0,
        codes "Task Name"
            ++ (9 ∷ codes "Status"
                ++ (9 ∷ codes "Prio"
                    ++ (9 ∷ codes "HWM"
                        ++ (9 ∷ codes "Task#"
                            ++ ((if has_core_id then 9 ∷ codes "Affinity" else [])
                                ++ (10 ∷ listing)))))),
      )
      else none
    else some (1, [])

-- The calls of `restart`, which does not return, and of `heap_size`, which only logs what it gets.
pub data InfoCall : Type 0 where
  esp_restart get_minimum_free_size : InfoCall

unfoldable pub restart : List InfoCall
restart = esp_restart ∷ []

unfoldable pub heap_size : List InfoCall
heap_size = get_minimum_free_size ∷ []
