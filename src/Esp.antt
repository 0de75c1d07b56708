-- ===== src/Esp.antt =====
-- `esp_err_t` and the outcome of a call. `fault` is undefined behaviour: a write past the end of a
-- local array, which C does not detect.
use osdp_reader_test_project.Common.{Bool, true, false}

-- The codes of `esp_err_t` that the firmware returns, `ESP_OK` apart.
pub data Esp : Type 0 where
  esp_fail no_mem invalid_state invalid_size not_found timeout : Esp
  invalid_response invalid_crc nvs_not_found : Esp

pub data Outcome (A : Type 0) : Type 0 where
  ok : A → Outcome A
  err : Esp → Outcome A
  fault : Outcome A

abbrev pub is_ok : {A : Type 0} → Outcome A → Bool
is_ok (ok a) = true
is_ok (err e) = false
is_ok fault = false
