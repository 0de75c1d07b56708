-- ===== src/Settings.antt =====
-- The part of the NVS that osdp_pd.c and netconfig.c use: opening a namespace (for writing or
-- not), numbers and texts under a key, and the commit. An `int32_t` is its 32 bits.
use osdp_reader_test_project.Common.{ℕ, Bool, List}
use osdp_reader_test_project.Io.{Io}

pub record Settings (W : Type 0) : Type 0 where
  pub open_ns : List ℕ → Bool → Io W (Unit {0})
  pub set_i32 : List ℕ → List ℕ → ℕ → Io W (Unit {0})
  pub get_i32 : List ℕ → List ℕ → Io W ℕ
  pub set_str : List ℕ → List ℕ → List ℕ → Io W (Unit {0})
  pub get_str : List ℕ → List ℕ → ℕ → Io W (List ℕ)
  pub commit : List ℕ → Io W (Unit {0})
