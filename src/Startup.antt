-- ===== src/Startup.antt =====
-- main/app_main.c: the start of the firmware, without NVS encryption (CONFIG_NVS_ENCRYPTION=n).
pub mod SiteKey
pub mod Main
mod Tests
use osdp_reader_test_project.Common.{ℕ, Bool, true, false, ◌||◌, List, [], ◌∷◌, ◌++◌, if◌then◌else◌}
use osdp_reader_test_project.Esp.{Outcome, ok, err, fault}
use osdp_reader_test_project.Desfire.State.{Host, Action}
use osdp_reader_test_project.Leaf.{Nvs, or_continue, leaf_get_site_key, leaf_set_site_key}
use osdp_reader_test_project.Reader.{Queues, Reader, mode_init}
use osdp_reader_test_project.Netconfig.Start.{Checked, returned, aborted}

abbrev pub dev_site_key : List ℕ
dev_site_key =
    0xC0 ∷ 0xFF ∷ 0xEE ∷ 0xC0 ∷ 0xDE ∷ 0xCA ∷ 0xFE ∷ 0xBA ∷ 0xBE ∷ 0xDE ∷ 0xAD ∷ 0xBE ∷ 0xEF ∷ 0xFE
    ∷ 0xED ∷ 0xC0 ∷ []

-- What `nvs_flash_init` returns: the two codes that ask for an erasure, and any other error.
pub data FlashCode : Type 0 where
  flash_ok no_free_pages new_version_found flash_failed : FlashCode

-- The flash behind the NVS: its initialisation, and its erasure, which may fail.
pub record Flash (W : Type 0) : Type 0 where
  pub init : W → FlashCode × W
  pub erase : W → Bool × W

abbrev pub wants_erasure : FlashCode → Bool
wants_erasure no_free_pages = true
wants_erasure new_version_found = true
wants_erasure _ = false

-- `ESP_ERROR_CHECK`.
abbrev pub check_code : FlashCode → Checked (Unit {0})
check_code flash_ok = returned tt
check_code _ = aborted

module _ {W : Type 0} (flash : Flash W) where
  pub erase_and_init : W → Checked (Unit {0}) × W
  erase_and_init w =
      let (erased, w₁) = flash.erase w in
      let (e, w₂) = flash.init w₁ in if erased then (check_code e, w₂) else (aborted, w₁)

  pub nvs_start : W → Checked (Unit {0}) × W
  nvs_start w =
      let (e, w₁) = flash.init w in
      if wants_erasure e then erase_and_init w₁ else (check_code e, w₁)

module _ {W : Type 0} (nvs : Nvs W) where
  pub provision_default_site_key_if_missing : Action W (Unit {0})
  provision_default_site_key_if_missing h =
      let (r, h') = leaf_get_site_key nvs h in
      elim r [
        | ok _ ↦ (ok tt, h')
        | err _ ↦ or_continue (leaf_set_site_key nvs dev_site_key) h'
        | fault ↦ (fault, h')
      ]

-- The tasks that the start creates.
pub data TaskName : Type 0 where
  task_console task_event_pump task_event_push task_nfc task_osdp : TaskName

-- FreeRTOS and the HTTP server: `xTaskCreatePinnedToCore` and `httpd_start`, which may fail.
pub record Rtos (N : Type 0) : Type 0 where
  pub create : TaskName → N → Bool × N
  pub httpd_start : N → Bool × N

-- What the start brings up: the drivers and the key store, the mode controller, the network with
-- the system below it, and the tasks in the order of their creation.
pub record Boot (Q W N : Type 0) : Type 0 where
  pub host : Host W
  pub reader : Reader Q
  pub network : N
  pub tasks : List TaskName

module _ {Q W N : Type 0} (rtos : Rtos N) where
  -- The result of a creation is not looked at.
  pub create_task : TaskName → Boot Q W N → Boot Q W N
  create_task t b =
      let (made, n) = rtos.create t b.network in
      record b { network = n; tasks = if made then b.tasks ++ (t ∷ []) else b.tasks }

  pub console_task_start : Boot Q W N → Boot Q W N
  console_task_start b = create_task task_event_pump (create_task task_console b)

  pub push_task_start : Bool → Boot Q W N → Boot Q W N
  push_task_start true b = create_task task_event_push b
  push_task_start false b = b

  -- Without the server there is no task.
  pub webui_start : Boot Q W N → Boot Q W N
  webui_start b =
      let (up, n) = rtos.httpd_start b.network in push_task_start up (record b { network = n })

  pub nfc_task_start : Boot Q W N → Boot Q W N
  nfc_task_start b = create_task task_nfc b

  pub osdp_pd_task_start : Boot Q W N → Boot Q W N
  osdp_pd_task_start b = create_task task_osdp b

  pub start_tasks : Boot Q W N → Boot Q W N
  start_tasks b = osdp_pd_task_start (nfc_task_start (webui_start (console_task_start b)))

module _ {Q W N : Type 0} (queues : Queues Q) (flash : Flash W) (nvs : Nvs W)
    (net_init : N → Checked (Outcome (Unit {0})) × N) (rtos : Rtos N) where
  -- After the key store: the mode controller, the network, whose failure is only logged, and the
  -- tasks.
  pub start_rest : Boot Q W N → Checked (Unit {0}) × Boot Q W N
  start_rest b =
      let (r, n) = net_init b.network in
      let b₁ = record b { reader = mode_init queues b.reader; network = n } in
      elim r [ returned _ ↦ (returned tt, start_tasks rtos b₁) | aborted ↦ (aborted, b₁) ]

  pub app_main : Boot Q W N → Checked (Unit {0}) × Boot Q W N
  app_main b =
      let h = b.host in
      let (r, w) = nvs_start flash h.world in
      let h₁ = record h { world = w } in
      let (_, h₂) = provision_default_site_key_if_missing nvs h₁ in
      elim r [
        | returned _ ↦ start_rest (record b { host = h₂ })
        | aborted ↦ (aborted, record b { host = h₁ })
      ]
