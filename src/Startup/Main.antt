-- ===== src/Startup/Main.antt =====
-- main/app_main.c: what a start leaves.
use osdp_reader_test_project.Common.{
  ℕ, ◌≡◌, refl, ap, ◌∙◌, Bool, true, false, Option, none, some, List, [], ◌∷◌, ◌++◌, append_assoc,
  if◌then◌else◌,
}
use mathlib.Core.Path.{sym}
use osdp_reader_test_project.Esp.{Outcome, ok, err, nvs_not_found}
use osdp_reader_test_project.Leaf.{Nvs, leaf_get_site_key}
use osdp_reader_test_project.Leaf.KeyStore.{KeepsKey, get_site_key-stored}
use osdp_reader_test_project.Reader.Types.{idle}
use osdp_reader_test_project.Reader.{Queues, mode_init}
use osdp_reader_test_project.Reader.Modes.{mode_init-idle}
use osdp_reader_test_project.Netconfig.Start.{Checked, returned, aborted}
use osdp_reader_test_project.Startup.{
  FlashCode, flash_ok, no_free_pages, new_version_found, flash_failed, Flash, wants_erasure,
  nvs_start, erase_and_init, check_code, provision_default_site_key_if_missing, TaskName,
  task_console, task_event_pump, task_event_push, task_nfc, task_osdp, Rtos, create_task,
  console_task_start, push_task_start, webui_start, nfc_task_start, osdp_pd_task_start, start_tasks,
  Boot, start_rest, app_main,
}
use osdp_reader_test_project.Startup.SiteKey.{found_or_dev, length-found_or_dev, provisioned}

-- What the documentation says of the flash: its initialisation keeps what is stored, and an
-- erasure, which succeeds, leaves a flash without it that can be initialised.
pub record IsFlash {W : Type 0} (flash : Flash W) (stored : W → Option (List ℕ)) : Type 0 where
  pub keeps_stored : (w : W) → stored (flash.init w).1 ≡ stored w
  pub erases : (w : W) → ((flash.erase w).0 ≡ true) × (stored (flash.erase w).1 ≡ none)
  pub inits : (w : W) → (flash.init (flash.erase w).1).0 ≡ flash_ok

module _ {Q W N : Type 0} (rtos : Rtos N)
    (makes : (t : TaskName) (n : N) → (rtos.create t n).0 ≡ true) where
  create_task-tasks :
      (t : TaskName) (b : Boot Q W N) → (create_task rtos t b).tasks ≡ b.tasks ++ (t ∷ [])
  unfolding create_task
  create_task-tasks t b = rw (makes t b.network) refl

  joined :
      (t : TaskName) (b : Boot Q W N) (xs ys : List TaskName)
      → b.tasks ≡ xs ++ ys
      → (create_task rtos t b).tasks ≡ xs ++ (ys ++ (t ∷ []))
  joined t b xs ys e =
      create_task-tasks t b ∙ ap (λ l. l ++ (t ∷ [])) e ∙ append_assoc xs ys (t ∷ [])

-- Whether the HTTP server starts, after the tasks of the console.
abbrev pub web_up : {N : Type 0} → Rtos N → N → Bool
web_up rtos n = (rtos.httpd_start (rtos.create task_event_pump (rtos.create task_console n).1).1).0

-- All the tasks, without that of the web server where this has not started.
abbrev pub all_tasks : Bool → List TaskName
all_tasks up =
    task_console
    ∷ task_event_pump
    ∷ (if up then task_event_push ∷ task_nfc ∷ task_osdp ∷ [] else task_nfc ∷ task_osdp ∷ [])

module _ {Q W N : Type 0} (rtos : Rtos N)
    (makes : (t : TaskName) (n : N) → (rtos.create t n).0 ≡ true) where
  last_tasks :
      (up : Bool) (b : Boot Q W N) (xs : List TaskName)
      → b.tasks ≡ xs ++ (task_console ∷ task_event_pump ∷ [])
      → let b' = osdp_pd_task_start rtos (nfc_task_start rtos (push_task_start rtos up b)) in
        (b'.tasks ≡ xs ++ all_tasks up) × (b'.reader ≡ b.reader) × (b'.host ≡ b.host)
  unfolding push_task_start nfc_task_start osdp_pd_task_start create_task
  last_tasks true b xs e =
      let three = task_console ∷ task_event_pump ∷ task_event_push ∷ [] in
      let b₁ = create_task rtos task_event_push b in
      let pushes = joined rtos makes task_event_push b xs (task_console ∷ task_event_pump ∷ []) e in
      let reads = joined rtos makes task_nfc b₁ xs three pushes in
      (
        joined rtos makes task_osdp (create_task rtos task_nfc b₁) xs (three ++ (task_nfc ∷ []))
            reads,
        refl,
        refl,
      )
  last_tasks false b xs e =
      let two = task_console ∷ task_event_pump ∷ [] in
      let reads = joined rtos makes task_nfc b xs two e in
      (
        joined rtos makes task_osdp (create_task rtos task_nfc b) xs (two ++ (task_nfc ∷ [])) reads,
        refl,
        refl,
      )

  start_tasks-all :
      (b : Boot Q W N)
      → let b' = start_tasks rtos b in
        (b'.tasks ≡ b.tasks ++ all_tasks (web_up rtos b.network))
        × (b'.reader ≡ b.reader)
        × (b'.host ≡ b.host)
  unfolding start_tasks console_task_start webui_start create_task
  start_tasks-all b =
      let n = (rtos.create task_event_pump (rtos.create task_console b.network).1).1 in
      let b₁ = create_task rtos task_console b in
      last_tasks (web_up rtos b.network)
        (record (console_task_start rtos b) { network = (rtos.httpd_start n).1 }) b.tasks
        (joined rtos makes task_event_pump b₁ b.tasks (task_console ∷ [])
          (create_task-tasks rtos makes task_console b))

module _ {W : Type 0} {flash : Flash W} {stored : W → Option (List ℕ)}
    (laws : IsFlash flash stored) where
  -- What is stored after the NVS has started.
  abbrev pub left : W → Option (List ℕ)
  left w = if wants_erasure (flash.init w).0 then none else stored w

  erased : (w : W) → (w' : W) × (erase_and_init flash w ≡ (returned tt, w')) × (stored w' ≡ none)
  unfolding erase_and_init
  erased w =
      let (good, gone) = laws.erases w in
      let e = laws.inits w in
      (
        (flash.init (flash.erase w).1).1,
        rw (good, e) refl,
        laws.keeps_stored (flash.erase w).1 ∙ gone,
      )

  nvs_start-by : FlashCode × W → Checked (Unit {0}) × W
  nvs_start-by r = if wants_erasure r.0 then erase_and_init flash r.1 else (check_code r.0, r.1)

  started :
      (c : FlashCode) (w w₁ : W)
      → flash.init w ≡ (c, w₁)
      → (c ≡ flash_failed → ⊥)
      → (w' : W) × (nvs_start flash w ≡ (returned tt, w'))
        × (stored w' ≡ (if wants_erasure c then none else stored w))
  unfolding nvs_start nvs_start-by
  started flash_ok w w₁ e good =
      (w₁, ap nvs_start-by e, ap (λ r. stored r.1) (sym e) ∙ laws.keeps_stored w)
  started no_free_pages w w₁ e good =
      let (w', done, gone) = erased w₁ in (w', ap nvs_start-by e ∙ done, gone)
  started new_version_found w w₁ e good =
      let (w', done, gone) = erased w₁ in (w', ap nvs_start-by e ∙ done, gone)
  started flash_failed w w₁ e good = absurd (good refl)

  module _ {Q N : Type 0} (queues : Queues Q) {nvs : Nvs W} (keeps : KeepsKey nvs stored)
      (net_init : N → Checked (Outcome (Unit {0})) × N) (rtos : Rtos N)
      (makes : (t : TaskName) (n : N) → (rtos.create t n).0 ≡ true) where
    main_by : Boot Q W N → Checked (Unit {0}) × W → Checked (Unit {0}) × Boot Q W N
    main_by b x =
        let h = b.host in
        let h₁ = record h { world = x.1 } in
        elim x.0 as (λ _. Checked (Unit {0}) × Boot Q W N) [
          | returned _ ↦
              start_rest queues flash nvs net_init rtos
                (record b { host = (provision_default_site_key_if_missing nvs h₁).1 })
          | aborted ↦ (aborted, record b { host = h₁ })
        ]

    rest_by : Boot Q W N → Checked (Outcome (Unit {0})) × N → Checked (Unit {0}) × Boot Q W N
    rest_by b x =
        let b₁ = record b { reader = mode_init queues b.reader; network = x.1 } in
        elim x.0 as (λ _. Checked (Unit {0}) × Boot Q W N) [
          | returned _ ↦ (returned tt, start_tasks rtos b₁)
          | aborted ↦ (aborted, b₁)
        ]

    -- The start of a firmware whose flash does not fail, whose tasks can be created, and whose
    -- network code returns, with an error or without: it returns with the mode idle, and every task
    -- has been created in its order, but the one that pushes the events to a page where the HTTP
    -- server has not started. The site key is the one that was stored, or the one of the source if
    -- none of 16 bytes was, or if the flash asked for an erasure.
    pub app_main-keyed :
        (b : Boot Q W N) (r : Outcome (Unit {0})) (n : N)
        → ((flash.init b.host.world).0 ≡ flash_failed → ⊥)
        → net_init b.network ≡ (returned r, n)
        → let (done, up) = app_main queues flash nvs net_init rtos b in
          (done ≡ returned tt)
          × (up.tasks ≡ b.tasks ++ all_tasks (web_up rtos n))
          × (up.reader.mode ≡ idle)
          × ((leaf_get_site_key nvs up.host).0 ≡ ok (found_or_dev (left b.host.world)))
    unfolding app_main start_rest main_by rest_by
    app_main-keyed b r n good net =
        let h = b.host in
        let (w₁, up, is_left) =
          started (flash.init h.world).0 h.world (flash.init h.world).1 refl good in
        let (w₂, given, is_key) =
          provisioned keeps (left h.world) (record h { world = w₁ }) is_left in
        let h₂ = record h { world = w₂ } in
        let ran : app_main queues flash nvs net_init rtos b
            ≡ rest_by (record b { host = h₂ }) (returned r, n) =
          ap (main_by b) up
          ∙ ap (λ x. rest_by (record b { host = x.1 }) (net_init b.network)) given
          ∙ ap (rest_by (record b { host = h₂ })) net in
        let (w₃, got, _) =
          get_site_key-stored keeps (some (found_or_dev (left h.world))) h₂ is_key in
        let (made, reader_kept, host_kept) =
          start_tasks-all rtos makes
            (record b { host = h₂; reader = mode_init queues b.reader; network = n }) in
        (
          ap (λ x. x.0) ran,
          ap (λ x. x.1.tasks) ran ∙ made,
          ap (λ x. x.1.reader.mode) ran
              ∙ ap (λ r. r.mode) reader_kept
              ∙ mode_init-idle queues b.reader,
          ap (λ x. (leaf_get_site_key nvs x.1.host).0) ran
              ∙ ap (λ h. (leaf_get_site_key nvs h).0) host_kept
              ∙ ap (λ x. x.0) got
              ∙ ap (λ c. if c then ok (found_or_dev (left h.world)) else err nvs_not_found)
                  (length-found_or_dev (left h.world)),
        )
