-- ===== src/Finalizers/Retired.antt =====
-- What is left of a listener after its finalizer.
use mathlib.Core.Bool.{false≢true}
use hermes_plugin_async_thre.Prelude.{
  Bool-cases, Option-cases, String, ap, arith, false, first-any, first-update, inl, inr, none, refl,
  some, sym, true, ◌==◌, ◌∙◌, ◌≡◌, ◌⊎◌,
}
use hermes_plugin_async_thre.Finalizers.Retire.{
  Resources, disable, failed_finalizer, is_enabled, is_foreign, is_other_action, requested_action,
  retire_absent, retire_found, retire_listener, thread_key_from_context,
}
use hermes_plugin_async_thre.Python.Json.{Fields}
use hermes_plugin_async_thre.Python.Runtime.{Runtime}
use hermes_plugin_async_thre.Registry.Handles.{
  get_handle, get_handle-row, read_row, row_to_handle, set_enabled,
}
use hermes_plugin_async_thre.Registry.Rows.{Db, Handle}
use hermes_plugin_async_thre.Secrets.Artifact.{remove_secret_artifact, safe_path_token}
use hermes_plugin_async_thre.Secrets.Files.{exists}
use hermes_plugin_async_thre.Secrets.Roundtrip.{remove_secret_artifact-leaves_none}

module _ ⦃py : Runtime⦄ where
  pub set_enabled-found :
      (key now : String) (db : Db) (h : Handle)
      → get_handle key db ≡ some h
      → ((set_enabled key false now db).0 ≡ true)
        × (is_enabled (get_handle key (set_enabled key false now db).1) ≡ false)
  unfolding get_handle set_enabled read_row row_to_handle
  set_enabled-found key now db h found =
      let (row, at, _) = get_handle-row key db h found in
      elim (first-any (λ (x : Handle). x.thread_key == key) db.handles) [
        | inr (missing, absent) ↦ ground (arith, missing, at)
        | inl (x, there, some_passes) ↦ (
          some_passes,
          ap (λ o. is_enabled (read_row o))
              (first-update (λ x. x.thread_key == key)
                (λ x. record x { enabled = false; updated_at = now }) db.handles row (λ x. refl)
                at),
        )
      ]

  disable-found :
      (key now : String) (db : Db) (h : Handle)
      → get_handle key db ≡ some h
      → ((disable now key h db).0 ≡ true)
        × (is_enabled (get_handle key (disable now key h db).1) ≡ false)
  unfolding disable
  disable-found key now db h found = elim (Bool-cases h.enabled) [
    | inl e ↦ simp (disable, e) (set_enabled-found key now db h found)
    | inr e ↦ simp (disable, e) (refl, rw found e)
  ]

  -- a listener that is there is switched off, and its files are removed
  pub retire_found-IsDone :
      (key now : String) (r : Resources) (h : Handle)
      → get_handle key r.db ≡ some h
      → let result = retire_found now key h r in
        (result.0.is_ok ≡ true)
        × (is_enabled (get_handle key result.1.db) ≡ false)
        × (result.1.files ≡ (remove_secret_artifact key r.files).1)
  unfolding retire_found
  retire_found-IsDone key now r h found =
      let (done, after) = disable-found key now r.db h found in rw (done, after) (refl, refl, refl)

  -- the finalizer refuses, or finds no listener, or finds one that it may retire
  pub retire_listener-cases :
      (owner now : String) (context : Fields) (r : Resources)
      → let result = retire_listener owner now context r in
        let key = thread_key_from_context context in
        ((result.0.is_ok ≡ false) × (result.1 ≡ r))
        ⊎ ((get_handle key r.db ≡ none) × (result ≡ retire_absent owner key r))
        ⊎ ((h : Handle) × (get_handle key r.db ≡ some h) × (result ≡ retire_found now key h r))
  unfolding retire_listener failed_finalizer
  retire_listener-cases owner now context r =
      elim (Bool-cases (is_other_action (requested_action context))) [
        | inl e ↦ inl (rw (retire_listener, e) (refl, refl))
        | inr e ↦ elim (Bool-cases (thread_key_from_context context == "")) [
          | inl k ↦ inl (rw (retire_listener, e) (rw k (refl, refl)))
          | inr k ↦ elim (Option-cases (get_handle (thread_key_from_context context) r.db)) [
            | inl absent ↦ inr (inl (absent, rw (retire_listener, e) (rw k (rw absent refl))))
            | inr (h, found) ↦ elim (Bool-cases (is_foreign owner h)) [
              | inl f ↦ inl (rw (retire_listener, e) (rw k (rw found (rw f (refl, refl)))))
              | inr f ↦ inr (inr (h, found, rw (retire_listener, e) (rw k (rw found (rw f refl)))))
            ]
          ]
        ]
      ]

  absent_succeeds :
      (owner key : String) (r : Resources) → (retire_absent owner key r).0.is_ok ≡ true
  unfolding retire_absent
  absent_succeeds owner key r = refl

  -- A finalizer that reports a failure has changed neither the registry nor the secret files.
  pub failed_retirement_changes_nothing :
      (owner now : String) (context : Fields) (r : Resources)
      → (retire_listener owner now context r).0.is_ok ≡ false
      → (retire_listener owner now context r).1 ≡ r
  failed_retirement_changes_nothing owner now context r failing =
      let key = thread_key_from_context context in
      elim (retire_listener-cases owner now context r) [
        | inl (bad, same) ↦ same
        | inr (inl (absent, e)) ↦
            elim (false≢true
              (sym failing ∙ ap (λ x. x.0.is_ok) e ∙ absent_succeeds owner key r)) [ ]
        | inr (inr (h, found, e)) ↦
            let (fine, after, removed) = retire_found-IsDone key now r h found in
            elim (false≢true (sym failing ∙ ap (λ x. x.0.is_ok) e ∙ fine)) [ ]
      ]

  -- A finalizer that reports success for a listener of the registry leaves that listener disabled,
  -- and neither of its secret files is left.
  pub retired_listener_is_off :
      (owner now : String) (context : Fields) (r : Resources) (h : Handle)
      → get_handle (thread_key_from_context context) r.db ≡ some h
      → (retire_listener owner now context r).0.is_ok ≡ true
      → let after = (retire_listener owner now context r).1 in
        let key = thread_key_from_context context in
        (is_enabled (get_handle key after.db) ≡ false)
        × (exists (safe_path_token key) "secret.txt" after.files ≡ false)
        × (exists (safe_path_token key) "contract.json" after.files ≡ false)
  retired_listener_is_off owner now context r h found succeeding =
      let key = thread_key_from_context context in
      elim (retire_listener-cases owner now context r) [
        | inl (bad, same) ↦ elim (false≢true (sym bad ∙ succeeding)) [ ]
        | inr (inl (absent, e)) ↦ let bad : false ≡ true = cc in elim (false≢true bad) [ ]
        | inr (inr (other, there, e)) ↦
            let (fine, after, removed) = retire_found-IsDone key now r other there in
            let (no_secret, no_contract) = remove_secret_artifact-leaves_none key r.files in
            rw (e, after, removed) (refl, no_secret, no_contract)
      ]
