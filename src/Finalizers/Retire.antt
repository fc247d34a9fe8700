-- ===== src/Finalizers/Retire.antt =====
-- `AthFinalizerAdapter.retire_listener`: a finished workflow ends its listener.
use Prim.Native.Char.{Char, code}
use hermes_plugin_async_thre.Prelude.{
  Bool, List, Option, String, [], false, if◌then◌else◌, ltb, nat_eq, none, not, some, true, ◌&&◌,
  ◌<>◌, ◌==◌, ◌||◌, ◌∷◌,
}
use hermes_plugin_async_thre.Python.Json.{
  Fields, Json, arr, bool, end, field, get, is_empty_dict, mapping, text, texts,
}
use hermes_plugin_async_thre.Python.Runtime.{Runtime}
use hermes_plugin_async_thre.Python.Text.{strip, text_length}
use hermes_plugin_async_thre.Python.Values.{str_or_empty}
use hermes_plugin_async_thre.Registry.Handles.{get_handle, set_enabled}
use hermes_plugin_async_thre.Registry.Rows.{Db, Handle}
use hermes_plugin_async_thre.Secrets.Artifact.{remove_secret_artifact}
use hermes_plugin_async_thre.Secrets.Files.{FileStore}

-- what a finalizer reports; evidence that is absent is `end`
pub record FinalizerReport : Type 0 where
  pub is_ok : Bool
  pub summary : String
  pub evidence : Fields

-- the registry and the secret files
pub record Resources : Type 0 where
  pub db : Db
  pub files : FileStore

abbrev pub retire_action : String
retire_action = "ath.listener.retire"

-- `_failed`
unfoldable pub failed_finalizer : String → String → Fields → FinalizerReport
failed_finalizer message action evidence = record {
  is_ok = false;
  summary = message;
  evidence =
      if not (is_empty_dict evidence)
      then evidence
      else if action == ""
      then end
      else field "kind" (text action) (field "status" (text "failed") end);
}

abbrev pub absent_evidence : String → Bool → Fields
absent_evidence thread_key removed = field "kind" (text retire_action) (
    field "threadKey" (text thread_key) (
      field "found" (bool false) (
        field "wasEnabled" (bool false) (
          field "enabledAfter" (bool false)
            (field "retired" (bool false) (field "secretMaterialRemoved" (bool removed) end))))))

abbrev pub foreign_evidence : String → Handle → Fields
foreign_evidence thread_key h = field "kind" (text retire_action) (
    field "threadKey" (text thread_key) (
      field "found" (bool true) (
        field "ownerMatched" (bool false)
          (field "wasEnabled" (bool h.enabled) (field "secretMaterialRemoved" (bool false) end)))))

abbrev pub retired_evidence : String → Handle → Bool → Bool → Bool → Fields
retired_evidence thread_key h did_retire enabled_after removed = field "kind" (text retire_action) (
    field "threadKey" (text thread_key) (
      field "found" (bool true) (
        field "producerId" (text h.producer_id) (
          field "allowedEventTypes" (arr (texts h.allowed_event_types)) (
            field "wasEnabled" (bool h.enabled) (
              field "retired" (bool did_retire) (
                field "enabledAfter" (bool enabled_after)
                  (field "secretMaterialRemoved" (bool removed) end))))))))

-- an action that is named and is not the one that there is
unfoldable pub is_other_action : String → Bool
is_other_action action = not (action == "") && not (action == retire_action)

-- an owner is in scope, and is not the listener's
unfoldable pub is_foreign : String → Handle → Bool
is_foreign owner h = not (owner == "") && not (h.owner_user_id == owner)

-- `bool(after.enabled) if after is not None else False`
abbrev pub is_enabled : Option Handle → Bool
is_enabled none = false
is_enabled (some h) = h.enabled

module _ ⦃py : Runtime⦄ where
  abbrev is_key_char : Char → Bool
  is_key_char c = py.is_alnum c || nat_eq (code c) b'-' || nat_eq (code c) b'_'

  unfoldable pub all_key_chars : String → Bool
  all_key_chars String.[] = true
  all_key_chars (String.◌∷◌ c s) = is_key_char c && all_key_chars s

  -- `_safe_thread_key`
  unfoldable pub safe_thread_key : String → String
  unfolding strip all_key_chars text_length
  safe_thread_key value =
      let key = strip value in
      if ltb 128 (text_length key) then "" else if all_key_chars key then key else ""

  -- the first of the values that is a text with a safe key
  unfoldable pub first_safe_key : List Json → String
  unfolding safe_thread_key
  first_safe_key [] = ""
  first_safe_key (text s ∷ vs) =
      let others = first_safe_key vs in
      let cleaned = safe_thread_key s in if cleaned == "" then others else cleaned
  first_safe_key (v ∷ vs) = first_safe_key vs

  -- `_thread_key_from_context`
  unfoldable pub thread_key_from_context : Fields → String
  thread_key_from_context context =
      let resource = mapping (get "resource" context) in
      let handle = mapping (get "handle" resource) in
      let args = mapping (get "args" (mapping (get "finalizer" context))) in
      first_safe_key (
        get "threadKey" handle
        ∷ get "thread_key" handle
        ∷ get "threadKey" resource
        ∷ get "thread_key" resource
        ∷ get "threadKey" args
        ∷ get "thread_key" args
        ∷ [])

  -- the registry has no such listener; with an owner in scope the files stay
  unfoldable pub retire_absent : String → String → Resources → FinalizerReport × Resources
  retire_absent owner thread_key r =
      let removal : Bool × FileStore =
        if owner == "" then remove_secret_artifact thread_key r.files else (false, r.files) in
      (
        record {
          is_ok = true;
          summary = "ATH listener already absent";
          evidence = absent_evidence thread_key removal.0;
        },
        record r { files = removal.1 },
      )

  -- `set_enabled(thread_key, False) if was_enabled else True`
  unfoldable pub disable : String → String → Handle → Db → Bool × Db
  disable now thread_key h db =
      if h.enabled then set_enabled thread_key false now db else (true, db)

  -- the listener is there and the owner, if one is in scope, is its owner
  unfoldable pub retire_found : String → String → Handle → Resources → FinalizerReport × Resources
  retire_found now thread_key h r =
      let disabling = disable now thread_key h r.db in
      let enabled_after = is_enabled (get_handle thread_key disabling.1) in
      let is_ok = disabling.0 && not enabled_after in
      let removal : Bool × FileStore =
        if is_ok then remove_secret_artifact thread_key r.files else (false, r.files) in
      let evidence = retired_evidence thread_key h disabling.0 enabled_after removal.0 in
      (
        if is_ok
            then record {
              is_ok = true;
              summary =
                  if h.enabled then "ATH listener retired" else "ATH listener already retired";
              evidence = evidence;
            }
            else failed_finalizer "ATH listener could not be retired" retire_action evidence,
        record { db = disabling.1; files = removal.1 },
      )

  unfoldable pub requested_action : Fields → String
  requested_action context = str_or_empty (get "action" (mapping (get "finalizer" context)))

  -- `retire_listener`; the adapter's `owner_user_id` is "" where it has no owner in scope
  unfoldable pub retire_listener :
      String → String → Fields → Resources → FinalizerReport × Resources
  retire_listener owner now context r =
      let action = requested_action context in
      let thread_key = thread_key_from_context context in
      if is_other_action action
      then (
        failed_finalizer ("unsupported ATH finalizer action " <> py.repr (text action)) action end,
        r,
      )
      else if thread_key == ""
      then (
        failed_finalizer "ATH listener finalizer requires resource.handle.threadKey" retire_action
            end,
        r,
      )
      else elim (get_handle thread_key r.db) [
        | none ↦ retire_absent owner thread_key r
        | some h ↦
            if is_foreign owner h
            then (
              failed_finalizer "ATH listener owner does not match finalizer adapter owner"
                  retire_action (foreign_evidence thread_key h),
              r,
            )
            else retire_found now thread_key h r
      ]
