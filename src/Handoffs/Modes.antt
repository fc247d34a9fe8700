-- ===== src/Handoffs/Modes.antt =====
-- What a handoff is asked for: its arguments, its mode, and the type of its events.
use hermes_plugin_async_thre.Prelude.{
  Bool, List, String, [], elem, if◌then◌else◌, not, ◌&&◌, ◌<>◌, ◌==◌, ◌∷◌,
}
use hermes_plugin_async_thre.Python.Json.{Fields, dict, get_or, text}
use hermes_plugin_async_thre.Python.Runtime.{Runtime}
use hermes_plugin_async_thre.Python.Text.{replace, strip}
use hermes_plugin_async_thre.Python.Values.{to_str}
use hermes_plugin_async_thre.Registry.Rows.{Handle}
use hermes_plugin_async_thre.Secrets.Files.{FileStore}
use hermes_plugin_async_thre.Workflow.Transition.{or_text}

abbrev pub handoff_version : String
handoff_version = "async-thread-producer-handoff/v1"

abbrev pub modes : List String
modes =
    "generic_contract" ∷ "local_script" ∷ "github_actions" ∷ "debug_curl" ∷ "dynamic_workflows" ∷ []

abbrev pub mode_aliases : Fields
mode_aliases = dict (
    ("generic", text "generic_contract")
    ∷ ("contract", text "generic_contract")
    ∷ ("local", text "local_script")
    ∷ ("script", text "local_script")
    ∷ ("ci", text "github_actions")
    ∷ ("github", text "github_actions")
    ∷ ("github_action", text "github_actions")
    ∷ ("dynamic_workflow", text "dynamic_workflows")
    ∷ ("dynamic_workflows", text "dynamic_workflows")
    ∷ ("dw", text "dynamic_workflows")
    ∷ ("curl", text "debug_curl")
    ∷ ("debug", text "debug_curl")
    ∷ [])

-- the two directories that a handoff is written below
pub record HandoffStores : Type 0 where
  pub secrets : FileStore
  pub handoffs : FileStore

-- the arguments beside the listener; the roots are resolved paths
pub record HandoffArguments : Type 0 where
  pub event_url : String
  pub secret_root : String
  pub handoff_root : String
  pub mode : String
  pub event_type : String
  pub create_files : Bool
  pub include_sensitive_secret : Bool
  pub helper_path : String
  pub now : String

-- the type that is wanted where it is allowed, or else the first one allowed, or else the default
unfoldable pub select_of : List String → String → String → String
select_of [] default wanted = if wanted == "" then default else wanted
select_of (t ∷ ts) default wanted = if not (wanted == "") && elem wanted (t ∷ ts) then wanted else t

module _ ⦃py : Runtime⦄ where
  -- `_normalize_mode`
  unfoldable pub normalize_mode : String → String
  normalize_mode value =
      let mode = replace "-" "_" (py.lower (strip (or_text value "generic_contract"))) in
      let named = to_str (get_or mode (text mode) mode_aliases) in
      if elem named modes then named else "generic_contract"

  -- `_select_event_type`
  unfoldable pub select_event_type : Handle → String → String
  unfolding select_of
  select_event_type h requested =
      select_of h.allowed_event_types (h.producer_id <> ".finished") (strip requested)
