-- ===== src/Registry/Bindings.antt =====
-- The table of source bindings.
use hermes_plugin_async_thre.Prelude.{
  Bool, List, Option, String, [], any, elem, false, first, if◌then◌else◌, is_empty, is_some, keep,
  last_such, none, not, some, true, update_where, ◌&&◌, ◌++◌, ◌==◌, ◌||◌, ◌∷◌,
}
use hermes_plugin_async_thre.IngressDigest.Resolve.{policy_override_mapping}
use hermes_plugin_async_thre.Privacy.{safe_event_id, sanitize_untrusted_value}
use hermes_plugin_async_thre.Python.Except.{Except, ok, raise, raise_if, value_error, ◌>>=◌, ◌>>◌}
use hermes_plugin_async_thre.Python.Json.{Fields, Json, end, fields?, mapping, obj}
use hermes_plugin_async_thre.Python.Runtime.{Runtime}
use hermes_plugin_async_thre.Python.Text.{clean_token}
use hermes_plugin_async_thre.Registry.Handles.{get_handle}
use hermes_plugin_async_thre.Registry.Rows.{
  BindingStatus, Db, Handle, SourceBinding, active, paused, retired,
}
use hermes_plugin_async_thre.SourceFilters.{kanban_default_event_types, source_binding_event_types}
use hermes_plugin_async_thre.Workflow.Transition.{or_text}

abbrev pub read_status : String → Option BindingStatus
read_status s =
    if s == "active"
    then some active
    else if s == "paused"
    then some paused
    else if s == "retired"
    then some retired
    else none

abbrev pub is_active : BindingStatus → Bool
is_active active = true
is_active _ = false

-- `get_source_binding`; an empty owner does not restrict
unfoldable pub get_source_binding : String → String → Db → Option SourceBinding
get_source_binding binding_id owner db =
    first (λ b. b.binding_id == binding_id && (owner == "" || b.owner_user_id == owner))
      db.source_bindings

-- `set_source_binding_status`
unfoldable pub set_source_binding_status : String → String → String → String → Db → Bool × Db
set_source_binding_status binding_id owner status now db =
    let this : SourceBinding → Bool = λ b. b.binding_id == binding_id && b.owner_user_id == owner in
    elim (read_status status) [
      | none ↦ (false, db)
      | some s ↦ if owner == "" then (false, db) else (
        any this db.source_bindings,
        record db {
          source_bindings =
              update_where this (λ b. record b { status = s; updated_at = now }) db.source_bindings;
        },
      )
    ]

-- what `create_source_binding` is given
pub record NewBinding : Type 0 where
  pub owner_user_id : String
  pub source : String
  pub source_ref : Json
  pub listener_thread_key : String
  pub producer_id : String
  pub event_filter : Json
  pub transform : Json
  pub cursor : Json
  pub coalesce : Json
  pub ingress_digest_policy : Json
  pub delivery_policy : String
  pub status : String

-- why a binding may not run
pub data Compatibility : Type 0 where
  compatible : Compatibility
  binding_not_active : BindingStatus → Compatibility
  listener_missing listener_not_owned listener_disabled producer_mismatch : Compatibility
  disallowed_event_types : List String → Compatibility

module _ ⦃py : Runtime⦄ where
  -- `_redacted_mapping`
  unfoldable pub redacted_mapping : Json → Fields
  unfolding sanitize_untrusted_value
  redacted_mapping v = elim (fields? v) [
    | none ↦ end
    | some d ↦ mapping (sanitize_untrusted_value (obj d))
  ]

  -- the row that `create_source_binding` inserts for a listener, under its random id
  unfoldable pub new_binding : NewBinding → Handle → Fields → String → String → SourceBinding
  unfolding redacted_mapping clean_token
  new_binding request handle digest binding_id now =
      let source_token = clean_token request.source "source" 100 in
      record {
        binding_id = binding_id;
        owner_user_id = request.owner_user_id;
        source = source_token;
        source_ref = redacted_mapping request.source_ref;
        listener_thread_key = handle.thread_key;
        producer_id =
            clean_token (or_text request.producer_id (or_text handle.producer_id source_token))
              source_token 100;
        event_filter = redacted_mapping request.event_filter;
        transform = redacted_mapping request.transform;
        cursor = redacted_mapping request.cursor;
        coalesce = redacted_mapping request.coalesce;
        ingress_digest_policy = digest;
        delivery_policy =
            if elem request.delivery_policy ("agent_queue" ∷ "direct" ∷ [])
            then request.delivery_policy
            else "agent_queue";
        status = elim (read_status request.status) [ none ↦ active | some s ↦ s ];
        created_at = now;
        updated_at = now;
      }

  -- `create_source_binding`
  unfoldable pub create_source_binding :
      NewBinding → String → String → Db → Except (SourceBinding × Db)
  unfolding new_binding get_handle
  create_source_binding request binding_id now db = do
    raise_if (request.owner_user_id == "") (value_error "owner_user_id is required")
    handle ← elim (get_handle request.listener_thread_key db) [
      | none ↦ raise (value_error "async-thread listener not found")
      | some h ↦
          if h.owner_user_id == request.owner_user_id
          then ok h
          else raise (value_error "async-thread listener not found")
    ]
    digest ← policy_override_mapping request.ingress_digest_policy
    raise_if (any (λ b. b.binding_id == binding_id) db.source_bindings)
        (value_error "UNIQUE constraint failed")
    let row = new_binding request handle digest binding_id now
    ok (row, record db { source_bindings = db.source_bindings ++ row ∷ [] })

  -- the active binding of an outbox row, if it queues events of this producer for this listener
  unfoldable pub active_binding : String → String → String → Db → Option SourceBinding
  active_binding thread_key producer_id binding_id db =
      first
        (λ b.
          b.binding_id == binding_id
          && b.listener_thread_key == thread_key
          && b.producer_id == producer_id
          && is_active b.status)
        db.source_bindings

  -- `find_source_binding_for_event`: of the newest outbox row that has one
  unfoldable pub find_source_binding_for_event :
      String → String → String → Db → Option SourceBinding
  unfolding active_binding safe_event_id
  find_source_binding_for_event thread_key producer_id event_id db =
      elim (last_such
        (λ o.
          o.ath_event_id == safe_event_id event_id
          && is_some (active_binding thread_key producer_id o.binding_id db))
        db.outbox) [ none ↦ none | some o ↦ active_binding thread_key producer_id o.binding_id db ]

  -- the default event types of a binding's source
  abbrev pub binding_default_types : SourceBinding → List String
  binding_default_types b = if b.source == "kanban" then kanban_default_event_types else []

  -- the event types that a binding needs and its listener does not allow, an empty list of the
  -- listener allowing all of them. (The report sorts them.)
  unfoldable pub missing_event_types : SourceBinding → Handle → List String
  missing_event_types b h =
      if is_empty h.allowed_event_types
      then []
      else keep (λ t. not (elem t h.allowed_event_types))
          (source_binding_event_types b.source (obj b.event_filter) (binding_default_types b))

  -- `source_binding_compatibility`
  unfoldable pub source_binding_compatibility : SourceBinding → Db → Compatibility
  source_binding_compatibility b db =
      if not (is_active b.status)
      then binding_not_active b.status
      else elim (get_handle b.listener_thread_key db) [
        | none ↦ listener_missing
        | some h ↦
            if not (h.owner_user_id == b.owner_user_id)
            then listener_not_owned
            else if not h.enabled
            then listener_disabled
            else if not (b.producer_id == h.producer_id)
            then producer_mismatch
            else if is_empty (missing_event_types b h)
            then compatible
            else disallowed_event_types (missing_event_types b h)
      ]
