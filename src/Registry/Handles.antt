-- ===== src/Registry/Handles.antt =====
-- The table of listener handles.
use hermes_plugin_async_thre.Prelude.{
  Bool, Bool-cases, List, Option, String, [], any, ap, clamp_zero, elem, eq_iff, false, first,
  if◌then◌else◌, inl, inr, min_ℤ, none, pos, refl, some, sym, true, update_where, ℕ, ℤ, ◌++◌, ◌==◌,
  ◌∙◌, ◌∷◌, ◌≡◌,
}
use hermes_plugin_async_thre.Continuation.{ContinuationPolicy, reread_continuation}
use hermes_plugin_async_thre.IngressDigest.Resolve.{policy_override_mapping}
use hermes_plugin_async_thre.Lifecycle.{
  LifecyclePolicy, lifecycle_from_mapping, lifecycle_to_mapping,
}
use hermes_plugin_async_thre.Python.Except.{Except, ok, raise_if, value_error, ◌>>=◌, ◌>>◌}
use hermes_plugin_async_thre.Python.Json.{Fields, Json, obj}
use hermes_plugin_async_thre.Python.Runtime.{Runtime}
use hermes_plugin_async_thre.Python.Text.{clean_token, strip}
use hermes_plugin_async_thre.Registry.Rows.{Db, Handle}
use hermes_plugin_async_thre.Workflow.Policy.{
  WorkflowPolicy, workflow_policy_from_mapping, workflow_policy_to_mapping,
}
use hermes_plugin_async_thre.Workflow.Transition.{or_text}

first-passes :
    (test : Handle → Bool) (hs : List Handle) (h : Handle) → first test hs ≡ some h → test h ≡ true
first-passes test [] h e = cc
first-passes test (x ∷ xs) h e = elim (Bool-cases (test x)) [
  | inl t ↦
      let head : first test (x ∷ xs) ≡ some x = rw t refl in
      let same : some x ≡ some h = sym head ∙ e in cc
  | inr t ↦
      let tail : first test (x ∷ xs) ≡ first test xs = rw t refl in
      first-passes test xs h (sym tail ∙ e)
]

module _ ⦃py : Runtime⦄ where
  -- `_row_to_handle`: the policies are read again from the objects that the columns hold
  unfoldable pub row_to_handle : Handle → Handle
  unfolding workflow_policy_from_mapping workflow_policy_to_mapping reread_continuation
      lifecycle_from_mapping lifecycle_to_mapping
  row_to_handle row = record row {
    ack_mode = or_text row.ack_mode "none";
    workflow_policy = workflow_policy_from_mapping (workflow_policy_to_mapping row.workflow_policy);
    continuation_policy = reread_continuation row.continuation_policy;
    lifecycle_policy = lifecycle_from_mapping (obj (lifecycle_to_mapping row.lifecycle_policy));
  }

  -- the row that a query gives, if any, as a handle
  unfoldable pub read_row : Option Handle → Option Handle
  unfolding row_to_handle
  read_row none = none
  read_row (some row) = some (row_to_handle row)

  -- `get_handle`
  unfoldable pub get_handle : String → Db → Option Handle
  unfolding read_row
  get_handle key db = read_row (first (λ h. h.thread_key == key) db.handles)

  read_row-some :
      (found : Option Handle) (h : Handle)
      → read_row found ≡ some h
      → (row : Handle) × (found ≡ some row) × (row_to_handle row ≡ h)
  unfolding read_row
  read_row-some none h e = cc
  read_row-some (some row) h e = (row, refl, cc)

  -- a handle that is read is that of the first row with its key
  pub get_handle-row :
      (key : String) (db : Db) (h : Handle)
      → get_handle key db ≡ some h
      → (row : Handle) × (first (λ h. h.thread_key == key) db.handles ≡ some row)
        × (row_to_handle row ≡ h)
  unfolding get_handle read_row
  get_handle-row key db h e = read_row-some (first (λ h. h.thread_key == key) db.handles) h e

  -- The handle that is found carries the key that was asked for.
  pub get_handle-key :
      (key : String) (db : Db) (h : Handle) → get_handle key db ≡ some h → h.thread_key ≡ key
  unfolding row_to_handle
  get_handle-key key db h e =
      let (row, there, same) = get_handle-row key db h e in
      let passes = first-passes (λ h. h.thread_key == key) db.handles row there in
      ap (λ x. x.thread_key) (sym same) ∙ (eq_iff row.thread_key key).0 passes

-- `set_enabled`: whether a row was there, and the table after the update
unfoldable pub set_enabled : String → Bool → String → Db → Bool × Db
set_enabled key enabled now db = (
  any (λ h. h.thread_key == key) db.handles,
  record db {
    handles =
        update_where (λ h. h.thread_key == key)
          (λ h. record h { enabled = enabled; updated_at = now }) db.handles;
  },
)

-- `revoke`
unfoldable pub revoke : String → String → Db → Bool × Db
unfolding set_enabled
revoke key now db = set_enabled key false now db

-- what `create_handle` is given, the policies as objects of their classes
pub record NewHandle : Type 0 where
  pub source : Fields
  pub producer_id : String
  pub label : String
  pub allowed_event_types : List String
  pub policy : String
  pub session_key : String
  pub session_id : String
  pub owner_user_id : String
  pub ack_mode : String
  pub debounce_seconds : ℤ
  pub workflow_policy : WorkflowPolicy
  pub continuation_policy : ContinuationPolicy
  pub lifecycle_policy : LifecyclePolicy
  pub ingress_digest_policy : Json

-- `max(0, min(n, 300))`
abbrev pub bounded_debounce : ℤ → ℕ
bounded_debounce n = clamp_zero (min_ℤ n (pos 300))

module _ ⦃py : Runtime⦄ where
  -- `rotate_secret`, with the new random secret
  unfoldable pub rotate_secret : String → String → String → Db → Option Handle × Db
  unfolding get_handle
  rotate_secret key new_secret now db =
      let db' = record db {
        handles =
            update_where (λ h. h.thread_key == key)
              (λ h. record h { secret = new_secret; updated_at = now }) db.handles;
      } in
      if any (λ h. h.thread_key == key) db.handles then (get_handle key db', db') else (none, db')

  clean_event_types : List String → List String
  unfolding clean_token
  clean_event_types [] = []
  clean_event_types (e ∷ es) =
      let rest = clean_event_types es in
      let cleaned = clean_token e "" 100 in if cleaned == "" then rest else cleaned ∷ rest

  -- the row that `create_handle` inserts, under its random key and secret
  unfoldable pub new_handle : NewHandle → Fields → String → String → String → Handle
  unfolding clean_token clean_event_types strip
  new_handle request digest thread_key secret now = record {
    thread_key = thread_key;
    source = request.source;
    producer_id = clean_token request.producer_id "default" 100;
    secret = secret;
    policy =
        if elem request.policy ("agent_queue" ∷ "direct" ∷ [])
        then request.policy
        else "agent_queue";
    enabled = true;
    label = strip request.label;
    allowed_event_types = clean_event_types request.allowed_event_types;
    session_key = request.session_key;
    session_id = request.session_id;
    owner_user_id = request.owner_user_id;
    ack_mode =
        if elem request.ack_mode ("none" ∷ "brief" ∷ "debug" ∷ [])
        then request.ack_mode
        else "none";
    debounce_seconds = bounded_debounce request.debounce_seconds;
    workflow_policy = request.workflow_policy;
    continuation_policy = request.continuation_policy;
    lifecycle_policy = request.lifecycle_policy;
    ingress_digest_policy = digest;
    created_at = now;
    updated_at = now;
  }

  -- `create_handle`; a key that is taken violates the primary key
  unfoldable pub create_handle :
      NewHandle → String → String → String → Db → Except (Option Handle × Db)
  unfolding new_handle get_handle
  create_handle request thread_key secret now db = do
    digest ← policy_override_mapping request.ingress_digest_policy
    raise_if (any (λ h. h.thread_key == thread_key) db.handles)
        (value_error "UNIQUE constraint failed")
    let db' = record db {
      handles = db.handles ++ new_handle request digest thread_key secret now ∷ [];
    }
    ok (get_handle thread_key db', db')
