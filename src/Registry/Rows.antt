-- ===== src/Registry/Rows.antt =====
-- The rows of the SQLite tables. A JSON column is kept as the value that it encodes, a timestamp as
-- its text. A table is a list in order of insertion.
use hermes_plugin_async_thre.Prelude.{Bool, List, Option, String, [], ℕ}
use hermes_plugin_async_thre.Continuation.{ContinuationPolicy}
use hermes_plugin_async_thre.IngressDigest.Policy.{StoreEvent}
use hermes_plugin_async_thre.Lifecycle.{LifecyclePolicy}
use hermes_plugin_async_thre.Python.Json.{Fields}
use hermes_plugin_async_thre.Workflow.Policy.{WorkflowPolicy}
use hermes_plugin_async_thre.Workflow.Transition.{WorkflowState}

pub record Handle : Type 0 where
  pub thread_key : String
  pub source : Fields
  pub producer_id : String
  pub secret : String
  pub policy : String
  pub enabled : Bool
  pub label : String
  pub allowed_event_types : List String
  pub session_key : String
  pub session_id : String
  pub owner_user_id : String
  pub ack_mode : String
  pub debounce_seconds : ℕ
  pub workflow_policy : WorkflowPolicy
  pub continuation_policy : ContinuationPolicy
  pub lifecycle_policy : LifecyclePolicy
  pub ingress_digest_policy : Fields
  pub created_at : String
  pub updated_at : String

-- a row of `seen_events`; its primary key is the first two columns
pub record SeenEvent : Type 0 where
  pub producer_id : String
  pub event_id : String
  pub thread_key : String
  pub first_seen_at : String

pub record EventLogRow : Type 0 where
  pub id : ℕ
  pub producer_id : String
  pub event_id : String
  pub thread_key : String
  pub event_type : String
  pub outcome : String
  pub summary : String
  pub detail : Fields
  pub created_at : String

pub data BindingStatus : Type 0 where
  active paused retired : BindingStatus

pub record SourceBinding : Type 0 where
  pub binding_id : String
  pub owner_user_id : String
  pub source : String
  pub source_ref : Fields
  pub listener_thread_key : String
  pub producer_id : String
  pub event_filter : Fields
  pub transform : Fields
  pub cursor : Fields
  pub coalesce : Fields
  pub ingress_digest_policy : Fields
  pub delivery_policy : String
  pub status : BindingStatus
  pub created_at : String
  pub updated_at : String

pub record OutboxRow : Type 0 where
  pub id : ℕ
  pub binding_id : String
  pub upstream_event_id : ℕ
  pub ath_event_id : String
  pub event_type : String
  pub action : String
  pub status : String
  pub attempts : ℕ
  pub http_status : Option ℕ
  pub receiver_status : String
  pub last_error : String
  pub envelope : Fields
  pub created_at : String
  pub updated_at : String

pub record PayloadRow : Type 0 where
  pub pointer_id : String
  pub owner_user_id : String
  pub thread_key : String
  pub producer_id : String
  pub event_id : String
  pub event_type : String
  pub source_binding_id : String
  pub storage_mode : StoreEvent
  pub redacted_payload : Fields
  pub raw_payload : Fields
  pub digest : Fields
  pub diagnostics : Fields
  pub created_at : String
  pub expires_at : String

pub record WorkflowRow : Type 0 where
  pub thread_key : String
  pub state : WorkflowState

pub record Db : Type 0 where
  pub handles : List Handle
  pub seen_events : List SeenEvent
  pub event_log : List EventLogRow
  pub next_log_id : ℕ
  pub workflow_state : List WorkflowRow
  pub source_bindings : List SourceBinding
  pub outbox : List OutboxRow
  pub next_outbox_id : ℕ
  pub event_payloads : List PayloadRow

abbrev pub empty_db : Db
empty_db = record {
  handles = [];
  seen_events = [];
  event_log = [];
  next_log_id = 1;
  workflow_state = [];
  source_bindings = [];
  outbox = [];
  next_outbox_id = 1;
  event_payloads = [];
}
