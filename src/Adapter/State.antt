-- ===== src/Adapter/State.antt =====
-- What the receiver holds, and what it is given: the configuration, the clock and the gateway.
use Prim.Native.Char.{code}
use hermes_plugin_async_thre.Prelude.{
  Bool, List, Option, String, [], if◌then◌else◌, ltb, ℕ, ℤ, ◌++◌, ◌==◌, ◌∷◌,
}
use hermes_plugin_async_thre.IngressDigest.Policy.{IngressDigestPolicy}
use hermes_plugin_async_thre.Python.Json.{Fields, Json}
use hermes_plugin_async_thre.Registry.Rows.{Db, Handle, PayloadRow, SourceBinding}
use hermes_plugin_async_thre.Security.{EnvelopeFields}

-- the outcome of a call into the gateway: a value, or an exception's class and message
pub data Call {ℓ} (A : Type ℓ) : Type ℓ where
  returned : A → Call A
  raised : String → String → Call A

-- the `MessageEvent` that continues a session
pub record Message : Type 0 where
  pub body : String
  pub source : Fields
  pub raw_message : Fields
  pub message_id : String

-- what went out to the gateway, in order
pub data Delivery : Type 0 where
  direct_send : Fields → String → Delivery
  ack_send : Fields → String → Delivery
  queue_for_session : String → Message → Delivery
  start_session : Message → Delivery

-- what `send` gives: success, or the error text
pub data SendResult : Type 0 where
  sent : SendResult
  refused : String → SendResult

-- The gateway and the clock, while one request is handled. What a call returns may depend on what
-- went out before. `render` stands for `render_event_message`, on which no result below depends.
pub record Gateway : Type 0 where
  pub runner_exists : Bool
  -- `SessionSource.from_dict(source).platform.value`
  pub platform : Fields → Call String
  pub adapter_exists : String → Bool
  pub send : List Delivery → Fields → String → Call SendResult
  pub build_session_key : Fields → Call String
  pub has_active_session : String → Bool
  pub merge_pending : List Delivery → String → Message → Call (Unit {0})
  pub handle_message : List Delivery → Message → Call (Unit {0})
  pub render : Fields → EnvelopeFields → IngressDigestPolicy → Option PayloadRow → String
  pub utc_now : String
  pub time : String
  -- the time after a number of seconds, in the format of `utc_now`
  pub utc_after : ℤ → String

pub record Config : Type 0 where
  pub max_body_bytes : ℕ
  pub replay_window_seconds : ℤ
  pub ingress_digest : Json

-- one entry of a bucket of coalesced events
pub record Pending : Type 0 where
  pub handle : Handle
  pub data_fields : Fields
  pub fields : EnvelopeFields
  pub source_binding : Option SourceBinding
  pub attempts : ℕ

-- The two dicts of buckets are functions of the listener's key, a missing key being an empty
-- bucket, which the source never stores. `timers` are the flush tasks that are neither done nor
-- running, each with its delay.
pub record Receiver : Type 0 where
  pub db : Db
  pub coalesced : String → List Pending
  pub inflight : String → List Pending
  pub timers : String → Option ℕ
  pub running : Bool
  pub deliveries : List Delivery
  pub removed_secrets : List String

-- `d[key] = value`
abbrev pub assign {ℓ} : {A : Type ℓ} → String → A → (String → A) → String → A
assign key value d k = if k == key then value else d k

abbrev pub with_db : Db → Receiver → Receiver
with_db db st = record st { db = db }

abbrev pub deliver : Delivery → Receiver → Receiver
deliver d st = record st { deliveries = st.deliveries ++ d ∷ [] }

-- `DispatchEventError`, or any other exception, with its `detail`
pub record Failure : Type 0 where
  pub exception_class : String
  pub message : String
  pub detail : Fields

pub data Outcome : Type 0 where
  agent_started queued_active_session direct_delivered : Outcome

abbrev pub outcome_text : Outcome → String
outcome_text agent_started = "agent_started"
outcome_text queued_active_session = "queued_active_session"
outcome_text direct_delivered = "direct_delivered"

-- `_producer_status`
abbrev pub producer_status : Outcome → String
producer_status agent_started = "accepted"
producer_status queued_active_session = "queued"
producer_status direct_delivered = "delivered"

pub data Dispatched : Type 0 where
  delivered : Outcome → Fields → Dispatched
  failed : Failure → Dispatched

pub record Request : Type 0 where
  pub raw : List ℕ
  pub headers : String → String

-- a JSON response: `{"status": ..., "threadKey": ...}` or `{"error": ...}`, with its HTTP status
pub data Reply : Type 0 where
  status_reply : ℕ → String → String → Reply
  error_reply : ℕ → String → Reply

abbrev pub http_status_of : Reply → ℕ
http_status_of (status_reply code s key) = code
http_status_of (error_reply code e) = code

abbrev pub invalid_signature : Reply
invalid_signature = error_reply 401 "invalid signature"

-- what a producer takes for success: the reply is 2xx
unfoldable pub succeeds : Reply → Bool
succeeds r = ltb (http_status_of r) 300
