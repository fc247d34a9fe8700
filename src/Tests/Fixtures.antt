-- ===== src/Tests/Fixtures.antt =====
-- One listener, a gateway, and the requests of the examples.
use hermes_plugin_async_thre.Prelude.{[], false, if◌then◌else◌, none, pos, true, ◌==◌, ◌∷◌}
use hermes_plugin_async_thre.Adapter.State.{Config, Gateway, Receiver, Request, returned, sent}
use hermes_plugin_async_thre.Continuation.{default_continuation_policy}
use hermes_plugin_async_thre.Lifecycle.{default_lifecycle_policy}
use hermes_plugin_async_thre.Python.Json.{end, field, null, text}
use hermes_plugin_async_thre.Registry.Rows.{Db, Handle, empty_db}
use hermes_plugin_async_thre.Security.{EnvelopeFields}
use hermes_plugin_async_thre.Tests.AsciiRuntime.{ascii_runtime, sample_body}
use hermes_plugin_async_thre.Workflow.Policy.{default_workflow_policy}

abbrev pub sample_handle : Handle
sample_handle = record {
  thread_key = "ath_1";
  source = field "platform" (text "discord") end;
  producer_id = "ci";
  secret = "s3cret";
  policy = "direct";
  enabled = true;
  label = "";
  allowed_event_types = "ci.run.finished" ∷ [];
  session_key = "";
  session_id = "";
  owner_user_id = "u1";
  ack_mode = "none";
  debounce_seconds = 0;
  workflow_policy = default_workflow_policy;
  continuation_policy = default_continuation_policy;
  lifecycle_policy = default_lifecycle_policy;
  ingress_digest_policy = end;
  created_at = "t0";
  updated_at = "t0";
}

abbrev pub sample_fields : EnvelopeFields
sample_fields = record {
  event_id = "run:1";
  event_type = "ci.run.finished";
  producer_id = "ci";
  thread_key = "ath_1";
  summary = "done";
}

abbrev pub receiver : Db → Receiver
receiver db = record {
  db = db;
  coalesced = λ k. [];
  inflight = λ k. [];
  timers = λ k. none;
  running = true;
  deliveries = [];
  removed_secrets = [];
}

abbrev pub idle_receiver : Receiver
idle_receiver = receiver (record empty_db { handles = sample_handle ∷ [] })

abbrev pub seen_db : Db
seen_db = record empty_db {
  handles = sample_handle ∷ [];
  seen_events =
      (record {
        producer_id = "ci";
        event_id = "run:1";
        thread_key = "ath_1";
        first_seen_at = "t0";
      })
      ∷ [];
}

abbrev pub config : Config
config = record { max_body_bytes = 1000; replay_window_seconds = pos 300; ingress_digest = null }

abbrev pub gateway : Gateway
gateway = record {
  runner_exists = true;
  platform = λ source. returned "discord";
  adapter_exists = λ platform. true;
  send = λ out source body. returned sent;
  build_session_key = λ source. returned "session";
  has_active_session = λ key. false;
  merge_pending = λ out key message. returned tt;
  handle_message = λ out message. returned tt;
  render = λ d fields policy payload. "rendered";
  utc_now = "t1";
  time = "100.0";
  utc_after = λ n. "t2";
}

-- the same gateway before it is connected
abbrev pub offline : Gateway
offline = record gateway { runner_exists = false }

abbrev pub signed_request : Request
signed_request = record {
  raw = sample_body;
  headers = λ name. if name == "X-Hermes-Signature-256" then "sha256=ab12" else "";
}

abbrev pub unsigned_request : Request
unsigned_request = record { raw = sample_body; headers = λ name. "" }
