-- ===== src/Listeners/Create.antt =====
-- `create_listener` and what it returns. The gateway's session key and session id are arguments.
use hermes_plugin_async_thre.Prelude.{Option, String, false, none, not, pos, some, ◌==◌}
use hermes_plugin_async_thre.Continuation.{continuation_summary}
use hermes_plugin_async_thre.Lifecycle.{lifecycle_summary}
use hermes_plugin_async_thre.Listeners.Request.{
  ListenArguments, ListenRequest, normalize_listen_request,
}
use hermes_plugin_async_thre.Python.Except.{Except, ok, ◌>>=◌}
use hermes_plugin_async_thre.Python.Json.{Fields, arr, bool, end, field, get, int, obj, text, texts}
use hermes_plugin_async_thre.Python.Runtime.{Runtime}
use hermes_plugin_async_thre.Python.Values.{str_or_empty}
use hermes_plugin_async_thre.Registry.Handles.{NewHandle, create_handle}
use hermes_plugin_async_thre.Registry.Rows.{Db, Handle}
use hermes_plugin_async_thre.Workflow.Policy.{WorkflowPolicy, gate_mode_text}
use hermes_plugin_async_thre.Workflow.Transition.{or_text}

pub record ListenResult : Type 0 where
  pub handle : Handle
  pub event_url : String
  pub source : Fields
  pub session_key : String
  pub session_id : String

abbrev pub workflow_summary : WorkflowPolicy → Fields
workflow_summary p = field "gate_order" (arr (texts p.gate_order)) (
    field "gate_mode" (text (gate_mode_text p.gate_mode)) (
      field "stale_on_artifact_change" (arr (texts p.stale_on_artifact_change))
        (field "candidate_required" (arr (texts p.candidate_required)) end)))

-- `public_summary`
unfoldable pub public_summary : ListenResult → Fields
public_summary r = field "threadKey" (text r.handle.thread_key) (
    field "producerId" (text r.handle.producer_id) (
      field "allowedEventTypes" (arr (texts r.handle.allowed_event_types)) (
        field "policy" (text r.handle.policy) (
          field "ackMode" (text r.handle.ack_mode) (
            field "debounceSeconds" (int (pos r.handle.debounce_seconds)) (
              field "workflowPolicy" (obj (workflow_summary r.handle.workflow_policy)) (
                field "continuationPolicy"
                  (obj (continuation_summary r.handle.continuation_policy false))
                  (field "lifecyclePolicy" (obj (lifecycle_summary r.handle.lifecycle_policy)) (
                    field "ingressDigestOverride" (obj r.handle.ingress_digest_policy) (
                      field "eventUrl" (text r.event_url) (
                        field "source" (obj r.source) (
                          field "sessionKeyPresent" (bool (not (r.session_key == "")))
                            (field "sessionId" (text r.session_id) end)))))))))))))

-- what `create_listener` passes to the registry
unfoldable pub handle_arguments : ListenRequest → Fields → String → String → String → NewHandle
handle_arguments r source session_key session_id owner = record {
  source = source;
  producer_id = r.producer_id;
  label = r.label;
  allowed_event_types = r.allowed_event_types;
  policy = r.policy;
  session_key = session_key;
  session_id = session_id;
  owner_user_id = owner;
  ack_mode = r.ack_mode;
  debounce_seconds = r.debounce_seconds;
  workflow_policy = r.workflow_policy;
  continuation_policy = r.continuation_policy;
  lifecycle_policy = r.lifecycle_policy;
  ingress_digest_policy = obj r.ingress_digest_policy;
}

-- the random values and the time of a `create_handle`
pub record Fresh : Type 0 where
  pub thread_key : String
  pub secret : String
  pub now : String

-- the result around the row that the registry returns
unfoldable pub result_of : Fields → String → String → String → Option Handle → Option ListenResult
result_of source session_key session_id event_url none = none
result_of source session_key session_id event_url (some h) = some (record {
  handle = h;
  event_url = event_url;
  source = source;
  session_key = session_key;
  session_id = session_id;
})

module _ ⦃py : Runtime⦄ where
  -- the owner of the request, or else the user of the source
  unfoldable pub resolved_owner : ListenRequest → Fields → String
  resolved_owner r source = or_text r.owner_user_id (str_or_empty (get "user_id" source))

  -- the request is normalized; `source` is what `source_to_dict` gives
  unfoldable pub store_listener :
      ListenRequest
      → Fields
      → String
      → String
      → String
      → Fresh
      → Db
      → Except (Option ListenResult × Db)
  store_listener request source session_key session_id event_url fresh db = do
    created ←
        create_handle
          (handle_arguments request source session_key session_id (resolved_owner request source))
          fresh.thread_key fresh.secret fresh.now db
    ok (result_of source session_key session_id event_url created.0, created.1)

  -- `create_listener`
  unfoldable pub create_listener :
      ListenArguments
      → Fields
      → String
      → String
      → String
      → Fresh
      → Db
      → Except (Option ListenResult × Db)
  create_listener args source session_key session_id event_url fresh db = do
    request ← normalize_listen_request args
    store_listener request source session_key session_id event_url fresh db
