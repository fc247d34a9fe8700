-- ===== src/Listeners/Request.antt =====
-- `normalize_listen_request`: the checks of a request for a listener.
use hermes_plugin_async_thre.Prelude.{
  Bool, List, String, [], elem, if◌then◌else◌, ltb_ℤ, not, pos, ℤ, ◌==◌, ◌||◌, ◌∷◌,
}
use hermes_plugin_async_thre.Continuation.{ContinuationPolicy, continuation_from_mapping}
use hermes_plugin_async_thre.Lifecycle.{LifecyclePolicy, lifecycle_from_mapping}
use hermes_plugin_async_thre.Python.Except.{
  Except, listen_validation, ok, raise, raise_if, ◌>>=◌, ◌>>◌,
}
use hermes_plugin_async_thre.Python.Json.{
  Fields, Json, arr, end, field, int, mapping, obj, text, texts,
}
use hermes_plugin_async_thre.Python.Runtime.{Runtime}
use hermes_plugin_async_thre.Python.Values.{is_type_or_value_error, or_value, to_int}
use hermes_plugin_async_thre.Workflow.Policy.{WorkflowPolicy, workflow_policy_from_mapping}
use hermes_plugin_async_thre.Workflow.Transition.{or_text}

-- a policy is given as an object of its class, as a mapping, or as `None`
pub data Given (A : Type 0) : Type 0 where
  as_object : A → Given A
  as_mapping : Fields → Given A
  not_given : Given A

-- the arguments of `normalize_listen_request`
pub record ListenArguments : Type 0 where
  pub producer_id : String
  pub allowed_event_types : List String
  pub label : String
  pub policy : String
  pub ack_mode : String
  pub debounce_seconds : Json
  pub workflow_policy : Given WorkflowPolicy
  pub continuation_policy : Given ContinuationPolicy
  pub lifecycle_policy : Given LifecyclePolicy
  pub ingress_digest_policy : Json
  pub gate_order : List String
  pub gate_mode : String
  pub stale_on_artifact_change : List String
  pub candidate_required : List String
  pub owner_user_id : String

pub record ListenRequest : Type 0 where
  pub producer_id : String
  pub allowed_event_types : List String
  pub label : String
  pub policy : String
  pub ack_mode : String
  pub debounce_seconds : ℤ
  pub owner_user_id : String
  pub gate_order : List String
  pub gate_mode : String
  pub stale_on_artifact_change : List String
  pub candidate_required : List String
  pub workflow_policy : WorkflowPolicy
  pub continuation_policy : ContinuationPolicy
  pub lifecycle_policy : LifecyclePolicy
  pub ingress_digest_policy : Fields

abbrev pub valid_policies : List String
valid_policies = "agent_queue" ∷ "direct" ∷ []

abbrev pub valid_ack_modes : List String
valid_ack_modes = "none" ∷ "brief" ∷ "debug" ∷ []

abbrev pub valid_gate_modes : List String
valid_gate_modes = "serial" ∷ "parallel" ∷ []

abbrev pub debounce_message : String
debounce_message = "invalid debounce seconds. use 0-300."

-- an unknown delivery policy is read as the default
unfoldable pub normalized_policy : String → String
normalized_policy policy = if elem policy valid_policies then policy else "agent_queue"

-- `try: ... except (TypeError, ValueError)` around the number
unfoldable pub read_debounce : Except ℤ → Except ℤ
read_debounce (ok n) = ok n
read_debounce (raise e) =
    if is_type_or_value_error e then raise (listen_validation debounce_message) else raise e

-- a direct listener has no acknowledgements and no debounce
unfoldable pub effective_ack : String → String → String
effective_ack policy ack = if policy == "direct" then "none" else ack

unfoldable pub effective_debounce : String → ℤ → ℤ
effective_debounce policy n = if policy == "direct" then pos 0 else n

-- `n < 0 or n > 300`
unfoldable pub is_out_of_range : ℤ → Bool
is_out_of_range n = ltb_ℤ n (pos 0) || ltb_ℤ (pos 300) n

module _ ⦃py : Runtime⦄ where
  -- `_workflow_policy_from_request`
  unfoldable pub workflow_policy_from_request : ListenArguments → String → WorkflowPolicy
  workflow_policy_from_request args gate_mode = elim args.workflow_policy [
    | as_object p ↦ p
    | as_mapping m ↦ workflow_policy_from_mapping m
    | not_given ↦ workflow_policy_from_mapping (
        field "gate_order" (arr (texts args.gate_order)) (
          field "gate_mode" (text gate_mode) (
            field "stale_on_artifact_change" (arr (texts args.stale_on_artifact_change))
              (field "candidate_required" (arr (texts args.candidate_required)) end))))
  ]

  unfoldable pub continuation_of : Given ContinuationPolicy → Except ContinuationPolicy
  continuation_of (as_object p) = ok p
  continuation_of (as_mapping m) = continuation_from_mapping m
  continuation_of not_given = continuation_from_mapping end

  unfoldable pub lifecycle_of : Given LifecyclePolicy → LifecyclePolicy
  lifecycle_of (as_object p) = p
  lifecycle_of (as_mapping m) = lifecycle_from_mapping (obj m)
  lifecycle_of not_given = lifecycle_from_mapping (obj end)

  -- the request, once its checks are passed
  unfoldable pub request_of :
      ListenArguments → String → String → ℤ → String → ContinuationPolicy → ListenRequest
  request_of args policy ack debounce gate_mode continuation = record {
    producer_id = args.producer_id;
    allowed_event_types = args.allowed_event_types;
    label = args.label;
    policy = policy;
    ack_mode = effective_ack policy ack;
    debounce_seconds = effective_debounce policy debounce;
    owner_user_id = args.owner_user_id;
    gate_order = args.gate_order;
    gate_mode = gate_mode;
    stale_on_artifact_change = args.stale_on_artifact_change;
    candidate_required = args.candidate_required;
    workflow_policy = workflow_policy_from_request args gate_mode;
    continuation_policy = continuation;
    lifecycle_policy = lifecycle_of args.lifecycle_policy;
    ingress_digest_policy = mapping args.ingress_digest_policy;
  }

  -- `normalize_listen_request`
  unfoldable pub normalize_listen_request : ListenArguments → Except ListenRequest
  normalize_listen_request args =
      let policy = normalized_policy args.policy in
      let ack = or_text args.ack_mode "none" in
      let gate_mode = py.lower (or_text args.gate_mode "serial") in
      do
        raise_if (not (elem ack valid_ack_modes))
            (listen_validation "invalid ack mode. use one of: none, brief, debug.")
        debounce ← read_debounce (to_int (or_value args.debounce_seconds (int (pos 0))))
        raise_if (is_out_of_range debounce) (listen_validation debounce_message)
        raise_if (not (elem gate_mode valid_gate_modes))
            (listen_validation "invalid gate mode. use one of: serial, parallel.")
        continuation ← continuation_of args.continuation_policy
        ok (request_of args policy ack debounce gate_mode continuation)
