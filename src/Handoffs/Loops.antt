-- ===== src/Handoffs/Loops.antt =====
-- The recipe for Dynamic Workflows.
use hermes_plugin_async_thre.Prelude.{
  String, [], elem, false, if◌then◌else◌, is_empty, keep, not, true, ◌++◌, ◌∷◌,
}
use hermes_plugin_async_thre.Handoffs.LoopEvents.{examples}
use hermes_plugin_async_thre.Handoffs.Texts.{loop_event_types, optional_event_types, secret_part}
use hermes_plugin_async_thre.Python.Json.{Fields, arr, bool, dict, obj, put, text, texts}
use hermes_plugin_async_thre.Registry.Rows.{Handle}

unfoldable pub listener_compatibility : Handle → Fields
listener_compatibility h =
    let missing =
      if is_empty h.allowed_event_types
      then []
      else keep (λ t. not (elem t h.allowed_event_types)) loop_event_types in
    let result = dict (
      ("requiredEventTypes", arr (texts loop_event_types))
      ∷ ("allowedEventTypes", arr (texts h.allowed_event_types))
      ∷ ("missingRequiredEventTypes", arr (texts missing))
      ∷ ("canEmitExamples", bool (is_empty missing))
      ∷ []) in
    if is_empty missing
    then result
    else put "warning"
        (text
          "listener allowlist is missing Dynamic Workflows loop event types; emitted examples with those eventType values will be rejected until the listener is recreated or reused with the recommended allowlist")
        result

-- `_dynamic_workflows_recipe`
unfoldable pub dynamic_workflows_recipe : Handle → String → Fields → String → Fields
dynamic_workflows_recipe h event_url secret_ref now = dict (
    (
      "useWhen",
      text
          "Dynamic Workflows needs to emit signed ATH loop lifecycle events for a mapped conversation",
    )
    ∷ ("endpoint", text event_url)
    ∷ (
      "env",
      obj (
          dict (
            ("ATH_SECRET_FILE", secret_part "secretFile" secret_ref)
            ∷ ("ATH_CONTRACT_FILE", secret_part "contractFile" secret_ref)
            ∷ ("ATH_THREAD_KEY", text h.thread_key)
            ∷ ("ATH_PRODUCER_ID", text h.producer_id)
            ∷ [])),
    )
    ∷ (
      "recommendedListener",
      obj (
          dict (
            ("producer_hint", text h.producer_id)
            ∷ ("event_types", arr (texts (loop_event_types ++ optional_event_types)))
            ∷ ("terminal_event_types", arr (texts ("loop.converged" ∷ "loop.halted" ∷ [])))
            ∷ ("auto_retire_on_terminal", bool false)
            ∷ ("shared_listener", bool true)
            ∷ [])),
    )
    ∷ ("listenerCompatibility", obj (listener_compatibility h))
    ∷ (
      "sequence",
      arr (
          texts (
            "loop.started" ∷ "loop.waiting_for_event" ∷ "external signal wakes controller"
            ∷ "loop.step_completed" ∷ "loop.converged or loop.halted" ∷ [])),
    )
    ∷ (
      "controllerBoundary",
      text
          "Dynamic Workflows decides loop state transitions; ATH only authenticates, de-dupes, wakes, replies, renders, and records events.",
    )
    ∷ (
      "timestampHandling",
      text
          "Set occurredAt to the current UTC emission time immediately before signing; events outside the replay window are rejected.",
    )
    ∷ (
      "waitingWithoutPolling",
      text
          "Emit loop.waiting_for_event with nextExpectedSignal/deadline; let external signed producers or bounded timeout signals wake the controller instead of cron spam.",
    )
    ∷ (
      "secretHandling",
      text
          "Read ATH_SECRET_FILE locally or from a secret manager; ordinary handoff output never includes the raw HMAC secret.",
    )
    ∷ ("examples", arr (examples h now))
    ∷ [])
