-- ===== src/Handoffs/Build.antt =====
-- `build_producer_handoff`: the reference to the secret, an example event, and a recipe for the mode.
use hermes_plugin_async_thre.Prelude.{
  Bool, String, [], elem, false, if◌then◌else◌, map, true, ◌&&◌, ◌==◌, ◌∷◌,
}
use hermes_plugin_async_thre.Handoffs.Files.{write_handoff_files}
use hermes_plugin_async_thre.Handoffs.Loops.{dynamic_workflows_recipe}
use hermes_plugin_async_thre.Handoffs.Modes.{
  HandoffArguments, HandoffStores, handoff_version, normalize_mode, select_event_type,
}
use hermes_plugin_async_thre.Handoffs.Texts.{
  contract_summary, debug_curl, debug_curl_command, generic_contract_recipe, github_actions_recipe,
  lifecycle_guidance, local_script_recipe, minimal_event, retry_guidance,
}
use hermes_plugin_async_thre.IngressDigest.Policy.{stores}
use hermes_plugin_async_thre.Privacy.{redact_metadata_text}
use hermes_plugin_async_thre.Python.Json.{
  Fields, arr, bool, dict, end, field, merge, obj, put, text, texts,
}
use hermes_plugin_async_thre.Python.Runtime.{Runtime}
use hermes_plugin_async_thre.Registry.Rows.{Handle}
use hermes_plugin_async_thre.Secrets.Artifact.{describe_secret_artifact}

module _ ⦃py : Runtime⦄ where
  module _ (h : Handle) (args : HandoffArguments) where
    -- the part of the result that every mode has
    unfoldable pub common_part : String → String → Fields → Bool → Fields
    common_part mode event_type secret_ref returned_raw = dict (
        ("ok", bool true)
        ∷ ("version", text handoff_version)
        ∷ ("mode", text mode)
        ∷ ("threadKey", text h.thread_key)
        ∷ ("producerId", text (redact_metadata_text h.producer_id))
        ∷ ("allowedEventTypes", arr (texts (map redact_metadata_text h.allowed_event_types)))
        ∷ ("defaultEventType", text (redact_metadata_text event_type))
        ∷ ("endpoint", obj (dict (("url", text args.event_url) ∷ ("method", text "POST") ∷ [])))
        ∷ ("secretRef", obj secret_ref)
        ∷ ("exampleEvent", obj (minimal_event h args.now event_type))
        ∷ ("contract", obj (contract_summary h args.event_url event_type secret_ref))
        ∷ ("retryDeduping", obj retry_guidance)
        ∷ ("lifecycle", obj (lifecycle_guidance h))
        ∷ (
          "safety",
          obj (
              dict (
                ("rawSecretReturned", bool returned_raw)
                ∷ ("eventPayloadsAreUntrustedData", bool true)
                ∷ ("doNotPutSecretsInEvents", bool true)
                ∷ [])),
        )
        ∷ [])

    -- `payload["debugCurl"]`
    unfoldable pub debug_part : String → Fields → Fields
    debug_part event_type secret_ref =
        let plain =
          put "requiresExplicitSensitiveOutput" (bool true)
            (put "sensitive" (bool false) (debug_curl h args.event_url event_type secret_ref)) in
        if args.include_sensitive_secret
        then merge plain (
            dict (
              ("sensitive", bool true)
              ∷ (
                "warning",
                text
                    "contains literal signing secret; do not paste into chat, logs, prompts, or issue comments",
              )
              ∷ ("rawSecret", text h.secret)
              ∷ (
                "commandWithLiteralSecret",
                text (debug_curl_command h args.event_url event_type (py.repr (text h.secret))),
              )
              ∷ []))
        else plain

    -- the entry of the mode
    unfoldable pub mode_part : String → String → Fields → Fields
    mode_part mode event_type secret_ref =
        if mode == "dynamic_workflows"
        then field "dynamicWorkflows"
            (obj (dynamic_workflows_recipe h args.event_url secret_ref args.now)) end
        else if mode == "github_actions"
        then field "githubActions"
            (obj (github_actions_recipe h args.event_url event_type secret_ref)) end
        else if mode == "local_script"
        then field "localScript" (obj (local_script_recipe secret_ref)) end
        else if mode == "debug_curl"
        then field "debugCurl" (obj (debug_part event_type secret_ref)) end
        else field "genericContract" (obj generic_contract_recipe) end

    -- whether the mode and the arguments ask for the literal secret
    abbrev pub shows_secret : String → Bool
    shows_secret mode = mode == "debug_curl" && args.include_sensitive_secret

    -- `build_producer_handoff`
    unfoldable pub build_producer_handoff : HandoffStores → Fields × HandoffStores
    build_producer_handoff stores =
        let mode = normalize_mode args.mode in
        let event_type = select_event_type h args.event_type in
        let described =
          describe_secret_artifact h args.event_url args.secret_root true stores.secrets in
        let payload =
          merge (common_part mode event_type described.0 (shows_secret mode))
            (mode_part mode event_type described.0) in
        let files = write_handoff_files h args mode event_type described.0 stores.handoffs in
        if elem mode ("local_script" ∷ "github_actions" ∷ []) && args.create_files
        then (
          put "files" (obj files.0) payload,
          record { secrets = described.1; handoffs = files.1 },
        )
        else (payload, record stores { secrets = described.1 })
