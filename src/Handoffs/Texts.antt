-- ===== src/Handoffs/Texts.antt =====
-- The texts and recipes of a handoff, which async_threads/handoffs.py writes for producers.
use hermes_plugin_async_thre.Prelude.{List, String, [], false, pos, true, ◌<>◌, ◌∷◌}
use hermes_plugin_async_thre.Python.Json.{
  Fields, Json, arr, bool, dict, get_or, int, obj, text, texts,
}
use hermes_plugin_async_thre.Python.Runtime.{Runtime}
use hermes_plugin_async_thre.Registry.Rows.{Handle}

abbrev pub loop_event_types : List String
loop_event_types =
    "loop.started" ∷ "loop.waiting_for_event" ∷ "loop.step_completed" ∷ "loop.converged"
    ∷ "loop.halted" ∷ []

abbrev pub optional_event_types : List String
optional_event_types = "loop.waiting_for_approval" ∷ "loop.stalled" ∷ []

-- `secret_ref.get(key, "")`
abbrev pub secret_part : String → Fields → Json
secret_part key secret_ref = get_or key (text "") secret_ref

-- `_retry_guidance`
abbrev pub retry_guidance : Fields
retry_guidance = dict (
    ("stableEventIdRequired", bool true)
    ∷ ("reuseEventIdOnRetry", bool true)
    ∷ ("newEventIdOnlyForNewRealWorldEvent", bool true)
    ∷ ("timestampMustBeFresh", bool true)
    ∷ ("defaultReplayWindowSeconds", int (pos 300))
    ∷ ("duplicateResponseMeansAlreadyAccepted", bool true)
    ∷ ("retryTransportErrorsAnd502WithSameEventId", bool true)
    ∷ [])

-- `_generic_contract_recipe`
abbrev pub generic_contract_recipe : Fields
generic_contract_recipe = dict (
    ("useWhen", text "another system will implement its own emitter")
    ∷ (
      "steps",
      arr (
          texts (
            "Read endpoint URL, threadKey, producerId, allowedEventTypes, and ATH_SECRET_FILE from this handoff."
            ∷ "Build the JSON body once and sign those exact UTF-8 bytes."
            ∷ "Reuse the same eventId when retrying the same upstream event."
            ∷ "Keep payload compact and treat all producer fields as untrusted data." ∷ [])),
    )
    ∷ [])

-- `_local_script_recipe`
unfoldable pub local_script_recipe : Fields → Fields
local_script_recipe secret_ref = dict (
    ("useWhen", text "a local shell/script should report started/finished/failed events")
    ∷ (
      "env",
      obj (
          dict (
            ("ATH_SECRET_FILE", secret_part "secretFile" secret_ref)
            ∷ ("ATH_HANDOFF_CONFIG", text "<producer_handoff.json>")
            ∷ [])),
    )
    ∷ ("secretHandling", text "read ATH_SECRET_FILE locally; never print it")
    ∷ [])

-- `_contract_summary`
unfoldable pub contract_summary : Handle → String → String → Fields → Fields
contract_summary h event_url event_type secret_ref = dict (
    ("version", text "async-thread-event/v1")
    ∷ ("url", text event_url)
    ∷ ("threadKey", text h.thread_key)
    ∷ ("producerId", text h.producer_id)
    ∷ ("allowedEventTypes", arr (texts h.allowed_event_types))
    ∷ ("defaultEventType", text event_type)
    ∷ ("secretFile", secret_part "secretFile" secret_ref)
    ∷ ("contractFile", secret_part "contractFile" secret_ref)
    ∷ (
      "signature",
      text "HMAC-SHA256 over exact UTF-8 JSON bytes using exact ATH_SECRET_FILE contents",
    )
    ∷ ("helperModule", text "async_threads.emitter")
    ∷ (
      "headers",
      obj (
          dict (
            ("Content-Type", text "application/json")
            ∷ ("X-Hermes-Signature-256", text "sha256=<hex>")
            ∷ [])),
    )
    ∷ [])

-- `_github_actions_recipe`
unfoldable pub github_actions_recipe : Handle → String → String → Fields → Fields
github_actions_recipe h event_url event_type secret_ref = dict (
    ("useWhen", text "a GitHub Actions workflow should emit completion events")
    ∷ ("requiredSecrets", arr (texts ("ATH_SECRET" ∷ [])))
    ∷ (
      "requiredEnv",
      obj (
          dict (
            ("ATH_URL", text event_url)
            ∷ ("ATH_THREAD_KEY", text h.thread_key)
            ∷ ("ATH_PRODUCER_ID", text h.producer_id)
            ∷ ("ATH_EVENT_TYPE", text event_type)
            ∷ [])),
    )
    ∷ ("localSecretFile", secret_part "secretFile" secret_ref)
    ∷ (
      "note",
      text
          "Copy the secret file contents into the repository/environment secret manager; do not paste it into workflow logs or issue comments.",
    )
    ∷ [])

-- `_minimal_event`
unfoldable pub minimal_event : Handle → String → String → Fields
minimal_event h now event_type = dict (
    ("version", text "async-thread-event/v1")
    ∷ ("eventId", text (h.producer_id <> "-example-001"))
    ∷ ("eventType", text event_type)
    ∷ ("producer", obj (dict (("id", text h.producer_id) ∷ [])))
    ∷ ("occurredAt", text now)
    ∷ ("asyncThread", obj (dict (("threadKey", text h.thread_key) ∷ [])))
    ∷ ("summary", text (event_type <> " completed"))
    ∷ ("tailMode", text "compact")
    ∷ ("payload", obj (dict (("status", text "passed") ∷ [])))
    ∷ [])

-- `_lifecycle_guidance`
unfoldable pub lifecycle_guidance : Handle → Fields
lifecycle_guidance h = dict (
    ("terminalEventTypes", arr (texts h.lifecycle_policy.terminal_event_types))
    ∷ ("terminalStages", arr (texts h.lifecycle_policy.terminal_stages))
    ∷ ("autoRetireOnTerminal", bool h.lifecycle_policy.auto_retire_on_terminal)
    ∷ ("sharedListener", bool h.lifecycle_policy.shared_listener)
    ∷ (
      "producerSelfExit",
      text
          "after emitting a terminal event, stop the producer/supervisor loop instead of polling forever",
    )
    ∷ ("rotateSecret", text "refresh producer config from the listener's secretFile after rotation")
    ∷ (
      "retire",
      text
          "retire or revoke temporary listeners when the workflow is merged, abandoned, or no longer needs wakeups; single-goal listeners can opt into auto-retire on terminal events",
    )
    ∷ ("trace", text "use ath_trace_event or /ath trace <eventId> for delivery/de-dupe diagnostics")
    ∷ [])

-- `_github_actions_step`
unfoldable pub github_actions_step : Handle → String → String → String
github_actions_step h event_url event_type =
    "- name: Emit async-thread event\n  env:\n    ATH_URL: "
    <> (event_url
        <> "\n    ATH_THREAD_KEY: "
        <> (h.thread_key
            <> "\n    ATH_PRODUCER_ID: "
            <> (h.producer_id
                <> "\n    ATH_EVENT_TYPE: "
                <> (event_type
                    <> "\n    ATH_SECRET: ${{ secrets.ATH_SECRET }}\n  shell: python\n  run: |\n    import hashlib, hmac, json, os, time, urllib.request\n    body = {\n      \"version\": \"async-thread-event/v1\",\n      \"eventId\": os.environ.get(\"GITHUB_RUN_ID\", \"manual\") + \"-\" + os.environ.get(\"ATH_EVENT_TYPE\", \"event\"),\n      \"eventType\": os.environ[\"ATH_EVENT_TYPE\"],\n      \"producer\": {\"id\": os.environ[\"ATH_PRODUCER_ID\"]},\n      \"occurredAt\": time.strftime(\"%Y-%m-%dT%H:%M:%SZ\", time.gmtime()),\n      \"asyncThread\": {\"threadKey\": os.environ[\"ATH_THREAD_KEY\"]},\n      \"summary\": \"GitHub Actions event finished\",\n      \"tailMode\": \"compact\",\n      \"payload\": {\"status\": \"passed\", \"run_id\": os.environ.get(\"GITHUB_RUN_ID\", \"\")},\n    }\n    raw = json.dumps(body, sort_keys=True, separators=(\",\", \":\")).encode(\"utf-8\")\n    sig = hmac.new(os.environ[\"ATH_SECRET\"].encode(\"utf-8\"), raw, hashlib.sha256).hexdigest()\n    req = urllib.request.Request(os.environ[\"ATH_URL\"], data=raw, method=\"POST\", headers={\"Content-Type\":\"application/json\",\"X-Hermes-Signature-256\":\"sha256=\"+sig})\n    with urllib.request.urlopen(req, timeout=20) as res:\n      print(res.status, res.read().decode(\"utf-8\", \"replace\"))\n"))))

-- `_emitter_script`
abbrev pub emitter_script : String
emitter_script =
    "#!/usr/bin/env python3\nfrom __future__ import annotations\n\nimport json\nimport os\nimport sys\nimport time\n\nconfig_path = os.environ.get(\"ATH_HANDOFF_CONFIG\")\nif not config_path:\n    raise SystemExit(\"ATH_HANDOFF_CONFIG is required\")\nwith open(config_path, \"r\", encoding=\"utf-8\") as fh:\n    config = json.load(fh)\nhelper_python_path = config.get(\"helperPythonPath\")\nif helper_python_path and helper_python_path not in sys.path:\n    sys.path.insert(0, helper_python_path)\nfrom async_threads.emitter import build_event_envelope, emit_event, exit_code_for_result\n\nsecret_file = os.environ.get(\"ATH_SECRET_FILE\") or config[\"secretFile\"]\n\nevent_type = os.environ.get(\"ATH_EVENT_TYPE\") or config[\"defaultEventType\"]\nevent = build_event_envelope(\n    thread_key=config[\"threadKey\"],\n    producer_id=config[\"producerId\"],\n    event_id=os.environ.get(\"ATH_EVENT_ID\") or f\"{config['producerId']}-{event_type}-{int(time.time())}\",\n    event_type=event_type,\n    occurred_at=time.strftime(\"%Y-%m-%dT%H:%M:%SZ\", time.gmtime()),\n    summary=os.environ.get(\"ATH_SUMMARY\") or f\"{event_type} finished\",\n    tail_mode=os.environ.get(\"ATH_TAIL_MODE\", \"compact\"),\n    payload={\"status\": os.environ.get(\"ATH_STATUS\") or \"passed\"},\n)\nresult = emit_event(\n    os.environ.get(\"ATH_URL\") or config[\"url\"],\n    event,\n    secret_file=secret_file,\n    timeout=float(os.environ.get(\"ATH_TIMEOUT\", \"20\")),\n    dry_run=os.environ.get(\"ATH_DRY_RUN\", \"\").lower() in {\"1\", \"true\", \"yes\"} or os.environ.get(\"ATH_VALIDATE_ONLY\", \"\").lower() in {\"1\", \"true\", \"yes\"},\n)\npublic = result.to_public_dict() if hasattr(result, \"to_public_dict\") else result\nprint(json.dumps(public, sort_keys=True))\nraise SystemExit(exit_code_for_result(result))\n"

module _ ⦃py : Runtime⦄ where
  -- `_debug_curl_command`; `secret_expr` is the Python expression for the secret
  unfoldable pub debug_curl_command : Handle → String → String → String → String
  debug_curl_command h event_url event_type secret_expr =
      "python3 - <<'PY'\nimport hashlib, hmac, json, os, time, urllib.request\nurl = "
      <> (py.repr (text (event_url))
          <> "\nsecret = "
          <> (secret_expr
              <> "\nbody_obj = {\n    'version': 'async-thread-event/v1',\n    'eventId': os.environ.get('ATH_EVENT_ID', 'debug-' + str(int(time.time() * 1000))),\n    'eventType': "
              <> (py.repr (text (event_type))
                  <> ",\n    'producer': {'id': "
                  <> (py.repr (text (h.producer_id))
                      <> "},\n    'occurredAt': time.strftime('%Y-%m-%dT%H:%M:%SZ', time.gmtime()),\n    'asyncThread': {'threadKey': "
                      <> (py.repr (text (h.thread_key))
                          <> "},\n    'summary': "
                          <> (py.repr (text (event_type <> " debug event"))
                              <> ",\n    'tailMode': 'compact',\n    'payload': {'status': 'debug'},\n}\nbody = json.dumps(body_obj, sort_keys=True, separators=(',', ':')).encode('utf-8')\nsig = hmac.new(secret.encode('utf-8'), body, hashlib.sha256).hexdigest()\nreq = urllib.request.Request(url, data=body, method='POST', headers={'Content-Type':'application/json','X-Hermes-Signature-256':'sha256='+sig})\nwith urllib.request.urlopen(req, timeout=20) as res:\n    print(res.status, res.read().decode('utf-8', 'replace'))\nPY"))))))

  -- `_debug_curl`
  unfoldable pub debug_curl : Handle → String → String → Fields → Fields
  debug_curl h event_url event_type secret_ref = dict (
      (
        "safeCommand",
        text (
            debug_curl_command h event_url event_type
              "open(os.environ[\"ATH_SECRET_FILE\"], \"r\", encoding=\"utf-8\").read()"),
      )
      ∷ ("env", obj (dict (("ATH_SECRET_FILE", secret_part "secretFile" secret_ref) ∷ [])))
      ∷ ("containsRawSecret", bool false)
      ∷ [])
