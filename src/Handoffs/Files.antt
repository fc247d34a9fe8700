-- ===== src/Handoffs/Files.antt =====
-- The files of a handoff: the configuration of the emitter, its script, and a workflow step.
use Prim.Native.Char.{code}
use hermes_plugin_async_thre.Prelude.{String, [], false, if◌then◌else◌, nat_eq, ◌<>◌, ◌==◌, ◌∷◌}
use hermes_plugin_async_thre.Handoffs.Modes.{HandoffArguments, handoff_version}
use hermes_plugin_async_thre.Handoffs.Texts.{
  emitter_script, github_actions_step, lifecycle_guidance, retry_guidance, secret_part,
}
use hermes_plugin_async_thre.Python.Json.{Fields, arr, bool, dict, obj, put, text, texts}
use hermes_plugin_async_thre.Python.Runtime.{Runtime}
use hermes_plugin_async_thre.Registry.Rows.{Handle}
use hermes_plugin_async_thre.Secrets.Artifact.{path_of, safe_path_token}
use hermes_plugin_async_thre.Secrets.Files.{FileStore, make_directory, write_text}

-- `_shell_quote`
unfoldable pub quote_chars : String → String
quote_chars String.[] = ""
quote_chars (String.◌∷◌ c s) =
    (if nat_eq (code c) b'\'' then "'\\''" else String.◌∷◌ c "") <> quote_chars s

unfoldable pub shell_quote : String → String
shell_quote value = "'" <> (quote_chars value <> "'")

module _ ⦃py : Runtime⦄ where
  module _ (h : Handle) (args : HandoffArguments) where
    -- the configuration file of the emitter
    unfoldable pub config_of : String → String → Fields → Fields
    config_of mode event_type secret_ref = dict (
        ("version", text handoff_version)
        ∷ ("mode", text mode)
        ∷ ("helperModule", text "async_threads.emitter")
        ∷ ("helperPythonPath", text args.helper_path)
        ∷ ("url", text args.event_url)
        ∷ ("threadKey", text h.thread_key)
        ∷ ("producerId", text h.producer_id)
        ∷ ("allowedEventTypes", arr (texts h.allowed_event_types))
        ∷ ("defaultEventType", text event_type)
        ∷ ("secretFile", secret_part "secretFile" secret_ref)
        ∷ ("contractFile", secret_part "contractFile" secret_ref)
        ∷ ("retryDeduping", obj retry_guidance)
        ∷ ("lifecycle", obj (lifecycle_guidance h))
        ∷ [])

    -- `write_handoff_files`
    unfoldable pub write_handoff_files : String → String → Fields → FileStore → Fields × FileStore
    write_handoff_files mode event_type secret_ref fs =
        let directory = safe_path_token h.thread_key in
        let config_file = path_of args.handoff_root directory "producer_handoff.json" in
        let script_file = path_of args.handoff_root directory "emit_async_thread_event.py" in
        let written = write_text directory "emit_async_thread_event.py" emitter_script (
          write_text directory "producer_handoff.json"
            (py.json_dumps_indented (obj (config_of mode event_type secret_ref)) <> "\n")
            (make_directory directory fs)) in
        let result = dict (
          ("directory", text (args.handoff_root <> ("/" <> directory)))
          ∷ ("configFile", text config_file)
          ∷ ("emitterScript", text script_file)
          ∷ ("permissions", text "0600")
          ∷ ("containsRawSecret", bool false)
          ∷ (
            "run",
            text (
                "ATH_HANDOFF_CONFIG="
                <> (shell_quote config_file <> (" python3 " <> shell_quote script_file))),
          )
          ∷ []) in
        if mode == "github_actions"
        then (
          put "githubActionsStep"
              (text (path_of args.handoff_root directory "github_actions_step.yml")) result,
          write_text directory "github_actions_step.yml"
              (github_actions_step h args.event_url event_type) written,
        )
        else (result, written)
