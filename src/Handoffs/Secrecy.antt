-- ===== src/Handoffs/Secrecy.antt =====
-- A handoff says nothing of the listener's secret unless it is asked to.
use hermes_plugin_async_thre.Prelude.{
  Bool, Bool-cases, String, [], elem, false, inl, inr, refl, true, ◌&&◌, ◌∷◌, ◌≡◌,
}
use hermes_plugin_async_thre.Handoffs.Build.{
  build_producer_handoff, common_part, debug_part, mode_part, shows_secret,
}
use hermes_plugin_async_thre.Handoffs.Files.{config_of, write_handoff_files}
use hermes_plugin_async_thre.Handoffs.LoopEvents.{
  base, examples, loop_converged_example, loop_halted_example, loop_review_example,
  loop_started_example, loop_waiting_example,
}
use hermes_plugin_async_thre.Handoffs.Loops.{dynamic_workflows_recipe, listener_compatibility}
use hermes_plugin_async_thre.Handoffs.Modes.{
  HandoffArguments, HandoffStores, normalize_mode, select_event_type,
}
use hermes_plugin_async_thre.Handoffs.Texts.{
  contract_summary, debug_curl, debug_curl_command, github_actions_recipe, github_actions_step,
  lifecycle_guidance, minimal_event,
}
use hermes_plugin_async_thre.IngressDigest.Policy.{stores}
use hermes_plugin_async_thre.Python.Json.{Fields}
use hermes_plugin_async_thre.Python.Runtime.{Runtime}
use hermes_plugin_async_thre.Registry.Rows.{Handle}
use hermes_plugin_async_thre.Secrets.Artifact.{describe_secret_artifact, write_secret_artifact}
use hermes_plugin_async_thre.Secrets.Files.{FileStore}

-- the listener with another secret
abbrev pub with_secret : String → Handle → Handle
with_secret s h = record h { secret = s }

dynamic_workflows_recipe-hides :
    (h : Handle) (s event_url now : String) (secret_ref : Fields)
    → dynamic_workflows_recipe (with_secret s h) event_url secret_ref now
      ≡ dynamic_workflows_recipe h event_url secret_ref now
unfolding dynamic_workflows_recipe listener_compatibility examples base loop_started_example
    loop_waiting_example loop_review_example loop_converged_example loop_halted_example
dynamic_workflows_recipe-hides h s event_url now secret_ref = refl

module _ ⦃py : Runtime⦄ where
  module _ (h : Handle) (args : HandoffArguments) (s : String) where
    debug_part-hides :
        (event_type : String) (secret_ref : Fields)
        → args.include_sensitive_secret ≡ false
        → debug_part (with_secret s h) args event_type secret_ref
          ≡ debug_part h args event_type secret_ref
    unfolding debug_part debug_curl debug_curl_command
    debug_part-hides event_type secret_ref hidden = simp hidden refl

    mode_part-hides :
        (mode event_type : String) (secret_ref : Fields)
        → args.include_sensitive_secret ≡ false
        → mode_part (with_secret s h) args mode event_type secret_ref
          ≡ mode_part h args mode event_type secret_ref
    unfolding mode_part github_actions_recipe
    mode_part-hides mode event_type secret_ref hidden =
        rw
          (
            debug_part-hides event_type secret_ref hidden,
            dynamic_workflows_recipe-hides h s args.event_url args.now secret_ref,
          )
          refl

    common_part-hides :
        (mode event_type : String) (secret_ref : Fields) (raw : Bool)
        → common_part (with_secret s h) args mode event_type secret_ref raw
          ≡ common_part h args mode event_type secret_ref raw
    unfolding common_part minimal_event contract_summary lifecycle_guidance
    common_part-hides mode event_type secret_ref raw = refl

    write_handoff_files-hides :
        (mode event_type : String) (secret_ref : Fields) (fs : FileStore)
        → write_handoff_files (with_secret s h) args mode event_type secret_ref fs
          ≡ write_handoff_files h args mode event_type secret_ref fs
    unfolding write_handoff_files config_of lifecycle_guidance github_actions_step
    write_handoff_files-hides mode event_type secret_ref fs = refl

    describe_secret_artifact-hides :
        (fs : FileStore)
        → (describe_secret_artifact (with_secret s h) args.event_url args.secret_root true fs).0
          ≡ (describe_secret_artifact h args.event_url args.secret_root true fs).0
    unfolding describe_secret_artifact write_secret_artifact
    describe_secret_artifact-hides fs = refl

    select_event_type-hides :
        (requested : String)
        → select_event_type (with_secret s h) requested ≡ select_event_type h requested
    unfolding select_event_type
    select_event_type-hides requested = refl

  -- Two listeners that differ only in their secret get the same handoff and the same handoff files,
  -- in every mode, unless the literal secret is asked for.
  pub handoff_hides_secret :
      (h : Handle) (args : HandoffArguments) (s : String) (stores : HandoffStores)
      → args.include_sensitive_secret ≡ false
      → let other = build_producer_handoff (with_secret s h) args stores in
        let own = build_producer_handoff h args stores in
        (other.0 ≡ own.0) × (other.1.handoffs ≡ own.1.handoffs)
  unfolding build_producer_handoff
  handoff_hides_secret h args s stores hidden =
      let mode = normalize_mode args.mode in
      let event_type = select_event_type h args.event_type in
      let ref =
        (describe_secret_artifact h args.event_url args.secret_root true stores.secrets).0 in
      let same_ref = describe_secret_artifact-hides h args s stores.secrets in
      let same_type = select_event_type-hides h args s args.event_type in
      let same_mode = mode_part-hides h args s mode event_type ref hidden in
      let same_common = common_part-hides h args s mode event_type ref (shows_secret h args mode) in
      let same_files = write_handoff_files-hides h args s mode event_type ref stores.handoffs in
      elim (Bool-cases (elem mode ("local_script" ∷ "github_actions" ∷ []) && args.create_files)) [
        | inl e ↦ rw e (rw (same_ref, same_type, same_mode, same_common, same_files) (refl, refl))
        | inr e ↦ rw e (rw (same_ref, same_type, same_mode, same_common) (refl, refl))
      ]
