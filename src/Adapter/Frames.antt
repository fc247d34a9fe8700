-- ===== src/Adapter/Frames.antt =====
-- Which steps leave the de-dupe marks as they were.
use hermes_plugin_async_thre.Prelude.{
  Bool-cases, Option, Option-cases, String, arith, inl, inr, max_ℤ, none, pos, refl, some, true,
  ◌∙◌, ◌≡◌, ◌⊎◌,
}
use hermes_plugin_async_thre.Adapter.Coalesce.{
  binding_of_event, ingress_policy, record_workflow_state, resolve_ingress_payload, store_payload,
}
use hermes_plugin_async_thre.Adapter.Dispatch.{dispatch_event}
use hermes_plugin_async_thre.Adapter.Receive.{apply_lifecycle, dispatch_now, settle}
use hermes_plugin_async_thre.Adapter.State.{
  Config, Dispatched, Gateway, Receiver, delivered, failed, succeeds, with_db,
}
use hermes_plugin_async_thre.IngressDigest.Policy.{IngressDigestPolicy}
use hermes_plugin_async_thre.Lifecycle.{is_terminal_event}
use hermes_plugin_async_thre.Python.Except.{Exc, Except-cases, ok, raise}
use hermes_plugin_async_thre.Python.Json.{Fields}
use hermes_plugin_async_thre.Python.Runtime.{Runtime}
use hermes_plugin_async_thre.Registry.EventLog.{log_event}
use hermes_plugin_async_thre.Registry.Handles.{set_enabled}
use hermes_plugin_async_thre.Registry.Payloads.{store_event_payload}
use hermes_plugin_async_thre.Registry.Rows.{Db, Handle, PayloadRow, SourceBinding}
use hermes_plugin_async_thre.Registry.Workflows.{
  put_workflow_state, update_workflow_state_from_event,
}
use hermes_plugin_async_thre.Security.{EnvelopeFields}
use hermes_plugin_async_thre.Workflow.Event.{normalize_workflow_event}

module _ ⦃py : Runtime⦄ where
  pub store_event_payload-seen :
      (h : Handle) (d : Fields) (fields : EnvelopeFields) (policy : IngressDigestPolicy)
      (binding_id expires now : String) (db : Db)
      → (store_event_payload h d fields policy binding_id expires now db).1.seen_events
        ≡ db.seen_events
  unfolding store_event_payload
  store_event_payload-seen h d fields policy binding_id expires now db = ground arith

  pub record_workflow_state-seen :
      (h : Handle) (d : Fields) (fields : EnvelopeFields) (now : String) (detail : Fields) (db : Db)
      → (record_workflow_state h d fields now detail db).1.seen_events ≡ db.seen_events
  unfolding record_workflow_state update_workflow_state_from_event put_workflow_state
  record_workflow_state-seen h d fields now detail db =
      elim (Option-cases (normalize_workflow_event d fields)) [
        | inl e ↦ rw (record_workflow_state, update_workflow_state_from_event, e) refl
        | inr (event, e) ↦ rw (record_workflow_state, update_workflow_state_from_event, e) refl
      ]

  module _ (cfg : Config) (g : Gateway) where
    pub store_payload-seen :
        (h : Handle) (d : Fields) (fields : EnvelopeFields) (b : Option SourceBinding)
        (policy : IngressDigestPolicy) (db : Db)
        → (store_payload cfg g h d fields b policy db).1.seen_events ≡ db.seen_events
    unfolding store_payload
    store_payload-seen h d fields b policy db =
        store_event_payload-seen h d fields policy (elim b [ none ↦ "" | some x ↦ x.binding_id ])
          (g.utc_after (max_ℤ (pos 60) policy.retention_seconds)) g.utc_now db

    -- It raises, or leaves the marks as they were.
    pub resolve_ingress_payload-cases :
        (h : Handle) (d : Fields) (fields : EnvelopeFields) (known : Option SourceBinding) (db : Db)
        → ((e : Exc) × (resolve_ingress_payload cfg g h d fields known db ≡ raise e))
          ⊎ ((b : Option SourceBinding) × (p : IngressDigestPolicy) × (r : Option PayloadRow)
              × (after : Db) × (resolve_ingress_payload cfg g h d fields known db
                  ≡ ok (b, p, r, after))
              × (after.seen_events ≡ db.seen_events))
    unfolding resolve_ingress_payload
    resolve_ingress_payload-cases h d fields known db =
        elim (Except-cases (ingress_policy cfg g h (binding_of_event cfg g h fields known db))) [
          | inr (e, q) ↦ inl (e, rw (resolve_ingress_payload, q) refl)
          | inl (policy, q) ↦
              let binding = binding_of_event cfg g h fields known db in
              let stored = store_payload cfg g h d fields binding policy db in
              inr (
                binding,
                policy,
                stored.0,
                stored.1,
                rw (resolve_ingress_payload, q) refl,
                store_payload-seen h d fields binding policy db,
              )
        ]

    pub apply_lifecycle-seen :
        (h : Handle) (d : Fields) (fields : EnvelopeFields) (detail : Fields) (st : Receiver)
        → (apply_lifecycle cfg g h d fields detail st).1.db.seen_events ≡ st.db.seen_events
    unfolding apply_lifecycle set_enabled
    apply_lifecycle-seen h d fields detail st =
        elim (Bool-cases (is_terminal_event d fields.event_type h.lifecycle_policy)) [
          | inr e ↦ rw e refl
          | inl e ↦ rw e (ground arith)
        ]

    -- a single event is dispatched: a reply of success leaves the marks
    pub settle-keeps :
        (h : Handle) (d : Fields) (fields : EnvelopeFields) (o : Dispatched) (st : Receiver)
        → succeeds (settle cfg g h d fields o st).0 ≡ true
        → (settle cfg g h d fields o st).1.db.seen_events ≡ st.db.seen_events
    unfolding settle succeeds log_event
    settle-keeps h d fields (failed e) st good = cc
    settle-keeps h d fields (delivered o detail) st good =
        let recorded = record_workflow_state h d fields g.utc_now detail st.db in
        apply_lifecycle-seen h d fields recorded.0 (with_db recorded.1 st)
        ∙ record_workflow_state-seen h d fields g.utc_now detail st.db

    pub dispatch_now-keeps :
        (h : Handle) (d : Fields) (fields : EnvelopeFields) (policy : IngressDigestPolicy)
        (payload : Option PayloadRow) (st : Receiver)
        → succeeds (dispatch_now cfg g h d fields policy payload st).0 ≡ true
        → (dispatch_now cfg g h d fields policy payload st).1.db.seen_events ≡ st.db.seen_events
    unfolding dispatch_now
    dispatch_now-keeps h d fields policy payload st good =
        let out = dispatch_event g h d fields policy payload st.deliveries in
        settle-keeps h d fields out.0 (record st { deliveries = out.1 }) good
