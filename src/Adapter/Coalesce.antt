-- ===== src/Adapter/Coalesce.antt =====
-- Routine events are collected in a bucket for each listener, which a timer or an event of priority
-- flushes as one digest.
use hermes_plugin_async_thre.Prelude.{List, Option, String, [], max_ℤ, none, pos, some, ◌++◌, ◌∷◌}
use hermes_plugin_async_thre.Adapter.Ack.{note}
use hermes_plugin_async_thre.Adapter.Buckets.{
  count_of, give_back, last_pending, pop_coalesced, reschedule,
}
use hermes_plugin_async_thre.Adapter.Digest.{coalesced_data, coalesced_fields}
use hermes_plugin_async_thre.Adapter.Dispatch.{dispatch_event}
use hermes_plugin_async_thre.Adapter.State.{
  Config, Dispatched, Gateway, Pending, Receiver, assign, delivered, failed, outcome_text, with_db,
}
use hermes_plugin_async_thre.IngressDigest.Policy.{IngressDigestPolicy}
use hermes_plugin_async_thre.IngressDigest.Resolve.{resolve_ingress_digest_policy}
use hermes_plugin_async_thre.Python.Except.{Except, ok, raise, ◌>>=◌}
use hermes_plugin_async_thre.Python.Json.{Fields, end, int, null, obj, put}
use hermes_plugin_async_thre.Python.Runtime.{Runtime}
use hermes_plugin_async_thre.Registry.Bindings.{find_source_binding_for_event}
use hermes_plugin_async_thre.Registry.EventLog.{log_event}
use hermes_plugin_async_thre.Registry.Payloads.{store_event_payload}
use hermes_plugin_async_thre.Registry.Rows.{Db, Handle, PayloadRow, SourceBinding}
use hermes_plugin_async_thre.Registry.Workflows.{update_workflow_state_from_event}
use hermes_plugin_async_thre.Security.{EnvelopeFields}

module _ ⦃py : Runtime⦄ where
  -- `_record_workflow_state`. (What SQLite may raise there is not modelled.)
  unfoldable pub record_workflow_state :
      Handle → Fields → EnvelopeFields → String → Fields → Db → Fields × Db
  record_workflow_state h d fields now detail db =
      let updated = update_workflow_state_from_event h d fields now db in
      (
        elim updated.0 [
          | none ↦ detail
          | some state ↦
              note "workflow_stage" state.stage (note "workflow_id" state.workflow_id detail)
        ],
        updated.1,
      )

  module _ (cfg : Config) (g : Gateway) where
    -- the binding that is given, or the one that queued the event
    unfoldable pub binding_of_event :
        Handle → EnvelopeFields → Option SourceBinding → Db → Option SourceBinding
    binding_of_event h fields (some b) db = some b
    binding_of_event h fields none db =
        find_source_binding_for_event h.thread_key fields.producer_id fields.event_id db

    unfoldable pub ingress_policy : Handle → Option SourceBinding → Except IngressDigestPolicy
    ingress_policy h binding =
        resolve_ingress_digest_policy cfg.ingress_digest (obj h.ingress_digest_policy)
          (elim binding [ none ↦ null | some b ↦ obj b.ingress_digest_policy ])

    unfoldable pub store_payload :
        Handle
        → Fields
        → EnvelopeFields
        → Option SourceBinding
        → IngressDigestPolicy
        → Db
        → Option PayloadRow × Db
    store_payload h d fields binding policy db =
        store_event_payload h d fields policy (elim binding [ none ↦ "" | some b ↦ b.binding_id ])
          (g.utc_after (max_ℤ (pos 60) policy.retention_seconds)) g.utc_now db

    -- `_resolve_ingress_payload`: the policy, the stored payload, and the registry afterwards
    unfoldable pub resolve_ingress_payload :
        Handle
        → Fields
        → EnvelopeFields
        → Option SourceBinding
        → Db
        → Except (Option SourceBinding × IngressDigestPolicy × Option PayloadRow × Db)
    resolve_ingress_payload h d fields known db =
        let binding = binding_of_event h fields known db in
        do
          policy ← ingress_policy h binding
          let stored = store_payload h d fields binding policy db
          ok (binding, policy, stored.0, stored.1)

    abbrev pub coalesced_notes : List Pending → String → Fields → Fields
    coalesced_notes bucket reason detail =
        note "coalesced_reason" reason (put "coalesced_count" (count_of bucket) detail)

    -- `_queue_coalesced_event`
    unfoldable pub queue_coalesced :
        Handle → Fields → EnvelopeFields → Option SourceBinding → Receiver → Fields × Receiver
    queue_coalesced h d fields binding st =
        let bucket =
          st.coalesced h.thread_key
          ++ (record {
            handle = h;
            data_fields = d;
            fields = fields;
            source_binding = binding;
            attempts = 0;
          })
            ∷ [] in
        let detail =
          put "debounce_seconds" (int (pos h.debounce_seconds))
            (coalesced_notes bucket "debounce_window" end) in
        let recorded = record_workflow_state h d fields g.utc_now detail st.db in
        (
          recorded.0,
          record st {
            db = recorded.1;
            coalesced = assign h.thread_key bucket st.coalesced;
            timers = elim (st.timers h.thread_key) [
              | some delay ↦ st.timers
              | none ↦ assign h.thread_key (some h.debounce_seconds) st.timers
            ];
          },
        )

    -- what follows on a dispatch of a bucket
    unfoldable pub settle_flush :
        String → List Pending → String → EnvelopeFields → Dispatched → Receiver → Receiver
    settle_flush key bucket reason fields (delivered outcome detail) st =
        with_db
          (log_event fields (outcome_text outcome) (coalesced_notes bucket reason detail) g.utc_now
            st.db)
          st
    settle_flush key bucket reason fields (failed e) st =
        let detail =
          note "exception_message" e.message
            (note "exception_class" e.exception_class (coalesced_notes bucket reason e.detail)) in
        let logged = with_db (log_event fields "dispatch_failed" detail g.utc_now st.db) st in
        give_back key bucket logged

    -- `_flush_coalesced` of a bucket that is not empty. Where the policy does not resolve, the
    -- exception leaves the bucket in flight.
    unfoldable pub flush_bucket :
        String → String → Pending → List Pending → Receiver → Except (Unit {0}) × Receiver
    flush_bucket key reason p ps st =
        let bucket = p ∷ ps in
        let latest = last_pending p ps in
        let popped = pop_coalesced key st in
        let st1 = record popped { inflight = assign key bucket popped.inflight } in
        let d = coalesced_data latest.fields.thread_key bucket reason in
        let fields = coalesced_fields latest.fields bucket in
        elim (resolve_ingress_payload latest.handle d fields latest.source_binding st1.db) [
          | raise e ↦ (raise e, st1)
          | ok (binding, policy, payload, db) ↦
              let result = dispatch_event g latest.handle d fields policy payload st1.deliveries in
              let st2 = record st1 { db = db; deliveries = result.1 } in
              let st3 = settle_flush key bucket reason fields result.0 st2 in
              (ok tt, record st3 { inflight = assign key [] st3.inflight })
        ]

    -- `_flush_coalesced`
    unfoldable pub flush_coalesced : String → String → Receiver → Except (Unit {0}) × Receiver
    flush_coalesced key reason st = elim (st.inflight key) [
      | q ∷ qs ↦ (ok tt, reschedule key st)
      | [] ↦ elim (st.coalesced key) [
        | [] ↦ (ok tt, pop_coalesced key st)
        | p ∷ ps ↦ flush_bucket key reason p ps st
      ]
    ]

    -- `_flush_coalesced_after`, at the end of its delay: the timer is now the running task, and an
    -- exception is only logged
    unfoldable pub timer_fires : String → Receiver → Receiver
    timer_fires key st = elim (st.timers key) [
      | none ↦ st
      | some delay ↦
          (flush_coalesced key "debounce_elapsed"
            (record st { timers = assign key none st.timers })).1
    ]
