-- ===== src/Adapter/Seen.antt =====
-- An event that has a mark is not dispatched again.
use hermes_plugin_async_thre.Prelude.{Bool-cases, List, String, inl, inr, refl, true, ℕ, ◌==◌, ◌≡◌}
use hermes_plugin_async_thre.Adapter.Authentic.{IsAuthentic, handle_event-authentic}
use hermes_plugin_async_thre.Adapter.Buckets.{pending_contains}
use hermes_plugin_async_thre.Adapter.Receive.{
  authenticated, handle_event, log, refuses_type, seen_before,
}
use hermes_plugin_async_thre.Adapter.State.{Config, Gateway, Receiver, Request, with_db}
use hermes_plugin_async_thre.Python.Json.{Fields}
use hermes_plugin_async_thre.Python.Runtime.{Runtime}
use hermes_plugin_async_thre.Registry.EventLog.{log_event}
use hermes_plugin_async_thre.Registry.Rows.{EventLogRow, Handle}
use hermes_plugin_async_thre.Registry.Seen.{has_seen}
use hermes_plugin_async_thre.Registry.SeenLaws.{mark_seen-again}
use hermes_plugin_async_thre.Security.{EnvelopeFields}

-- two states that differ at most in the event log
unfoldable pub LogOnly : Receiver → Receiver → Type 0
LogOnly before after =
    (rows : List EventLogRow) × (n : ℕ) × (after
      ≡ with_db (record before.db { event_log = rows; next_log_id = n }) before)

pub same-LogOnly : (st : Receiver) → LogOnly st st
unfolding LogOnly
same-LogOnly st = (st.db.event_log, st.db.next_log_id, refl)

module _ ⦃py : Runtime⦄ (cfg : Config) (g : Gateway) where
  pub log-LogOnly :
      (fields : EnvelopeFields) (outcome : String) (detail : Fields) (st : Receiver)
      → LogOnly st (log cfg g fields outcome detail st)
  unfolding log_event LogOnly
  log-LogOnly fields outcome detail st = (_, _, refl)

  seen_before-LogOnly :
      (h : Handle) (fields : EnvelopeFields) (st : Receiver)
      → LogOnly st (seen_before cfg g h fields st).1
  unfolding seen_before
  seen_before-LogOnly h fields st =
      elim (Bool-cases (pending_contains fields.thread_key fields.producer_id fields.event_id st)) [
        | inl e ↦ rw (seen_before, e) (same-LogOnly st)
        | inr e ↦ rw (seen_before, e) (log-LogOnly fields "duplicate" _ st)
      ]

  pub authenticated-LogOnly :
      (h : Handle) (d : Fields) (fields : EnvelopeFields) (st : Receiver)
      → has_seen fields.producer_id fields.event_id st.db ≡ true
      → LogOnly st (authenticated cfg g h d fields st).1
  unfolding authenticated seen_before
  authenticated-LogOnly h d fields st seen = elim (Bool-cases h.enabled) [
    | inr e ↦ simp (authenticated, e) (rw seen (log-LogOnly fields "duplicate" _ st))
    | inl e ↦ elim (Bool-cases (h.producer_id == fields.producer_id)) [
      | inr p ↦ simp (authenticated, e) (rw p (log-LogOnly fields "rejected_producer_scope" _ st))
      | inl p ↦ elim (Bool-cases (refuses_type h fields)) [
        | inl t ↦
            simp (authenticated, e) (rw p (rw t (log-LogOnly fields "rejected_event_type" _ st)))
        | inr t ↦
            simp (authenticated, e)
              (rw p (
                rw t (
                  rw
                    (mark_seen-again fields.producer_id fields.event_id fields.thread_key g.utc_now
                      st.db seen)
                    (seen_before-LogOnly h fields st))))
      ]
    ]
  ]

  -- Handling an authentic request whose event has a mark changes nothing but the event log: it is
  -- not dispatched, stored or queued again, whatever the listener's state.
  pub seen_event_is_only_logged :
      (request : Request) (st : Receiver) (a : IsAuthentic cfg g request st)
      → has_seen a.fields.producer_id a.fields.event_id st.db ≡ true
      → LogOnly st (handle_event cfg g request st).1
  seen_event_is_only_logged request st a seen =
      rw (handle_event-authentic cfg g request st a)
        (authenticated-LogOnly a.handle a.body a.fields st seen)
