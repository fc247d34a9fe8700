-- ===== src/Adapter/Retry.antt =====
-- What a 2xx reply tells the producer about a retry that comes next.
use package.text.Mathlib.TextPositions.{eq_refl}
use hermes_plugin_async_thre.Prelude.{
  Bool-cases, [], any, ap, arith, false, inl, inr, none, refl, true, ◌==◌, ◌∙◌, ◌≡◌,
}
use hermes_plugin_async_thre.Adapter.Authentic.{
  IsAuthentic, exception_fails, handle_event-authentic, handle_event-cases, validated-fields,
}
use hermes_plugin_async_thre.Adapter.Coalesce.{queue_coalesced, record_workflow_state}
use hermes_plugin_async_thre.Adapter.Events.{should_coalesce}
use hermes_plugin_async_thre.Adapter.Frames.{
  dispatch_now-keeps, record_workflow_state-seen, resolve_ingress_payload-cases,
}
use hermes_plugin_async_thre.Adapter.Receive.{
  accepted, authenticated, handle_event, refuses_type, validated,
}
use hermes_plugin_async_thre.Adapter.Seen.{
  LogOnly, authenticated-LogOnly, same-LogOnly, seen_event_is_only_logged,
}
use hermes_plugin_async_thre.Adapter.State.{
  Config, Gateway, Receiver, Reply, Request, succeeds, with_db,
}
use hermes_plugin_async_thre.Python.Except.{ok}
use hermes_plugin_async_thre.Python.Json.{Fields, end}
use hermes_plugin_async_thre.Python.Runtime.{Runtime}
use hermes_plugin_async_thre.Registry.EventLog.{log_event}
use hermes_plugin_async_thre.Registry.Handles.{get_handle-key}
use hermes_plugin_async_thre.Registry.Rows.{Db, Handle}
use hermes_plugin_async_thre.Registry.Seen.{has_seen, is_mark, mark_seen}
use hermes_plugin_async_thre.Registry.SeenLaws.{mark_seen-first}
use hermes_plugin_async_thre.Security.{EnvelopeFields}

module _ ⦃py : Runtime⦄ where
  module _ (cfg : Config) (g : Gateway) where
    -- a reply of success comes with the marks as they were
    KeepsMarks : Receiver → Reply × Receiver → Type 0
    KeepsMarks st x = succeeds x.0 ≡ true → x.1.db.seen_events ≡ st.db.seen_events

    accepted-KeepsMarks :
        (h : Handle) (d : Fields) (fields : EnvelopeFields) (st : Receiver)
        → st.coalesced h.thread_key ≡ []
        → KeepsMarks st (accepted cfg g h d fields st)
    unfolding KeepsMarks accepted queue_coalesced log_event record_workflow_state
    accepted-KeepsMarks h d fields st idle =
        elim (resolve_ingress_payload-cases cfg g h d fields none st.db) [
          | inl (e, q) ↦
              rw (KeepsMarks, accepted, q) (λ good. ground (arith, exception_fails e, good))
          | inr (b, p, r, after, q, same) ↦
              rw (KeepsMarks, accepted, q)
                (rw idle (elim (Bool-cases (should_coalesce h d fields)) [
                  | inl s ↦
                      rw s
                        (λ good. record_workflow_state-seen h d fields g.utc_now end after ∙ same)
                  | inr s ↦ rw s (λ good.
                      dispatch_now-keeps cfg g h d fields p r (with_db after st) good ∙ same)
                ]))
        ]

    -- a reply of success comes with a mark of the event
    HasMark : EnvelopeFields → Reply × Receiver → Type 0
    HasMark fields x =
        succeeds x.0 ≡ true → has_seen fields.producer_id fields.event_id x.1.db ≡ true

    seen-HasMark :
        (fields : EnvelopeFields) (st : Receiver) (x : Reply × Receiver)
        → has_seen fields.producer_id fields.event_id st.db ≡ true
        → LogOnly st x.1
        → HasMark fields x
    unfolding HasMark LogOnly has_seen
    seen-HasMark fields st x seen (rows, n, e) good = rw e seen

    accepted-HasMark :
        (h : Handle) (d : Fields) (fields : EnvelopeFields) (st : Receiver)
        → st.coalesced h.thread_key ≡ []
        → has_seen fields.producer_id fields.event_id st.db ≡ true
        → HasMark fields (accepted cfg g h d fields st)
    unfolding HasMark KeepsMarks has_seen
    accepted-HasMark h d fields st idle seen good =
        ap (any (is_mark fields.producer_id fields.event_id))
          (accepted-KeepsMarks h d fields st idle good)
        ∙ seen

    -- the mark that `mark_seen` makes
    pub marked-has_seen :
        (fields : EnvelopeFields) (db : Db)
        → has_seen fields.producer_id fields.event_id db ≡ false
        → has_seen fields.producer_id fields.event_id
            (mark_seen fields.producer_id fields.event_id fields.thread_key g.utc_now db).1
          ≡ true
    marked-has_seen fields db fresh =
        let p = fields.producer_id in
        let e = fields.event_id in
        (mark_seen-first p e fields.thread_key g.utc_now db fresh).1 p e
        ∙ rw fresh (rw (eq_refl p) (rw (eq_refl e) refl))

    fresh-HasMark :
        (h : Handle) (d : Fields) (fields : EnvelopeFields) (st : Receiver)
        → st.coalesced h.thread_key ≡ []
        → has_seen fields.producer_id fields.event_id st.db ≡ false
        → HasMark fields (authenticated cfg g h d fields st)
    unfolding authenticated HasMark succeeds
    fresh-HasMark h d fields st idle fresh = elim (Bool-cases h.enabled) [
      | inr e ↦ simp (authenticated, HasMark, e) (rw fresh (λ good. cc))
      | inl e ↦ elim (Bool-cases (h.producer_id == fields.producer_id)) [
        | inr p ↦ simp (authenticated, HasMark, e) (rw p (λ good. cc))
        | inl p ↦ elim (Bool-cases (refuses_type h fields)) [
          | inl t ↦ simp (authenticated, HasMark, e) (rw p (rw t (λ good. cc)))
          | inr t ↦
              simp (authenticated, HasMark, e)
                (rw p (
                  rw t (
                    rw
                      (mark_seen-first fields.producer_id fields.event_id fields.thread_key
                        g.utc_now st.db fresh).0
                      (accepted-HasMark h d fields
                        (with_db
                          (mark_seen fields.producer_id fields.event_id fields.thread_key g.utc_now
                            st.db).1
                          st)
                        idle (marked-has_seen fields st.db fresh)))))
        ]
      ]
    ]

    authentic-HasMark :
        (request : Request) (st : Receiver) (a : IsAuthentic cfg g request st)
        → st.coalesced a.handle.thread_key ≡ []
        → HasMark a.fields (handle_event cfg g request st)
    authentic-HasMark request st a idle =
        rw (handle_event-authentic cfg g request st a)
          (elim (Bool-cases (has_seen a.fields.producer_id a.fields.event_id st.db)) [
            | inl seen ↦
                seen-HasMark a.fields st (authenticated cfg g a.handle a.body a.fields st) seen
                  (authenticated-LogOnly cfg g a.handle a.body a.fields st seen)
            | inr fresh ↦ fresh-HasMark a.handle a.body a.fields st idle fresh
          ])

    -- After a 2xx reply there is a mark of the event, provided that no event is waiting for that
    -- listener's digest when the request comes.
    pub answered_event_has_mark :
        (request : Request) (st : Receiver) (a : IsAuthentic cfg g request st)
        → st.coalesced a.fields.thread_key ≡ []
        → succeeds (handle_event cfg g request st).0 ≡ true
        → has_seen a.fields.producer_id a.fields.event_id (handle_event cfg g request st).1.db
          ≡ true
    unfolding HasMark
    answered_event_has_mark request st a idle good =
        let idle' : st.coalesced a.handle.thread_key ≡ [] =
          rw (get_handle-key a.fields.thread_key st.db a.handle a.is_known) idle in
        authentic-HasMark request st a idle' good

  -- A further try of a valid request whose event has a mark changes at most the event log.
  pub marked_retry :
      (cfg : Config) (g later : Gateway) (request : Request) (st : Receiver) (d : Fields)
      (fields : EnvelopeFields)
      → validated cfg g request ≡ ok (d, fields)
      → has_seen fields.producer_id fields.event_id st.db ≡ true
      → LogOnly st (handle_event cfg later request st).1
  marked_retry cfg g later request st d fields valid seen =
      elim (handle_event-cases cfg later request st) [
        | inr (same, bad) ↦ rw same (same-LogOnly st)
        | inl (b, e) ↦
            let fields_eq =
              validated-fields cfg g later request d b.body fields b.fields valid b.is_valid in
            seen_event_is_only_logged cfg later request st b (rw⁻¹ fields_eq seen)
      ]

  -- A request that got a 2xx reply and is sent again, with nothing handled in between, changes at most
  -- the event log the second time, whatever the gateway and its clock are then: nothing is delivered
  -- twice. No event may be waiting for the listener's digest when it comes for the first time.
  pub retry_delivers_nothing :
      (cfg : Config) (g later : Gateway) (request : Request) (st : Receiver)
      (a : IsAuthentic cfg g request st)
      → st.coalesced a.fields.thread_key ≡ []
      → succeeds (handle_event cfg g request st).0 ≡ true
      → LogOnly
          (handle_event cfg g request st).1
          (handle_event cfg later request (handle_event cfg g request st).1).1
  retry_delivers_nothing cfg g later request st a idle good =
      marked_retry cfg g later request (handle_event cfg g request st).1 a.body a.fields a.is_valid
        (answered_event_has_mark cfg g request st a idle good)
