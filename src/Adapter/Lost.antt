-- ===== src/Adapter/Lost.antt =====
-- What an exception of `_resolve_ingress_payload` leaves behind in `_handle_event`.
use hermes_plugin_async_thre.Prelude.{false, none, refl, true, ◌==◌, ◌∙◌, ◌≡◌}
use hermes_plugin_async_thre.Adapter.Authentic.{IsAuthentic, handle_event-authentic}
use hermes_plugin_async_thre.Adapter.Coalesce.{resolve_ingress_payload}
use hermes_plugin_async_thre.Adapter.Receive.{
  accepted, authenticated, handle_event, refuses_type, reply_to_exception,
}
use hermes_plugin_async_thre.Adapter.Retry.{marked-has_seen, marked_retry}
use hermes_plugin_async_thre.Adapter.Seen.{LogOnly}
use hermes_plugin_async_thre.Adapter.State.{Config, Gateway, Receiver, Request, with_db}
use hermes_plugin_async_thre.Python.Except.{Exc, raise}
use hermes_plugin_async_thre.Python.Json.{Fields}
use hermes_plugin_async_thre.Python.Runtime.{Runtime}
use hermes_plugin_async_thre.Registry.Rows.{Db, Handle}
use hermes_plugin_async_thre.Registry.Seen.{has_seen, mark_seen}
use hermes_plugin_async_thre.Registry.SeenLaws.{mark_seen-first}
use hermes_plugin_async_thre.Security.{EnvelopeFields}

module _ ⦃py : Runtime⦄ (cfg : Config) (g : Gateway) where
  abbrev marked_by : EnvelopeFields → Db → Db
  marked_by fields db =
      (mark_seen fields.producer_id fields.event_id fields.thread_key g.utc_now db).1

  authenticated-unresolved :
      (h : Handle) (d : Fields) (fields : EnvelopeFields) (st : Receiver) (e : Exc)
      → h.enabled ≡ true
      → (h.producer_id == fields.producer_id) ≡ true
      → refuses_type h fields ≡ false
      → has_seen fields.producer_id fields.event_id st.db ≡ false
      → resolve_ingress_payload cfg g h d fields none (marked_by fields st.db) ≡ raise e
      → authenticated cfg g h d fields st
        ≡ (reply_to_exception e, with_db (marked_by fields st.db) st)
  unfolding authenticated accepted
  authenticated-unresolved h d fields st e on mine listed fresh unresolved =
      simp (authenticated, on)
        (rw mine (
          rw listed (
            rw
              (mark_seen-first fields.producer_id fields.event_id fields.thread_key g.utc_now st.db
                fresh).0
              (rw (accepted, unresolved) refl))))

  -- When `_resolve_ingress_payload` raises on an authentic event that is new, in scope and of an
  -- enabled listener, the reply is the one of that exception, nothing is sent, and the event keeps
  -- its mark; a retry with nothing handled in between changes at most the event log.
  pub unresolved_event_is_lost :
      (later : Gateway) (request : Request) (st : Receiver) (e : Exc)
      (a : IsAuthentic cfg g request st)
      → a.handle.enabled ≡ true
      → (a.handle.producer_id == a.fields.producer_id) ≡ true
      → refuses_type a.handle a.fields ≡ false
      → has_seen a.fields.producer_id a.fields.event_id st.db ≡ false
      → resolve_ingress_payload cfg g a.handle a.body a.fields none (marked_by a.fields st.db)
        ≡ raise e
      → (handle_event cfg g request st
          ≡ (reply_to_exception e, with_db (marked_by a.fields st.db) st))
        × LogOnly
            (with_db (marked_by a.fields st.db) st)
            (handle_event cfg later request (with_db (marked_by a.fields st.db) st)).1
  unresolved_event_is_lost later request st e a on mine listed fresh unresolved =
      let after = with_db (marked_by a.fields st.db) st in
      (
        handle_event-authentic cfg g request st a
            ∙ authenticated-unresolved a.handle a.body a.fields st e on mine listed fresh
                unresolved,
        marked_retry cfg g later request after a.body a.fields a.is_valid
            (marked-has_seen cfg g a.fields st.db fresh),
      )
