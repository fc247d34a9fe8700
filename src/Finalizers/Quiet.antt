-- ===== src/Finalizers/Quiet.antt =====
-- A listener that was retired, and the receiver on the same registry.
use hermes_plugin_async_thre.Prelude.{
  Bool-cases, String, ap, false, inl, inr, some, sym, true, ◌∙◌, ◌≡◌,
}
use hermes_plugin_async_thre.Adapter.Authentic.{handle_event-cases}
use hermes_plugin_async_thre.Adapter.Receive.{authenticated, handle_event, validated}
use hermes_plugin_async_thre.Adapter.Seen.{LogOnly, log-LogOnly, same-LogOnly}
use hermes_plugin_async_thre.Adapter.State.{Config, Gateway, Receiver, Request, with_db}
use hermes_plugin_async_thre.Finalizers.Retire.{
  Resources, is_enabled, retire_listener, thread_key_from_context,
}
use hermes_plugin_async_thre.Finalizers.Retired.{retired_listener_is_off}
use hermes_plugin_async_thre.IngressDigest.Policy.{is_off}
use hermes_plugin_async_thre.Python.Except.{ok, ok-injective}
use hermes_plugin_async_thre.Python.Json.{Fields}
use hermes_plugin_async_thre.Python.Runtime.{Runtime}
use hermes_plugin_async_thre.Registry.Handles.{get_handle}
use hermes_plugin_async_thre.Registry.Rows.{Handle}
use hermes_plugin_async_thre.Registry.Seen.{has_seen}
use hermes_plugin_async_thre.Secrets.Files.{FileStore}
use hermes_plugin_async_thre.Security.{EnvelopeFields}

module _ ⦃py : Runtime⦄ (cfg : Config) (g : Gateway) where
  disabled-LogOnly :
      (h : Handle) (d : Fields) (fields : EnvelopeFields) (st : Receiver)
      → h.enabled ≡ false
      → LogOnly st (authenticated cfg g h d fields st).1
  unfolding authenticated
  disabled-LogOnly h d fields st e =
      elim (Bool-cases (has_seen fields.producer_id fields.event_id st.db)) [
        | inl seen ↦ simp (authenticated, e) (rw seen (log-LogOnly cfg g fields "duplicate" _ st))
        | inr fresh ↦
            simp (authenticated, e)
              (rw fresh (log-LogOnly cfg g fields "rejected_missing_or_disabled_handle" _ st))
      ]

  -- After a finalizer that reports success for a listener of the registry, the receiver handles a
  -- request that names that listener without delivering, queueing, marking or storing anything: at
  -- most the event log changes.
  pub retired_listener_delivers_nothing :
      (owner now : String) (context : Fields) (files : FileStore) (h : Handle) (st : Receiver)
      → get_handle (thread_key_from_context context) st.db ≡ some h
      → (retire_listener owner now context (record { db = st.db; files = files })).0.is_ok ≡ true
      → (request : Request) (d : Fields) (fields : EnvelopeFields)
      → validated cfg g request ≡ ok (d, fields)
      → fields.thread_key ≡ thread_key_from_context context
      → let after = (retire_listener owner now context (record { db = st.db; files = files })).1 in
        LogOnly (with_db after.db st) (handle_event cfg g request (with_db after.db st)).1
  retired_listener_delivers_nothing owner now context files h st found succeeding request d fields
        valid named =
      let resources : Resources = record { db = st.db; files = files } in
      let after = (retire_listener owner now context resources).1 in
      let (is_off, no_secret, no_contract) =
        retired_listener_is_off owner now context resources h found succeeding in
      elim (handle_event-cases cfg g request (with_db after.db st)) [
        | inr (same, bad) ↦ rw same (same-LogOnly (with_db after.db st))
        | inl (a, e) ↦
            let same_fields : fields ≡ a.fields =
              ap (λ x. x.1) (ok-injective (sym valid ∙ a.is_valid)) in
            let known : get_handle (thread_key_from_context context) after.db ≡ some a.handle =
              ap (λ k. get_handle k after.db)
                (sym named ∙ ap (λ (f : EnvelopeFields). f.thread_key) same_fields)
              ∙ a.is_known in
            rw e (
              disabled-LogOnly a.handle a.body a.fields (with_db after.db st)
                (sym (ap is_enabled known) ∙ is_off))
      ]
