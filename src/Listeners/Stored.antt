-- ===== src/Listeners/Stored.antt =====
-- The row of a listener that was just created.
use mathlib.Core.Bool.{false≢true}
use package.text.Mathlib.TextPositions.{eq_refl}
use hermes_plugin_async_thre.Prelude.{
  Bool-cases, Option, String, [], any, ap, arith, elem, eq_iff, false, first, first-any,
  first-append, inl, inr, ltb_ℤ, negsuc, pos, refl, some, sym, true, ℤ, ◌++◌, ◌==◌, ◌∙◌, ◌∷◌, ◌≡◌,
  ◌≤ℤ◌,
}
use hermes_plugin_async_thre.Continuation.{continuation_from_mapping, continuation_to_mapping}
use hermes_plugin_async_thre.Continuation.Bounds.{
  IsBounded, continuation_from_mapping-IsBounded, reread_continuation-from_mapping,
}
use hermes_plugin_async_thre.IngressDigest.Resolve.{policy_override_mapping}
use hermes_plugin_async_thre.Lifecycle.{lifecycle_from_mapping, lifecycle_to_mapping}
use hermes_plugin_async_thre.Listeners.Bounds.{IsWithin, normalize_listen_request-IsWithin}
use hermes_plugin_async_thre.Listeners.Create.{
  Fresh, ListenResult, create_listener, handle_arguments, resolved_owner, result_of, store_listener,
}
use hermes_plugin_async_thre.Listeners.Request.{
  ListenArguments, ListenRequest, normalize_listen_request,
}
use hermes_plugin_async_thre.Python.Except.{bind-eq-ok, ok, ok-injective, raise_if-eq-ok}
use hermes_plugin_async_thre.Python.Json.{Fields, obj}
use hermes_plugin_async_thre.Python.Runtime.{Runtime}
use hermes_plugin_async_thre.Registry.Handles.{
  NewHandle, bounded_debounce, create_handle, get_handle, new_handle, read_row, row_to_handle,
}
use hermes_plugin_async_thre.Registry.Rows.{Db, Handle}
use hermes_plugin_async_thre.Workflow.Policy.{
  workflow_policy_from_mapping, workflow_policy_to_mapping,
}
use hermes_plugin_async_thre.Workflow.Transition.{or_text}

bounded_debounce-same : (n : ℤ) → (pos 0 ≤ℤ n) → (n ≤ℤ pos 300) → pos (bounded_debounce n) ≡ n
bounded_debounce-same (pos n) low high = elim (Bool-cases (ltb_ℤ (pos 300) (pos n))) [
  | inl e ↦ ground (arith, e, high)
  | inr e ↦ rw e refl
]
bounded_debounce-same (negsuc n) low high = ground (arith, low)

last_added :
    (key : String) (row : Handle) (db : Db)
    → (row.thread_key == key) ≡ true
    → any (λ (h : Handle). h.thread_key == key) db.handles ≡ false
    → first (λ h. h.thread_key == key) (db.handles ++ row ∷ []) ≡ some row
last_added key row db own free = elim (first-any (λ (h : Handle). h.thread_key == key) db.handles) [
  | inl (x, found, there) ↦ elim (false≢true (sym free ∙ there)) [ ]
  | inr (missing, absent) ↦
      first-append (λ (h : Handle). h.thread_key == key) db.handles row missing ∙ rw own refl
]

module _ ⦃py : Runtime⦄ where
  -- what `create_handle` has stored
  create_handle-stored :
      (request : NewHandle) (key secret now : String) (db : Db) {made : Option Handle × Db}
      → create_handle request key secret now db ≡ ok made
      → (digest : Fields) × (made.0
          ≡ some (row_to_handle (new_handle request digest key secret now)))
        × (get_handle key made.1 ≡ some (row_to_handle (new_handle request digest key secret now)))
  unfolding create_handle get_handle read_row
  create_handle-stored request key secret now db {made} h =
      let (digest, _, h1) =
        bind-eq-ok (policy_override_mapping request.ingress_digest_policy) _ h in
      let (free, h2) = raise_if-eq-ok (any (λ h. h.thread_key == key) db.handles) _ _ h1 in
      let row = new_handle request digest key secret now in
      let found : get_handle key (record db { handles = db.handles ++ row ∷ [] })
          ≡ some (row_to_handle row) =
        ap read_row (last_added key row db (eq_refl key) free) in
      (
        digest,
        sym (ap (λ x. x.0) (ok-injective h2)) ∙ found,
        sym (ap (λ x. get_handle key x.1) (ok-injective h2)) ∙ found,
      )

  -- The handle says what the normalized request says; each policy is the one that is read from the
  -- object which the request's policy is stored as.
  unfoldable pub Agrees : ListenRequest → Fresh → Handle → Type 0
  Agrees r fresh h =
      (h.thread_key ≡ fresh.thread_key)
      × (h.secret ≡ fresh.secret)
      × (h.enabled ≡ true)
      × (h.policy ≡ r.policy)
      × (h.ack_mode ≡ r.ack_mode)
      × (pos h.debounce_seconds ≡ r.debounce_seconds)
      × (h.workflow_policy
          ≡ workflow_policy_from_mapping (workflow_policy_to_mapping r.workflow_policy))
      × (continuation_from_mapping (continuation_to_mapping r.continuation_policy)
          ≡ ok h.continuation_policy)
      × IsBounded h.continuation_policy
      × (h.lifecycle_policy
          ≡ lifecycle_from_mapping (obj (lifecycle_to_mapping r.lifecycle_policy)))

  known_ack-stays :
      (ack : String) → elem ack ("none" ∷ "brief" ∷ "debug" ∷ []) ≡ true → or_text ack "none" ≡ ack
  known_ack-stays ack known = elim (Bool-cases (ack == "")) [
    | inr given ↦ rw given refl
    | inl blank ↦
        let none_known : false ≡ true = rw ((eq_iff ack "").0 blank) at known in
        elim (false≢true none_known) [ ]
  ]

  new_handle-Agrees :
      (r : ListenRequest) (source digest : Fields) (session_key session_id owner : String)
      (fresh : Fresh)
      → IsWithin r
      → Agrees r fresh (
          row_to_handle (
            new_handle
              (handle_arguments r source session_key session_id owner)
              digest
              fresh.thread_key
              fresh.secret
              fresh.now))
  unfolding Agrees new_handle handle_arguments row_to_handle
  new_handle-Agrees r source digest session_key session_id owner fresh within = (
    refl,
    refl,
    refl,
    rw within.known_policy refl,
    rw within.known_ack (known_ack-stays r.ack_mode within.known_ack),
    bounded_debounce-same r.debounce_seconds within.not_negative within.at_most,
    refl,
    reread_continuation-from_mapping r.continuation_policy,
    continuation_from_mapping-IsBounded _ (reread_continuation-from_mapping r.continuation_policy),
    refl,
  )

  -- A listener that is created is returned and can be looked up under its new key. Its handle is
  -- enabled, has the fresh secret, and keeps the normalized request's delivery policy, acknowledgement
  -- and debounce, which the registry's own limits do not change. Its workflow, continuation and
  -- lifecycle policies are what the policies' own readers make of the stored objects; so its
  -- continuation policy is within the limits even where the request gave one that is not.
  pub create_listener-get_handle :
      (args : ListenArguments) (source : Fields) (session_key session_id event_url : String)
      (fresh : Fresh) (db : Db) {made : Option ListenResult × Db}
      → create_listener args source session_key session_id event_url fresh db ≡ ok made
      → (request : ListenRequest) × (result : ListenResult) × (normalize_listen_request args
          ≡ ok request)
        × (made.0 ≡ some result)
        × (get_handle fresh.thread_key made.1 ≡ some result.handle)
        × Agrees request fresh result.handle
  unfolding create_listener store_listener result_of
  create_listener-get_handle args source session_key session_id event_url fresh db {made} h =
      let (request, normal, h1) = bind-eq-ok (normalize_listen_request args) _ h in
      let owner = resolved_owner request source in
      let given = handle_arguments request source session_key session_id owner in
      let (created, e, h2) =
        bind-eq-ok (create_handle given fresh.thread_key fresh.secret fresh.now db) _ h1 in
      let (digest, given_back, found) =
        create_handle-stored given fresh.thread_key fresh.secret fresh.now db e in
      let row = row_to_handle (new_handle given digest fresh.thread_key fresh.secret fresh.now) in
      (
        request,
        record {
          handle = row;
          event_url = event_url;
          source = source;
          session_key = session_key;
          session_id = session_id;
        },
        normal,
        sym (ap (λ x. x.0) (ok-injective h2))
            ∙ ap (result_of source session_key session_id event_url) given_back,
        sym (ap (λ x. get_handle fresh.thread_key x.1) (ok-injective h2)) ∙ found,
        new_handle-Agrees request source digest session_key session_id owner fresh
            (normalize_listen_request-IsWithin args normal),
      )
