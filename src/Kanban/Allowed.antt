-- ===== src/Kanban/Allowed.antt =====
-- What a compatible binding emits, its listener accepts.
use hermes_plugin_async_thre.Prelude.{
  Bool-cases, List, String, [], ap, arith, elem, eq_iff, false, inl, inr, is_empty, keep, not, refl,
  some, sym, true, ◌<>◌, ◌==◌, ◌||◌, ◌∙◌, ◌∷◌, ◌≡◌,
}
use hermes_plugin_async_thre.Kanban.Transform.{
  KanbanAction, KanbanTaskEvent, coalesce_enabled_for, mapped_material_kind, noisy_kinds,
  transform_kanban_task_event, would_emit,
}
use hermes_plugin_async_thre.Python.Except.{Except, ok, raise, ◌>>=◌}
use hermes_plugin_async_thre.Python.Json.{Fields, Json, obj}
use hermes_plugin_async_thre.Python.Runtime.{Runtime}
use hermes_plugin_async_thre.Python.Text.{clean_token}
use hermes_plugin_async_thre.Registry.Bindings.{
  Compatibility, compatible, is_active, missing_event_types, source_binding_compatibility,
}
use hermes_plugin_async_thre.Registry.Handles.{get_handle}
use hermes_plugin_async_thre.Registry.Rows.{Db, Handle, SourceBinding}
use hermes_plugin_async_thre.SourceFilters.{
  kanban_default_event_types, kanban_event_prefix, source_binding_event_types,
  source_filter_allows_event,
}

-- nothing is left over, so everything is in the list
kept_none :
    (allowed types : List String) (t : String)
    → is_empty (keep (λ x. not (elem x allowed)) types) ≡ true
    → elem t types ≡ true
    → elem t allowed ≡ true
kept_none allowed [] t h g = cc
kept_none allowed (x ∷ xs) t h g = elim (Bool-cases (elem x allowed)) [
  | inr out ↦ ground (arith, out)
  | inl inside ↦ elim (Bool-cases (t == x)) [
    | inl same ↦ rw ((eq_iff t x).0 same) inside
    | inr other ↦ kept_none allowed xs t (rw inside at h) (rw other at g)
  ]
]

module _ ⦃py : Runtime⦄ where
  -- an action that emits has passed the filter
  Filtered : Fields → Except KanbanAction → Type 0
  Filtered event_filter action =
      (t : String) (envelope : Fields)
      → action ≡ ok (would_emit t envelope)
      → source_filter_allows_event "kanban" t (obj event_filter) kanban_default_event_types ≡ true

  emit-Filtered :
      (event_filter : Fields) (type : String) (built : Except Fields)
      → source_filter_allows_event "kanban" type (obj event_filter) kanban_default_event_types
        ≡ true
      → Filtered event_filter (built >>= λ envelope. ok (would_emit type envelope))
  unfolding Filtered
  emit-Filtered event_filter type (ok envelope) allowed t e h =
      let same : type ≡ t = cc in rw⁻¹ same allowed
  emit-Filtered event_filter type (raise x) allowed t e h = cc

  transform-Filtered :
      (event : KanbanTaskEvent) (board thread_key producer_id : String)
      (event_filter coalesce : Fields)
      → Filtered event_filter
          (transform_kanban_task_event event board thread_key producer_id event_filter coalesce)
  unfolding transform_kanban_task_event Filtered
  transform-Filtered event board thread_key producer_id event_filter coalesce =
      let kind = clean_token event.kind "" 80 in
      let mapped = mapped_material_kind kind event.payload in
      let type = kanban_event_prefix <> mapped in
      elim (Bool-cases (elem kind noisy_kinds)) [
        | inl noisy ↦ elim (Bool-cases (coalesce_enabled_for kind coalesce)) [
          | inl c ↦ rw (transform_kanban_task_event, noisy) (rw c (λ t e h. cc))
          | inr c ↦ rw (transform_kanban_task_event, noisy) (rw c (λ t e h. cc))
        ]
        | inr quiet ↦ elim (Bool-cases (mapped == "")) [
          | inl m ↦ rw (transform_kanban_task_event, quiet) (rw m (λ t e h. cc))
          | inr m ↦
              elim (Bool-cases (
                source_filter_allows_event "kanban" type (obj event_filter)
                  kanban_default_event_types)) [
                    | inr a ↦ rw (transform_kanban_task_event, quiet) (rw m (rw a (λ t e h. cc)))
                    | inl a ↦
                        rw (transform_kanban_task_event, quiet)
                          (rw m (rw a (emit-Filtered event_filter type _ a)))
                  ]
        ]
      ]

  -- a binding that is compatible with a listener
  Matches : SourceBinding → Handle → Compatibility → Type 0
  Matches b h c =
      c ≡ compatible
      → (h.enabled ≡ true)
        × ((b.producer_id == h.producer_id) ≡ true)
        × (is_empty (missing_event_types b h) ≡ true)

  compatibility-Matches :
      (b : SourceBinding) (db : Db) (h : Handle)
      → get_handle b.listener_thread_key db ≡ some h
      → Matches b h (source_binding_compatibility b db)
  unfolding source_binding_compatibility Matches
  compatibility-Matches b db h known = elim (Bool-cases (is_active b.status)) [
    | inr e ↦ rw (source_binding_compatibility, e) (λ c. cc)
    | inl e ↦ elim (Bool-cases (h.owner_user_id == b.owner_user_id)) [
      | inr o ↦ rw (source_binding_compatibility, e) (rw known (rw o (λ c. cc)))
      | inl o ↦ elim (Bool-cases h.enabled) [
        | inr d ↦ rw (source_binding_compatibility, e) (rw known (rw o (simp d (λ c. cc))))
        | inl d ↦ elim (Bool-cases (b.producer_id == h.producer_id)) [
          | inr p ↦ rw (source_binding_compatibility, e) (rw known (rw o (simp d (rw p (λ c. cc)))))
          | inl p ↦ elim (Bool-cases (is_empty (missing_event_types b h))) [
            | inr m ↦
                rw (source_binding_compatibility, e)
                  (rw known (rw o (simp d (rw p (rw m (λ c. cc))))))
            | inl m ↦ λ c. (d, p, m)
          ]
        ]
      ]
    ]
  ]

  passes-elem :
      (t : String) (event_filter : Json) (default : List String)
      → is_empty (source_binding_event_types "kanban" event_filter default) ≡ false
      → source_filter_allows_event "kanban" t event_filter default ≡ true
      → elem t (source_binding_event_types "kanban" event_filter default) ≡ true
  unfolding source_filter_allows_event
  passes-elem t event_filter default some_type allowed =
      rw (source_filter_allows_event, some_type) at allowed

  missing-kanban :
      (b : SourceBinding) (h : Handle)
      → b.source ≡ "kanban"
      → is_empty h.allowed_event_types ≡ false
      → missing_event_types b h
        ≡ keep
            (λ x. not (elem x h.allowed_event_types))
            (source_binding_event_types "kanban" (obj b.event_filter) kanban_default_event_types)
  unfolding missing_event_types
  missing-kanban b h kanban some_only = rw (missing_event_types, some_only) (rw kanban refl)

  -- Whatever event a Kanban binding emits that the registry finds compatible: its listener is enabled,
  -- has the binding's producer, and accepts the event's type. The binding's filter must stand for at
  -- least one event type; a filter that stands for none lets every event through.
  pub compatible_binding_emits_accepted :
      (b : SourceBinding) (db : Db) (h : Handle) (event : KanbanTaskEvent)
      (board producer_id t : String) (envelope : Fields)
      → b.source ≡ "kanban"
      → get_handle b.listener_thread_key db ≡ some h
      → source_binding_compatibility b db ≡ compatible
      → is_empty
          (source_binding_event_types "kanban" (obj b.event_filter) kanban_default_event_types)
        ≡ false
      → transform_kanban_task_event event board b.listener_thread_key producer_id b.event_filter
          b.coalesce
        ≡ ok (would_emit t envelope)
      → (h.enabled ≡ true)
        × ((b.producer_id == h.producer_id) ≡ true)
        × ((is_empty h.allowed_event_types || elem t h.allowed_event_types) ≡ true)
  unfolding Matches Filtered missing_event_types
  compatible_binding_emits_accepted b db h event board producer_id t envelope kanban known fits
        some_type emits =
      let (enabled, same, nothing) = compatibility-Matches b db h known fits in
      let passes =
        transform-Filtered event board b.listener_thread_key producer_id b.event_filter b.coalesce t
          envelope emits in
      let required =
        passes-elem t (obj b.event_filter) kanban_default_event_types some_type passes in
      (
        enabled,
        same,
        elim (Bool-cases (is_empty h.allowed_event_types)) [
          | inl all ↦ rw all refl
          | inr some_only ↦ rw some_only (
              kept_none h.allowed_event_types
                (source_binding_event_types "kanban" (obj b.event_filter)
                  kanban_default_event_types)
                t (sym (ap is_empty (missing-kanban b h kanban some_only)) ∙ nothing) required)
        ],
      )
