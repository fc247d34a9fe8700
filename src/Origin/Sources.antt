-- ===== src/Origin/Sources.antt =====
-- What each source of origins answers: nothing, an origin that is unavailable, or one of the session.
use package.text.Mathlib.TextPositions.{eq_refl}
use hermes_plugin_async_thre.Prelude.{
  Bool-cases, Option, Option-cases, String, arith, elem, false, inl, inr, none, not, refl, some,
  true, ◌&&◌, ◌==◌, ◌||◌, ◌≡◌, ◌⊎◌,
}
use hermes_plugin_async_thre.Origin.Index.{
  OriginResolution, SourceObject, asks_for, is_routable, local_only_platforms, normalize_platform,
  or_resolution, resolution_from_source, resolution_of_dict,
}
use hermes_plugin_async_thre.Origin.Resolve.{
  SessionStore, StoreEntry, context_source, entry_by_id, entry_by_key, from_entry,
  from_file_entries, from_file_entry, from_session_context, from_store_entry, lookup_sessions_file,
  lookup_store,
}
use hermes_plugin_async_thre.Python.Json.{
  Fields, Json, arr, bool, end, field, fields?, get, int, mapping, null, obj, real, text,
}
use hermes_plugin_async_thre.Python.Runtime.{Runtime}
use hermes_plugin_async_thre.Python.Values.{or_value, str_or_empty}
use hermes_plugin_async_thre.Workflow.Transition.{or_text}

pub asks_for-own : (s : String) → asks_for s s ≡ true
unfolding asks_for
asks_for-own s = rw (eq_refl s) (ground arith)

-- the text that falls back on what is wanted
asks_for-or_text :
    (wanted actual : String)
    → asks_for wanted actual ≡ true
    → asks_for wanted (or_text actual wanted) ≡ true
asks_for-or_text wanted actual h = elim (Bool-cases (actual == "")) [
  | inl e ↦ rw e (asks_for-own wanted)
  | inr e ↦ rw e h
]

module _ ⦃py : Runtime⦄ where
  -- the resolution is unavailable, or it can be routed to and is of the session
  unfoldable pub Fits : String → String → OriginResolution → Type 0
  Fits sid skey r =
      (r.is_ok ≡ false)
      ⊎ ((is_routable r.source_dict ≡ true)
          × (asks_for sid r.session_id ≡ true)
          × (asks_for skey r.session_key ≡ true))

  unfoldable pub AllFit : String → String → Option OriginResolution → Type 0
  AllFit sid skey none = Unit
  AllFit sid skey (some r) = Fits sid skey r

  resolution_of_dict-Fits :
      (sid skey : String) (d : Fields) (key id kind : String)
      → asks_for sid id ≡ true
      → asks_for skey key ≡ true
      → Fits sid skey (resolution_of_dict d key id kind)
  unfolding Fits resolution_of_dict
  resolution_of_dict-Fits sid skey d key id kind same_id same_key =
      elim (Bool-cases (is_routable d)) [
        | inl e ↦ rw e (inr (e, same_id, same_key))
        | inr e ↦ rw e (inl refl)
      ]

  pub resolution_from_source-Fits :
      (sid skey : String) (source : SourceObject) (key id kind : String)
      → asks_for sid id ≡ true
      → asks_for skey key ≡ true
      → Fits sid skey (resolution_from_source source key id kind)
  unfolding Fits resolution_from_source
  resolution_from_source-Fits sid skey source key id kind same_id same_key =
      elim (Option-cases source.converted) [
        | inl e ↦ rw e (inl refl)
        | inr (d, e) ↦ rw e (resolution_of_dict-Fits sid skey d key id kind same_id same_key)
      ]

  pub or_resolution-AllFit :
      (sid skey : String) (a b : Option OriginResolution)
      → AllFit sid skey a
      → AllFit sid skey b
      → AllFit sid skey (or_resolution a b)
  unfolding or_resolution
  or_resolution-AllFit sid skey none b fa fb = fb
  or_resolution-AllFit sid skey (some r) b fa fb = fa

  from_store_entry-AllFit :
      (sid skey : String) (entry : StoreEntry) → AllFit sid skey (from_store_entry sid skey entry)
  unfolding from_store_entry AllFit
  from_store_entry-AllFit sid skey entry =
      elim (Bool-cases
        (not (asks_for sid entry.session_id) || not (asks_for skey entry.session_key))) [
          | inl e ↦ rw e tt
          | inr e ↦
              let same_id : asks_for sid entry.session_id ≡ true = ground (arith, e) in
              let same_key : asks_for skey entry.session_key ≡ true = ground (arith, e) in
              elim (Option-cases entry.origin) [
                | inl o ↦ rw e (rw o tt)
                | inr (source, o) ↦ rw e (
                    rw o (
                      resolution_from_source-Fits sid skey source _ _ "session_store"
                        (asks_for-or_text sid entry.session_id same_id)
                        (asks_for-or_text skey entry.session_key same_key)))
              ]
        ]

  from_entry-AllFit :
      (sid skey : String) (entry : Option StoreEntry) → AllFit sid skey (from_entry sid skey entry)
  unfolding from_entry AllFit
  from_entry-AllFit sid skey none = tt
  from_entry-AllFit sid skey (some entry) = from_store_entry-AllFit sid skey entry

  pub lookup_store-AllFit :
      (sid skey : String) (store : Option SessionStore)
      → AllFit sid skey (lookup_store sid skey store)
  unfolding lookup_store AllFit
  lookup_store-AllFit sid skey none = tt
  lookup_store-AllFit sid skey (some store) =
      or_resolution-AllFit sid skey _ _ (from_entry-AllFit sid skey (entry_by_id store sid))
        (from_entry-AllFit sid skey (entry_by_key store skey))

  from_file_entry-AllFit :
      (sid skey key : String) (raw : Json) → AllFit sid skey (from_file_entry sid skey key raw)
  unfolding from_file_entry AllFit
  from_file_entry-AllFit sid skey key (obj raw) =
      let entry_key = str_or_empty (or_value (get "session_key" raw) (text key)) in
      let entry_id = str_or_empty (get "session_id" raw) in
      elim (Bool-cases (not (asks_for sid entry_id) || not (asks_for skey entry_key))) [
        | inl e ↦ rw e tt
        | inr e ↦
            let same_id : asks_for sid entry_id ≡ true = ground (arith, e) in
            let same_key : asks_for skey entry_key ≡ true = ground (arith, e) in
            elim (Option-cases (fields? (get "origin" raw))) [
              | inl o ↦ rw e (rw o tt)
              | inr (origin, o) ↦ rw e (
                  rw o (
                    resolution_of_dict-Fits sid skey origin entry_key entry_id "sessions_file"
                      same_id same_key))
            ]
      ]
  from_file_entry-AllFit sid skey key null = tt
  from_file_entry-AllFit sid skey key (bool b) = tt
  from_file_entry-AllFit sid skey key (int i) = tt
  from_file_entry-AllFit sid skey key (real r) = tt
  from_file_entry-AllFit sid skey key (text t) = tt
  from_file_entry-AllFit sid skey key (arr xs) = tt

  from_file_entries-AllFit :
      (sid skey : String) (entries : Fields) → AllFit sid skey (from_file_entries sid skey entries)
  unfolding from_file_entries AllFit
  from_file_entries-AllFit sid skey end = tt
  from_file_entries-AllFit sid skey (field key raw entries) =
      or_resolution-AllFit sid skey _ _ (from_file_entry-AllFit sid skey key raw)
        (from_file_entries-AllFit sid skey entries)

  pub lookup_sessions_file-AllFit :
      (sid skey : String) (content : Option Json)
      → AllFit sid skey (lookup_sessions_file sid skey content)
  unfolding lookup_sessions_file AllFit
  lookup_sessions_file-AllFit sid skey none = tt
  lookup_sessions_file-AllFit sid skey (some content) =
      elim (Bool-cases (sid == "" && skey == "")) [
        | inl e ↦ rw e tt
        | inr e ↦ rw e (from_file_entries-AllFit sid skey (mapping content))
      ]

  pub from_session_context-AllFit :
      (sid skey : String) (env : String → String)
      → AllFit sid skey (from_session_context sid skey env)
  unfolding from_session_context AllFit
  from_session_context-AllFit sid skey env =
      elim (Bool-cases (
        env "HERMES_SESSION_PLATFORM" == ""
        || env "HERMES_SESSION_CHAT_ID" == ""
        || elem (normalize_platform (text (env "HERMES_SESSION_PLATFORM"))) local_only_platforms)) [
          | inl e ↦ rw e tt
          | inr e ↦ rw e (
              resolution_of_dict-Fits sid skey (context_source sid skey env) skey sid
                "session_context" (asks_for-own sid) (asks_for-own skey))
        ]
