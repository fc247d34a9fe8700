-- ===== src/Origin/Trusted.antt =====
-- Whose conversation a tool call can be taken for.
use mathlib.Core.Bool.{false≢true}
use hermes_plugin_async_thre.Prelude.{
  All, Bool, Bool-cases, List, Option, String, [], arith, false, inl, inr, none, refl, some, sym,
  true, ◌==◌, ◌∙◌, ◌∷◌, ◌≡◌,
}
use hermes_plugin_async_thre.Origin.Index.{
  OriginIndex, OriginResolution, SourceObject, asks_for, candidate_for, empty_index, find_entry,
  is_routable, lookup, matching, remember, resolution_from_source, resolution_matches, set_entry,
  stored_under,
}
use hermes_plugin_async_thre.Origin.Resolve.{
  Host, is_explicit, looked_up, or_unavailable, resolve_current_origin, resolve_session,
  wanted_session,
}
use hermes_plugin_async_thre.Origin.Sources.{
  AllFit, Fits, asks_for-own, from_session_context-AllFit, lookup_sessions_file-AllFit,
  lookup_store-AllFit, or_resolution-AllFit, resolution_from_source-Fits,
}
use hermes_plugin_async_thre.Python.Json.{keys}
use hermes_plugin_async_thre.Python.Runtime.{Runtime}

-- one call of `remember`
pub record Captured : Type 0 where
  pub source : SourceObject
  pub session_key : String
  pub session_id : String
  pub source_kind : String

module _ ⦃py : Runtime⦄ where
  -- the index that a run of the gateway leaves
  unfoldable pub index_after : List Captured → OriginIndex
  index_after [] = empty_index
  index_after (c ∷ cs) =
      (remember c.source c.session_key c.session_id c.source_kind (index_after cs)).1

  -- an entry of the index that can be routed to
  unfoldable IsRoutable : String × OriginResolution → Type 0
  IsRoutable x = is_routable x.1.source_dict ≡ true

  unfoldable IsTrusted : OriginIndex → Type 0
  IsTrusted index = All IsRoutable index.by_session_id × All IsRoutable index.by_session_key

  -- the resolution that is found, if any, can be routed to
  unfoldable Found : Option OriginResolution → Type 0
  Found none = Unit
  Found (some r) = is_routable r.source_dict ≡ true

  find_entry-Found :
      (key : String) (entries : List (String × OriginResolution))
      → All IsRoutable entries
      → Found (find_entry key entries)
  unfolding Found find_entry IsRoutable
  find_entry-Found key [] trusted = tt
  find_entry-Found key (x ∷ xs) (fine, rest) = elim (Bool-cases (x.0 == key)) [
    | inl e ↦ rw e fine
    | inr e ↦ rw e (find_entry-Found key xs rest)
  ]

  candidate_for-Found :
      (key : String) (entries : List (String × OriginResolution))
      → All IsRoutable entries
      → Found (candidate_for key entries)
  unfolding Found candidate_for
  candidate_for-Found key entries trusted = elim (Bool-cases (key == "")) [
    | inl e ↦ rw e tt
    | inr e ↦ rw e (find_entry-Found key entries trusted)
  ]

  matching-AllFit :
      (sid skey : String) (o : Option OriginResolution)
      → Found o
      → AllFit sid skey (matching o sid skey)
  unfolding AllFit Fits Found matching resolution_matches
  matching-AllFit sid skey none found = tt
  matching-AllFit sid skey (some r) found = elim (Bool-cases (resolution_matches r sid skey)) [
    | inl e ↦ rw e (inr (found, ground (arith, e), ground (arith, e)))
    | inr e ↦ rw e tt
  ]

  lookup-AllFit :
      (sid skey : String) (index : OriginIndex)
      → IsTrusted index
      → AllFit sid skey (lookup sid skey index)
  unfolding IsTrusted lookup
  lookup-AllFit sid skey index (ids, keys) =
      or_resolution-AllFit sid skey _ _
        (matching-AllFit sid skey _ (candidate_for-Found sid index.by_session_id ids))
        (matching-AllFit sid skey _ (candidate_for-Found skey index.by_session_key keys))

  set_entry-All :
      (key : String) (r : OriginResolution) (entries : List (String × OriginResolution))
      → is_routable r.source_dict ≡ true
      → All IsRoutable entries
      → All IsRoutable (set_entry key r entries)
  unfolding set_entry IsRoutable
  set_entry-All key r [] fine trusted = (fine, tt)
  set_entry-All key r (x ∷ xs) fine (first_fine, rest) = elim (Bool-cases (x.0 == key)) [
    | inl e ↦ rw e (fine, rest)
    | inr e ↦ rw e (first_fine, set_entry-All key r xs fine rest)
  ]

  stored_under-IsTrusted :
      (r : OriginResolution) (index : OriginIndex)
      → is_routable r.source_dict ≡ true
      → IsTrusted index
      → IsTrusted (stored_under r index)
  unfolding IsTrusted stored_under
  stored_under-IsTrusted r index fine (ids, keys) = (
    elim (Bool-cases (r.session_id == "")) [
      | inl e ↦ rw e ids
      | inr e ↦ rw e (set_entry-All r.session_id r index.by_session_id fine ids)
    ],
    elim (Bool-cases (r.session_key == "")) [
      | inl e ↦ rw e keys
      | inr e ↦ rw e (set_entry-All r.session_key r index.by_session_key fine keys)
    ],
  )

  ok_is_routable :
      (source : SourceObject) (key id kind : String)
      → (resolution_from_source source key id kind).is_ok ≡ true
      → is_routable (resolution_from_source source key id kind).source_dict ≡ true
  unfolding Fits asks_for
  ok_is_routable source key id kind h =
      elim (resolution_from_source-Fits "" "" source key id kind refl refl) [
        | inl bad ↦ elim (false≢true (sym bad ∙ h)) [ ]
        | inr (fine, same_id, same_key) ↦ fine
      ]

  remember-IsTrusted :
      (source : SourceObject) (key id kind : String) (index : OriginIndex)
      → IsTrusted index
      → IsTrusted (remember source key id kind index).1
  unfolding remember
  remember-IsTrusted source key id kind index trusted =
      let r = resolution_from_source source key id kind in
      elim (Bool-cases r.is_ok) [
        | inr e ↦ simp e trusted
        | inl e ↦
            simp e (stored_under-IsTrusted r index (ok_is_routable source key id kind e) trusted)
      ]

  index_after-IsTrusted : (captured : List Captured) → IsTrusted (index_after captured)
  unfolding index_after IsTrusted
  index_after-IsTrusted [] = (tt, tt)
  index_after-IsTrusted (c ∷ cs) =
      remember-IsTrusted c.source c.session_key c.session_id c.source_kind (index_after cs)
        (index_after-IsTrusted cs)

  or_unavailable-Fits :
      (sid skey : String) (o : Option OriginResolution)
      → AllFit sid skey o
      → Fits sid skey (or_unavailable o)
  unfolding AllFit Fits
  or_unavailable-Fits sid skey none fits = inl refl
  or_unavailable-Fits sid skey (some r) fits = fits

  looked_up-AllFit :
      (sid skey : String) (host : Host) (index : OriginIndex)
      → IsTrusted index
      → AllFit sid skey (looked_up sid skey host index)
  unfolding looked_up
  looked_up-AllFit sid skey host index trusted =
      or_resolution-AllFit sid skey _ _ (lookup_store-AllFit sid skey host.session_store) (
        or_resolution-AllFit sid skey _ _ (lookup_sessions_file-AllFit sid skey host.sessions_file)
          (lookup-AllFit sid skey index trusted))

  resolve_session-Fits :
      (source : Option SourceObject) (explicit : Bool) (sid skey : String) (host : Host)
      (index : OriginIndex)
      → IsTrusted index
      → Fits sid skey (resolve_session source explicit sid skey host index)
  unfolding resolve_session AllFit
  resolve_session-Fits (some object) explicit sid skey host index trusted =
      resolution_from_source-Fits sid skey object skey sid "explicit" (asks_for-own sid)
        (asks_for-own skey)
  resolve_session-Fits none true sid skey host index trusted =
      or_unavailable-Fits sid skey _
        (or_resolution-AllFit sid skey _ none (looked_up-AllFit sid skey host index trusted) tt)
  resolve_session-Fits none false sid skey host index trusted = or_unavailable-Fits sid skey _ (
      or_resolution-AllFit sid skey _ _ (looked_up-AllFit sid skey host index trusted)
        (from_session_context-AllFit sid skey host.session_env))

  -- An origin that is resolved can be routed to, and is of the session that was wanted: the session id
  -- and the session key, where they are not empty, are the resolved ones. This holds whatever the
  -- session store, the sessions file and the environment say, and after any captures of the gateway.
  pub resolved_origin_is_wanted :
      (source : Option SourceObject) (given context : String × String) (host : Host)
      (captured : List Captured)
      → (resolve_current_origin source given context host (index_after captured)).is_ok ≡ true
      → let r = resolve_current_origin source given context host (index_after captured) in
        let wanted = wanted_session given context host.session_env in
        (is_routable r.source_dict ≡ true)
        × (asks_for wanted.0 r.session_id ≡ true)
        × (asks_for wanted.1 r.session_key ≡ true)
  unfolding resolve_current_origin Fits
  resolved_origin_is_wanted source given context host captured h =
      let wanted = wanted_session given context host.session_env in
      elim (resolve_session-Fits source (is_explicit given context) wanted.0 wanted.1 host
        (index_after captured) (index_after-IsTrusted captured)) [
          | inl bad ↦ elim (false≢true (sym bad ∙ h)) [ ]
          | inr fine ↦ fine
        ]
