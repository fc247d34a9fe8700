-- ===== src/Origin/Resolve.antt =====
-- `resolve_current_origin`: the sources that it asks, in order.
use hermes_plugin_async_thre.Prelude.{
  Bool, Option, String, [], elem, if◌then◌else◌, none, not, some, ◌&&◌, ◌==◌, ◌||◌, ◌∷◌,
}
use hermes_plugin_async_thre.Origin.Index.{
  OriginIndex, OriginResolution, SourceObject, asks_for, local_only_platforms, lookup,
  normalize_platform, or_resolution, remember, resolution_from_source, resolution_of_dict,
  unavailable,
}
use hermes_plugin_async_thre.Python.Json.{
  Fields, Json, dict, end, field, fields?, get, mapping, null, obj, text,
}
use hermes_plugin_async_thre.Python.Runtime.{Runtime}
use hermes_plugin_async_thre.Python.Text.{strip}
use hermes_plugin_async_thre.Python.Values.{or_value, str_or_empty}
use hermes_plugin_async_thre.Workflow.Transition.{or_text}

-- an entry of the host's session store; `none` for an origin that is `None`
pub record StoreEntry : Type 0 where
  pub session_key : String
  pub session_id : String
  pub origin : Option SourceObject

-- the host's session store; a lookup that raises or is missing gives `none`
pub record SessionStore : Type 0 where
  pub lookup_by_session_id : String → Option StoreEntry
  pub get_session_by_key : String → Option StoreEntry

-- what the program reads of its surroundings: the store, the parsed sessions file, and the variables
-- of the session context
pub record Host : Type 0 where
  pub session_store : Option SessionStore
  pub sessions_file : Option Json
  pub session_env : String → String

-- `_get_store_entry_by_key`
unfoldable pub entry_by_key : SessionStore → String → Option StoreEntry
entry_by_key store key = if key == "" then none else store.get_session_by_key key

unfoldable pub entry_by_id : SessionStore → String → Option StoreEntry
entry_by_id store id = if id == "" then none else store.lookup_by_session_id id

module _ ⦃py : Runtime⦄ where
  -- `_first_text`
  unfoldable pub first_text : String → String → String
  first_text a b = if strip a == "" then strip b else strip a

  module _ (sid skey : String) where
    -- `_resolution_from_store_entry`
    unfoldable pub from_store_entry : StoreEntry → Option OriginResolution
    from_store_entry entry =
        if not (asks_for sid entry.session_id) || not (asks_for skey entry.session_key)
        then none
        else elim entry.origin [
          | none ↦ none
          | some source ↦ some (
              resolution_from_source source (or_text entry.session_key skey)
                (or_text entry.session_id sid) "session_store")
        ]

    unfoldable pub from_entry : Option StoreEntry → Option OriginResolution
    from_entry none = none
    from_entry (some entry) = from_store_entry entry

    -- `_lookup_store`
    unfoldable pub lookup_store : Option SessionStore → Option OriginResolution
    lookup_store none = none
    lookup_store (some store) =
        or_resolution (from_entry (entry_by_id store sid)) (from_entry (entry_by_key store skey))

    -- one entry of the sessions file
    unfoldable pub from_file_entry : String → Json → Option OriginResolution
    from_file_entry key (obj raw) =
        let entry_key = str_or_empty (or_value (get "session_key" raw) (text key)) in
        let entry_id = str_or_empty (get "session_id" raw) in
        if not (asks_for sid entry_id) || not (asks_for skey entry_key)
        then none
        else elim (fields? (get "origin" raw)) [
          | none ↦ none
          | some origin ↦ some (resolution_of_dict origin entry_key entry_id "sessions_file")
        ]
    from_file_entry key _ = none

    unfoldable pub from_file_entries : Fields → Option OriginResolution
    from_file_entries end = none
    from_file_entries (field key raw entries) =
        or_resolution (from_file_entry key raw) (from_file_entries entries)

    -- `_lookup_sessions_file`
    unfoldable pub lookup_sessions_file : Option Json → Option OriginResolution
    lookup_sessions_file none = none
    lookup_sessions_file (some content) =
        if sid == "" && skey == "" then none else from_file_entries (mapping content)

    -- `value or None`
    abbrev pub text_or_null : String → Json
    text_or_null value = if value == "" then null else text value

    -- the dict of `_resolution_from_session_context`
    unfoldable pub context_source : (String → String) → Fields
    context_source env = dict (
        ("platform", text (env "HERMES_SESSION_PLATFORM"))
        ∷ ("chat_id", text (env "HERMES_SESSION_CHAT_ID"))
        ∷ ("chat_name", text_or_null (env "HERMES_SESSION_CHAT_NAME"))
        ∷ ("chat_type", text "channel")
        ∷ ("user_id", text_or_null (env "HERMES_SESSION_USER_ID"))
        ∷ ("user_name", text_or_null (env "HERMES_SESSION_USER_NAME"))
        ∷ ("thread_id", text_or_null (env "HERMES_SESSION_THREAD_ID"))
        ∷ ("message_id", text_or_null (env "HERMES_SESSION_MESSAGE_ID"))
        ∷ [])

    -- `_resolution_from_session_context`
    unfoldable pub from_session_context : (String → String) → Option OriginResolution
    from_session_context env =
        let platform = env "HERMES_SESSION_PLATFORM" in
        if platform == ""
          || env "HERMES_SESSION_CHAT_ID" == ""
          || elem (normalize_platform (text platform)) local_only_platforms
        then none
        else some (resolution_of_dict (context_source env) skey sid "session_context")

    -- the lookups that need no session context
    unfoldable pub looked_up : Host → OriginIndex → Option OriginResolution
    looked_up host index =
        or_resolution (lookup_store host.session_store)
          (or_resolution (lookup_sessions_file host.sessions_file) (lookup sid skey index))

  abbrev pub or_unavailable : Option OriginResolution → OriginResolution
  or_unavailable none = unavailable
  or_unavailable (some r) = r

  -- a session id or a session key is given, by the caller or by its context
  unfoldable pub is_explicit : String × String → String × String → Bool
  is_explicit given context =
      not (first_text given.0 context.0 == "") || not (first_text given.1 context.1 == "")

  -- the session id and the session key to look for: those given, or else those of the environment
  unfoldable pub wanted_session :
      String × String → String × String → (String → String) → String × String
  wanted_session given context env =
      if is_explicit given context
      then (first_text given.0 context.0, first_text given.1 context.1)
      else (env "HERMES_SESSION_ID", env "HERMES_SESSION_KEY")

  -- what is resolved for a session
  unfoldable pub resolve_session :
      Option SourceObject → Bool → String → String → Host → OriginIndex → OriginResolution
  resolve_session (some object) explicit sid skey host index =
      resolution_from_source object skey sid "explicit"
  resolve_session none explicit sid skey host index = or_unavailable (
      or_resolution (looked_up sid skey host index)
        (if explicit then none else from_session_context sid skey host.session_env))

  -- `resolve_current_origin`; the context's session id and key are "" where they are missing
  unfoldable pub resolve_current_origin :
      Option SourceObject
      → String × String
      → String × String
      → Host
      → OriginIndex
      → OriginResolution
  resolve_current_origin source given context host index =
      let wanted = wanted_session given context host.session_env in
      resolve_session source (is_explicit given context) wanted.0 wanted.1 host index

  -- `remember_gateway_origin`; `session_key` is the gateway's key of the source, or ""
  unfoldable pub remember_gateway_origin :
      Option SourceObject
      → String
      → Option SessionStore
      → OriginIndex
      → OriginResolution × OriginIndex
  remember_gateway_origin none session_key store index = (unavailable, index)
  remember_gateway_origin (some source) session_key store index =
      let entry : Option StoreEntry = elim store [
        | none ↦ none
        | some s ↦ entry_by_key s session_key
      ] in
      let session_id : String = elim entry [ none ↦ "" | some e ↦ e.session_id ] in
      remember source session_key session_id "gateway_event" index
