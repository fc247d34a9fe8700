-- ===== src/Tests/Origins.antt =====
-- A tool call of a session that the gateway captured before.
use hermes_plugin_async_thre.Prelude.{List, [], none, refl, some, true, ◌∷◌, ◌≡◌}
use hermes_plugin_async_thre.Emitter.{envelope_of}
use hermes_plugin_async_thre.Origin.Index.{
  asks_for, candidate_for, find_entry, is_routable, lookup, matching, normalize_platform,
  or_resolution, remember, resolution_from_source, resolution_matches, resolution_of_dict,
  set_entry, stored_under,
}
use hermes_plugin_async_thre.Origin.Resolve.{
  Host, context_source, entry_by_id, entry_by_key, first_text, from_entry, from_file_entries,
  from_file_entry, from_session_context, from_store_entry, is_explicit, looked_up,
  lookup_sessions_file, lookup_store, resolve_current_origin, resolve_session, wanted_session,
}
use hermes_plugin_async_thre.Origin.Trusted.{Captured, index_after, resolved_origin_is_wanted}
use hermes_plugin_async_thre.Python.Json.{Fields, dict, text}
use hermes_plugin_async_thre.Python.Text.{lstrip, rstrip, strip}
use hermes_plugin_async_thre.Python.Values.{or_value, str_or_empty, to_str, truthy}
use hermes_plugin_async_thre.Tests.AsciiRuntime.{ascii_runtime}

abbrev chat : Fields
chat = dict (("platform", text "Discord") ∷ ("chat_id", text "c1") ∷ ("user_id", text "u1") ∷ [])

abbrev captures : List Captured
captures =
    record {
      source = record { converted = some chat };
      session_key = "k1";
      session_id = "s1";
      source_kind = "gateway_event";
    }
    ∷ record {
      source = record { converted = some (dict (("platform", text "cli") ∷ [])) };
      session_key = "k2";
      session_id = "s1";
      source_kind = "gateway_event";
    }
    ∷ []

-- no store, no file, and a context of another chat
abbrev host : Host
host = record { session_store = none; sessions_file = none; session_env = λ name. "other" }

finds : (resolve_current_origin none (" s1 ", "") ("", "") host (index_after captures)).is_ok ≡ true
unfolding or_resolution asks_for candidate_for context_source entry_by_id entry_by_key envelope_of
    find_entry first_text from_entry from_file_entries from_file_entry from_session_context
    from_store_entry index_after is_explicit is_routable looked_up lookup lookup_sessions_file
    lookup_store lstrip matching normalize_platform or_value remember resolution_from_source
    resolution_matches resolution_of_dict resolve_current_origin resolve_session rstrip set_entry
    stored_under str_or_empty strip to_str truthy wanted_session
finds = refl

resolved_origin_is_wanted_example :
    let r = resolve_current_origin none (" s1 ", "") ("", "") host (index_after captures) in
    let wanted = wanted_session (" s1 ", "") ("", "") host.session_env in
    (is_routable r.source_dict ≡ true)
    × (asks_for wanted.0 r.session_id ≡ true)
    × (asks_for wanted.1 r.session_key ≡ true)
resolved_origin_is_wanted_example =
    resolved_origin_is_wanted none (" s1 ", "") ("", "") host captures finds
