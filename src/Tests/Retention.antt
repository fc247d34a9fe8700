-- ===== src/Tests/Retention.antt =====
-- A registry with one payload that is due and one that is not.
use Prim.Native.String.{compare}
use package.text.Mathlib.Text.{is_lt}
use hermes_plugin_async_thre.Prelude.{
  List, String, [], false, none, refl, some, true, ◌++◌, ◌==◌, ◌||◌, ◌∷◌, ◌≡◌,
}
use hermes_plugin_async_thre.IngressDigest.Policy.{redacted}
use hermes_plugin_async_thre.Privacy.{
  clip_output, fingerprint, redact_metadata, redact_secret_text, safe_event_id,
}
use hermes_plugin_async_thre.Python.Json.{end}
use hermes_plugin_async_thre.Python.Text.{
  clip, contains, has_prefix, lstrip, rstrip, strip, text_length,
}
use hermes_plugin_async_thre.Registry.PruneLaws.{
  pruned_payload_is_not_fetched, pruning_spares_others,
}
use hermes_plugin_async_thre.Registry.Retention.{get_event_payload, prune_payloads}
use hermes_plugin_async_thre.Registry.RetentionLaws.{get_event_payload-IsOwned, is_named}
use hermes_plugin_async_thre.Registry.Rows.{Db, PayloadRow, empty_db}
use hermes_plugin_async_thre.Tests.AsciiRuntime.{ascii_runtime}

abbrev payload : String → String → String → PayloadRow
payload pointer_id owner expires_at = record {
  pointer_id = pointer_id;
  owner_user_id = owner;
  thread_key = "ath_1";
  producer_id = "ci";
  event_id = "run:1";
  event_type = "ci.run.finished";
  source_binding_id = "";
  storage_mode = redacted;
  redacted_payload = end;
  raw_payload = end;
  digest = end;
  diagnostics = end;
  created_at = "2026-01-01";
  expires_at = expires_at;
}

abbrev due_row : PayloadRow
due_row = payload "athp_1" "u1" "2026-01-02"

abbrev stored_db : Db
stored_db = record empty_db { event_payloads = due_row ∷ payload "athp_2" "u2" "2026-01-09" ∷ [] }

-- the run removes one payload of two
prunes_one : (prune_payloads "2026-01-05" "" false stored_db).0 ≡ 1
unfolding prune_payloads
prunes_one = refl

fetched : get_event_payload "u1" "athp_1" "" "" stored_db ≡ some due_row
unfolding clip clip_output contains fingerprint get_event_payload has_prefix lstrip redact_metadata
    redact_secret_text rstrip safe_event_id strip text_length
fetched = refl

-- another owner's pointer gives nothing
not_fetched : get_event_payload "u2" "athp_1" "" "" stored_db ≡ none
unfolding clip clip_output contains fingerprint get_event_payload has_prefix lstrip redact_metadata
    redact_secret_text rstrip safe_event_id strip text_length
not_fetched = refl

get_event_payload-IsOwned_example :
    (("u1" == "") ≡ false)
    × (due_row.owner_user_id ≡ "u1")
    × (("" == "" || due_row.thread_key == "") ≡ true)
    × (is_named "athp_1" "" due_row ≡ true)
    × (before : List PayloadRow) × (after : List PayloadRow) × (stored_db.event_payloads
        ≡ before ++ due_row ∷ after)
get_event_payload-IsOwned_example =
    get_event_payload-IsOwned "u1" "athp_1" "" "" stored_db due_row fetched

-- the payload of `u2` outlives a pruning of all owners
still_fetched :
    get_event_payload "u2" "athp_2" "" "" (prune_payloads "2026-01-05" "" false stored_db).1
    ≡ some (payload "athp_2" "u2" "2026-01-09")
unfolding clip clip_output contains fingerprint get_event_payload has_prefix lstrip prune_payloads
    redact_metadata redact_secret_text rstrip safe_event_id strip text_length
still_fetched = refl

pruned_payload_is_not_fetched_example : is_lt (compare "2026-01-09" "2026-01-05") ≡ false
pruned_payload_is_not_fetched_example =
    pruned_payload_is_not_fetched "2026-01-05" "" "u2" "athp_2" "" "" stored_db
      (payload "athp_2" "u2" "2026-01-09") refl still_fetched

pruning_spares_others_example :
    (get_event_payload "u1" "athp_1" "" "" (prune_payloads "2026-01-12" "u2" false stored_db).1
      ≡ get_event_payload "u1" "athp_1" "" "" stored_db)
    × (prune_payloads "2026-01-12" "u2" true stored_db
        ≡ ((prune_payloads "2026-01-12" "u2" false stored_db).0, stored_db))
pruning_spares_others_example =
    pruning_spares_others "2026-01-12" "u2" "u1" "athp_1" "" "" stored_db refl refl
