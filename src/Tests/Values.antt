-- ===== src/Tests/Values.antt =====
-- The theorems on texts, envelopes, signatures and tables, at concrete inputs.
use hermes_plugin_async_thre.Prelude.{
  String, [], elem, false, first, map, none, not, pos, refl, some, true, ◌&&◌, ◌==◌, ◌||◌, ◌↔◌, ◌∷◌,
  ◌≡◌, ◌≤◌, ◌⊎◌,
}
use hermes_plugin_async_thre.Emitter.{
  build_event_envelope, classify_receiver_response, envelope_of, exit_code_for_result, sign_bytes,
  validate_event_envelope,
}
use hermes_plugin_async_thre.Emitter.Responses.{exit_code-classify}
use hermes_plugin_async_thre.Privacy.{sanitize_untrusted_value}
use hermes_plugin_async_thre.Privacy.Depth.{depth, depth-sanitize_untrusted_value}
use hermes_plugin_async_thre.Python.Except.{Except, ok}
use hermes_plugin_async_thre.Python.Json.{Fields, arr, cons, end, field, int, nil, null, obj, text}
use hermes_plugin_async_thre.Python.Text.{clip, has_prefix, is_ascii, lstrip, rstrip, strip}
use hermes_plugin_async_thre.Python.Values.{
  is_type_or_value_error, or_default, str_or_empty, to_int, to_str, truthy,
}
use hermes_plugin_async_thre.Registry.Cursor.{
  advance_source_binding_cursor, cursor_position, is_binding, position_from,
}
use hermes_plugin_async_thre.Registry.CursorLaws.{advance-IsMonotone}
use hermes_plugin_async_thre.Registry.Rows.{Db, SourceBinding, active, empty_db}
use hermes_plugin_async_thre.Registry.Seen.{forget_seen, has_seen, mark_seen}
use hermes_plugin_async_thre.Registry.SeenLaws.{has_seen-forget_seen, mark_seen-first}
use hermes_plugin_async_thre.Security.{
  EnvelopeFields, event_field, extract_envelope_fields, verify_hmac_signature,
}
use hermes_plugin_async_thre.Security.Envelope.{extract-build_event_envelope}
use hermes_plugin_async_thre.Security.Signature.{
  IsHexDigest, signature_accepted_iff, verify-sign_bytes,
}
use hermes_plugin_async_thre.SourceFilters.{dedupe}
use hermes_plugin_async_thre.SourceFilters.Resolved.{IsDistinct, dedupe-IsDistinct}
use hermes_plugin_async_thre.Tests.AsciiRuntime.{ascii_runtime, sample_body}

dedupe-IsDistinct_example :
    IsDistinct (dedupe (" a" ∷ "b" ∷ "a" ∷ "" ∷ []))
    × ((x : String)
        → elem x (dedupe (" a" ∷ "b" ∷ "a" ∷ "" ∷ []))
          ≡ (elem x (map strip (" a" ∷ "b" ∷ "a" ∷ "" ∷ [])) && not (x == "")))
dedupe-IsDistinct_example = dedupe-IsDistinct (" a" ∷ "b" ∷ "a" ∷ "" ∷ [])

depth-sanitize_untrusted_value_example :
    depth (sanitize_untrusted_value (obj (field "token" (arr (cons (text "x") nil)) end))) ≤ 9
depth-sanitize_untrusted_value_example =
    depth-sanitize_untrusted_value (obj (field "token" (arr (cons (text "x") nil)) end))

pub ab12-IsHexDigest : IsHexDigest
unfolding is_ascii lstrip rstrip strip
ab12-IsHexDigest = record {
  ascii = λ secret raw. refl;
  nonempty = λ secret raw. refl;
  plain = λ secret raw. refl;
}

ab12-is_unmarked : has_prefix "sha256=" "ab12" ≡ false
unfolding has_prefix
ab12-is_unmarked = refl

-- a bare digest in upper case
signature_accepted_iff_example :
    (verify_hmac_signature sample_body "s3cret" " AB12 " ≡ ok true)
    ↔ (("s3cret" == "") ≡ false)
      × ((" AB12 " == "") ≡ false)
      × ((ascii_runtime.lower (strip " AB12 ") ≡ "sha256=ab12")
          ⊎ (ascii_runtime.lower (strip " AB12 ") ≡ "ab12"))
signature_accepted_iff_example =
    signature_accepted_iff ab12-IsHexDigest (λ secret raw. ab12-is_unmarked) sample_body "s3cret"
      " AB12 "

signed : sign_bytes sample_body "s3cret" ≡ ok "sha256=ab12"
unfolding sign_bytes
signed = refl

verify-sign_bytes_example : verify_hmac_signature sample_body "s3cret" "sha256=ab12" ≡ ok true
verify-sign_bytes_example = verify-sign_bytes ab12-IsHexDigest sample_body "s3cret" signed

-- an envelope whose `extra` tries to name another listener
abbrev built : Except Fields
built =
    build_event_envelope "ath_1" "ci" "run:1" "ci.run.finished" "done" end none (int (pos 100)) ""
      (field "asyncThread" null (field "stage" (text "started") end))

abbrev built_event : Fields
built_event =
    envelope_of "ath_1" "ci" "run:1" "ci.run.finished" "done" end none (int (pos 100)) ""
      (field "asyncThread" null (field "stage" (text "started") end))

built-ok : built ≡ ok built_event
unfolding build_event_envelope clip envelope_of event_field extract_envelope_fields str_or_empty
    to_str truthy validate_event_envelope
built-ok = refl

extract-build_event_envelope_example :
    (fields : EnvelopeFields) × (extract_envelope_fields built_event ≡ ok fields)
    × (fields.thread_key ≡ clip 200 "ath_1")
    × (fields.producer_id ≡ clip 200 "ci")
    × (fields.event_id ≡ clip 200 "run:1")
    × (fields.event_type ≡ clip 200 "ci.run.finished")
extract-build_event_envelope_example =
    extract-build_event_envelope "ath_1" "ci" "run:1" "ci.run.finished" "done" end none
      (int (pos 100)) "" (field "asyncThread" null (field "stage" (text "started") end)) built-ok

exit_code-classify_example :
    exit_code_for_result (classify_receiver_response (some 503) none "busy" "") ≡ 75
exit_code-classify_example = exit_code-classify (some 503) none "busy" ""

fresh : has_seen "ci" "run:1" empty_db ≡ false
unfolding has_seen
fresh = refl

abbrev marked_db : Db
marked_db = (mark_seen "ci" "run:1" "ath_1" "t0" empty_db).1

mark_seen-first_example :
    ((mark_seen "ci" "run:1" "ath_1" "t0" empty_db).0 ≡ true)
    × ((q f : String)
        → has_seen q f marked_db ≡ (has_seen q f empty_db || ("ci" == q && "run:1" == f)))
mark_seen-first_example = mark_seen-first "ci" "run:1" "ath_1" "t0" empty_db fresh

has_seen-forget_seen_example :
    has_seen "ci" "run:1" (forget_seen "ci" "run:1" marked_db)
    ≡ (has_seen "ci" "run:1" marked_db && not ("ci" == "ci" && "run:1" == "run:1"))
has_seen-forget_seen_example = has_seen-forget_seen "ci" "run:1" "ci" "run:1" marked_db

abbrev sample_binding : SourceBinding
sample_binding = record {
  binding_id = "athb_1";
  owner_user_id = "u1";
  source = "kanban";
  source_ref = end;
  listener_thread_key = "ath_1";
  producer_id = "ci";
  event_filter = end;
  transform = end;
  cursor = field "taskEventId" (int (pos 7)) (field "lastEventId" (text "x") end);
  coalesce = end;
  ingress_digest_policy = end;
  delivery_policy = "agent_queue";
  status = active;
  created_at = "t0";
  updated_at = "t0";
}

abbrev bound_db : Db
bound_db = record empty_db { source_bindings = sample_binding ∷ [] }

at_seven : cursor_position sample_binding.cursor ≡ ok (pos 7)
unfolding cursor_position is_type_or_value_error or_default position_from to_int
at_seven = refl

advance-IsMonotone_example :
    (after : Db) × (b' : SourceBinding) × (advance_source_binding_cursor "athb_1" 9 "t1" bound_db
      ≡ ok (true, after))
    × (first (is_binding "athb_1") after.source_bindings ≡ some b')
    × (cursor_position b'.cursor ≡ ok (pos 9))
advance-IsMonotone_example =
    advance-IsMonotone "athb_1" "t1" 9 7 bound_db sample_binding refl at_seven
