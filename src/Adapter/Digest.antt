-- ===== src/Adapter/Digest.antt =====
-- The one event that stands for a bucket: `_coalesced_digest`.
use hermes_plugin_async_thre.Prelude.{List, String, [], ◌<>◌, ◌∷◌}
use hermes_plugin_async_thre.Adapter.Buckets.{count_of}
use hermes_plugin_async_thre.Adapter.State.{Pending}
use hermes_plugin_async_thre.IngressDigest.Payload.{select_keys}
use hermes_plugin_async_thre.Privacy.{redact_metadata_text, safe_event_id}
use hermes_plugin_async_thre.Python.Json.{
  Fields, Items, Json, arr, cons, end, field, get, mapping, nil, obj, text,
}
use hermes_plugin_async_thre.Python.Runtime.{Runtime}
use hermes_plugin_async_thre.Python.Text.{clip}
use hermes_plugin_async_thre.Python.Values.{to_str}
use hermes_plugin_async_thre.Security.{EnvelopeFields}

abbrev compact_keys : List String
compact_keys =
    "profile" ∷ "lane" ∷ "issue" ∷ "pr" ∷ "status" ∷ "state" ∷ "verdict" ∷ "head_sha" ∷ "pr_url"
    ∷ "comment_url" ∷ "verification" ∷ "log_path" ∷ "pid" ∷ "delegation_id" ∷ []

module _ ⦃py : Runtime⦄ where
  -- `"|".join(...)` of the event ids
  join_ids : List Pending → String
  join_ids [] = ""
  join_ids (p ∷ []) = p.fields.event_id
  join_ids (p ∷ ps) = p.fields.event_id <> "|" <> join_ids ps

  -- the entry of a digest for one event
  digest_entry : Pending → Json
  unfolding safe_event_id redact_metadata_text
  digest_entry p = obj (
      field "event_id" (text (safe_event_id p.fields.event_id)) (
        field "event_type" (text (redact_metadata_text p.fields.event_type)) (
          field "summary" (text p.fields.summary) (
            field "payload" (obj (select_keys compact_keys (mapping (get "payload" p.data_fields))))
              end))))

  digest_entries : List Pending → Items
  unfolding digest_entry
  digest_entries [] = nil
  digest_entries (p ∷ ps) = cons (digest_entry p) (digest_entries ps)

  -- `_coalesced_digest`: the event that stands for a bucket, and its fields
  unfoldable pub coalesced_data : String → List Pending → String → Fields
  unfolding digest_entries
  coalesced_data key bucket reason = field "tailMode" (text "compact") (
      field "subject"
        (obj (field "thread_key" (text key) (field "coalesced_count" (count_of bucket) end)))
        (field "payload"
          (obj (field "reason" (text reason) (field "events" (arr (digest_entries bucket)) end)))
          end))

  unfoldable pub coalesced_fields : EnvelopeFields → List Pending → EnvelopeFields
  unfolding join_ids clip to_str
  coalesced_fields last_fields bucket = record {
    event_id = "coalesced_" <> clip 16 (py.sha256_hex (join_ids bucket));
    event_type = "async_threads.coalesced";
    producer_id = last_fields.producer_id;
    thread_key = last_fields.thread_key;
    summary = to_str (count_of bucket) <> " async-thread routine events coalesced";
  }
