-- ===== src/Registry/Outbox.antt =====
-- The outbox of a source binding: one row for each upstream event, unique by binding and event.
use hermes_plugin_async_thre.Prelude.{
  Bool, Option, String, [], any, first, if◌then◌else◌, nat_eq, none, some, update_where, ℕ, ◌&&◌,
  ◌++◌, ◌+◌, ◌==◌, ◌∷◌,
}
use hermes_plugin_async_thre.Privacy.{redact_metadata_text, redact_secret_text, safe_event_id}
use hermes_plugin_async_thre.Python.Json.{Fields, obj}
use hermes_plugin_async_thre.Python.Runtime.{Runtime}
use hermes_plugin_async_thre.Python.Text.{clean_token}
use hermes_plugin_async_thre.Registry.Bindings.{redacted_mapping}
use hermes_plugin_async_thre.Registry.Rows.{Db, OutboxRow}

abbrev pub is_outbox_row : String → ℕ → OutboxRow → Bool
is_outbox_row binding_id event_id row =
    row.binding_id == binding_id && nat_eq row.upstream_event_id event_id

unfoldable pub get_outbox : String → ℕ → Db → Option OutboxRow
get_outbox binding_id event_id db = first (is_outbox_row binding_id event_id) db.outbox

module _ ⦃py : Runtime⦄ where
  unfoldable pub new_outbox :
      String → ℕ → String → String → String → Fields → String → Db → OutboxRow
  unfolding safe_event_id redact_metadata_text redacted_mapping
  new_outbox binding_id upstream_event_id ath_event_id event_type action envelope now db = record {
    id = db.next_outbox_id;
    binding_id = binding_id;
    upstream_event_id = upstream_event_id;
    ath_event_id = safe_event_id ath_event_id;
    event_type = redact_metadata_text event_type;
    action = redact_metadata_text action;
    status = "pending";
    attempts = 0;
    http_status = none;
    receiver_status = "";
    last_error = "";
    envelope = redacted_mapping (obj envelope);
    created_at = now;
    updated_at = now;
  }

  -- `upsert_source_binding_outbox`: an existing row stays as it is. The row that the source reads
  -- back is `get_outbox` of the result.
  unfoldable pub upsert_source_binding_outbox :
      String → ℕ → String → String → String → Fields → String → Db → Db
  unfolding get_outbox new_outbox
  upsert_source_binding_outbox binding_id upstream_event_id ath_event_id event_type action envelope
        now db =
      elim (get_outbox binding_id upstream_event_id db) [
        | some row ↦ db
        | none ↦ record db {
          outbox =
              db.outbox
              ++ new_outbox binding_id upstream_event_id ath_event_id event_type action envelope now
                  db
                ∷ [];
          next_outbox_id = db.next_outbox_id + 1;
        }
      ]

  -- `mark_source_binding_outbox`: the columns it writes, in a row
  unfoldable pub marked :
      String → String → Option ℕ → String → Bool → String → OutboxRow → OutboxRow
  unfolding clean_token redact_metadata_text redact_secret_text
  marked status error http_status receiver_status increments now row = record row {
    status = clean_token status "pending" 100;
    attempts = row.attempts + (if increments then 1 else 0);
    http_status = http_status;
    receiver_status = redact_metadata_text receiver_status;
    last_error = redact_secret_text error 1000 500;
    updated_at = now;
  }

  unfoldable pub mark_source_binding_outbox :
      String → ℕ → String → String → Option ℕ → String → Bool → String → Db → Bool × Db
  unfolding marked
  mark_source_binding_outbox binding_id upstream_event_id status error http_status receiver_status
        increments now db =
      (
        any (is_outbox_row binding_id upstream_event_id) db.outbox,
        record db {
          outbox =
              update_where (is_outbox_row binding_id upstream_event_id)
                (marked status error http_status receiver_status increments now) db.outbox;
        },
      )
