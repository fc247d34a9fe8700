-- ===== src/SourceRunner/State.antt =====
-- What a batch of the runner keeps, and what it takes from outside.
use hermes_plugin_async_thre.Prelude.{
  Bool, List, Option, String, [], elem, false, none, some, true, ℕ, ◌+◌, ◌∷◌,
}
use hermes_plugin_async_thre.Emitter.{EmitResult}
use hermes_plugin_async_thre.Kanban.Board.{BoardRead}
use hermes_plugin_async_thre.Python.Except.{Exc, Except}
use hermes_plugin_async_thre.Python.Json.{Fields, Json}
use hermes_plugin_async_thre.Registry.Outbox.{get_outbox}
use hermes_plugin_async_thre.Registry.Rows.{Db, OutboxRow}

-- `TERMINAL_SAFE_OUTBOX_STATUSES`
abbrev pub terminal_safe_statuses : List String
terminal_safe_statuses = "succeeded" ∷ "duplicate" ∷ "suppressed" ∷ "coalesced" ∷ "error" ∷ []

-- one call of `emit`, with the upstream event that it is made for
pub record Emission : Type 0 where
  pub upstream_event_id : ℕ
  pub envelope : Fields
  pub secret : String

-- `counts`
pub record RunCounts : Type 0 where
  pub emitted : ℕ
  pub duplicate : ℕ
  pub suppressed : ℕ
  pub coalesced : ℕ
  pub retryable_error : ℕ
  pub error : ℕ

-- `_processed_item`
pub record ProcessedItem : Type 0 where
  pub upstream_event_id : ℕ
  pub event_id : String
  pub event_type : String
  pub action : String
  pub status : String

-- the registry and the variables of the loop; `emissions` is what went out so far
pub record RunState : Type 0 where
  pub db : Db
  pub emissions : List Emission
  pub counts : RunCounts
  pub processed : List ProcessedItem

-- how a pass of the loop ends: by `continue`, by `break`, or by an exception that leaves the function
pub data Progress : Type 0 where
  proceeds stops : Progress
  crashes : Exc → Progress

abbrev pub goes_on : Progress → Bool
goes_on proceeds = true
goes_on stops = false
goes_on (crashes e) = false

-- `SourceBindingRunConfig`, the clock, the board's database and the emitter. What the emitter answers
-- may depend on all that was sent before; it may raise, and then the event may have been received.
pub record RunnerEnv : Type 0 where
  pub event_url : String
  pub board_db_path : Json
  pub limit : ℕ
  pub open_board : Json → BoardRead
  pub emit : List Emission → String → Fields → String → Except EmitResult
  pub utc_now : String
  pub utc_now_iso : String

abbrev pub no_counts : RunCounts
no_counts = record {
  emitted = 0;
  duplicate = 0;
  suppressed = 0;
  coalesced = 0;
  retryable_error = 0;
  error = 0;
}

-- `counts[...] += 1`
unfoldable pub count_emitted : RunCounts → RunCounts
count_emitted c = record c { emitted = c.emitted + 1 }

unfoldable pub count_duplicate : RunCounts → RunCounts
count_duplicate c = record c { duplicate = c.duplicate + 1 }

unfoldable pub count_suppressed : RunCounts → RunCounts
count_suppressed c = record c { suppressed = c.suppressed + 1 }

unfoldable pub count_coalesced : RunCounts → RunCounts
count_coalesced c = record c { coalesced = c.coalesced + 1 }

unfoldable pub count_retryable_error : RunCounts → RunCounts
count_retryable_error c = record c { retryable_error = c.retryable_error + 1 }

unfoldable pub count_error : RunCounts → RunCounts
count_error c = record c { error = c.error + 1 }

-- a row that was settled before is not counted
unfoldable pub count_nothing : RunCounts → RunCounts
count_nothing c = c

-- the variables before the loop
abbrev pub run_start : Db → RunState
run_start db = record { db = db; emissions = []; counts = no_counts; processed = [] }

abbrev pub with_run_db : Db → RunState → RunState
with_run_db db st = record st { db = db }

abbrev pub row_status : Option OutboxRow → String
row_status none = ""
row_status (some row) = row.status

-- the status of an event's outbox row, or ""
unfoldable pub outbox_status : String → ℕ → Db → String
unfolding get_outbox
outbox_status binding_id event_id db = row_status (get_outbox binding_id event_id db)

-- the event's outbox row has reached a terminal-safe status
abbrev pub is_settled : String → ℕ → Db → Bool
is_settled binding_id event_id db =
    elem (outbox_status binding_id event_id db) terminal_safe_statuses
