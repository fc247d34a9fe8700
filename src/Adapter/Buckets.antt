-- ===== src/Adapter/Buckets.antt =====
-- The buckets of coalesced events and their timers.
use hermes_plugin_async_thre.Prelude.{
  Bool, List, Option, String, [], any, false, if◌then◌else◌, leb, length, ltb, map, none, not, pos,
  some, suc, true, zero, ℕ, ◌&&◌, ◌++◌, ◌+◌, ◌==◌, ◌||◌, ◌∷◌,
}
use hermes_plugin_async_thre.Adapter.State.{Pending, Receiver, assign, with_db}
use hermes_plugin_async_thre.Python.Json.{Json, int}
use hermes_plugin_async_thre.Registry.Rows.{Db}
use hermes_plugin_async_thre.Registry.Seen.{forget_seen}

-- `pending[-1]`
abbrev pub last_pending : Pending → List Pending → Pending
last_pending p [] = p
last_pending p (q ∷ qs) = last_pending q qs

-- `len(pending)`
abbrev pub count_of : List Pending → Json
count_of bucket = int (pos (length bucket))

-- `max(item["attempts"] for item in pending)`
abbrev pub max_attempts : List Pending → ℕ
max_attempts [] = 0
max_attempts (p ∷ ps) =
    let others = max_attempts ps in if leb p.attempts others then others else p.attempts

abbrev pub with_attempts : ℕ → Pending → Pending
with_attempts n p = record p { attempts = n }

-- `max(1, min(debounce_seconds or 1, 30))`
abbrev pub retry_delay : ℕ → ℕ
retry_delay zero = 1
retry_delay (suc n) = if ltb 30 (suc n) then 30 else suc n

-- the marks of all the events of a bucket are taken back
unfoldable pub forget_all : List Pending → Db → Db
forget_all [] db = db
forget_all (p ∷ ps) db = forget_all ps (forget_seen p.fields.producer_id p.fields.event_id db)

-- a timer for the bucket of a listener, unless the bucket is empty or has one
unfoldable pub start_timer : String → List Pending → Option ℕ → Receiver → Receiver
start_timer key [] timer st = st
start_timer key (p ∷ ps) (some delay) st = st
start_timer key (p ∷ ps) none st = record st {
  timers = assign key (some (retry_delay (last_pending p ps).handle.debounce_seconds)) st.timers;
}

-- `_reschedule_coalesced_if_needed`, where no timer of this listener is running
unfoldable pub reschedule : String → Receiver → Receiver
reschedule key st = start_timer key (st.coalesced key) (st.timers key) st

-- `_requeue_failed_coalesced`; false after the third attempt or once the receiver has stopped
unfoldable pub requeue_failed : String → List Pending → Receiver → Bool × Receiver
requeue_failed key bucket st =
    let attempts = max_attempts bucket + 1 in
    if ltb 3 attempts || not st.running then (false, st) else (
      true,
      reschedule key (record st {
        coalesced =
            assign key (map (with_attempts attempts) bucket ++ st.coalesced key) st.coalesced;
      }),
    )

-- `_pop_coalesced`: the timer is cancelled, the bucket is emptied
unfoldable pub pop_coalesced : String → Receiver → Receiver
pop_coalesced key st = record st {
  coalesced = assign key [] st.coalesced;
  timers = assign key none st.timers;
}

-- `_pending_coalesced_contains`
unfoldable pub pending_contains : String → String → String → Receiver → Bool
pending_contains key producer_id event_id st =
    let this : Pending → Bool =
      λ p. p.fields.producer_id == producer_id && p.fields.event_id == event_id in
    any this (st.coalesced key) || any this (st.inflight key)

-- a bucket whose dispatch failed is put back, or all its marks are taken back
unfoldable pub give_back : String → List Pending → Receiver → Receiver
give_back key bucket st =
    let requeued = requeue_failed key bucket st in
    if requeued.0 then requeued.1 else with_db (forget_all bucket st.db) st
