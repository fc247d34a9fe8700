-- ===== src/Adapter/Failure.antt =====
-- What is left after a dispatch that failed.
use package.text.Mathlib.TextPositions.{eq_refl}
use hermes_plugin_async_thre.Prelude.{
  All, Bool, Bool-cases, List, Option, String, [], any, ap, arith, false, inl, inr, leb, ltb, map,
  none, not, refl, some, true, ℕ, ◌&&◌, ◌++◌, ◌+◌, ◌==◌, ◌||◌, ◌∙◌, ◌∷◌, ◌≡◌, ◌≤◌, ◌⊎◌,
}
use hermes_plugin_async_thre.Adapter.Ack.{note}
use hermes_plugin_async_thre.Adapter.Buckets.{
  forget_all, give_back, max_attempts, requeue_failed, reschedule, start_timer, with_attempts,
}
use hermes_plugin_async_thre.Adapter.Coalesce.{coalesced_notes, settle_flush}
use hermes_plugin_async_thre.Adapter.Dispatch.{dispatch_event}
use hermes_plugin_async_thre.Adapter.Receive.{dispatch_now, settle}
use hermes_plugin_async_thre.Adapter.State.{
  Config, Failure, Gateway, Pending, Receiver, assign, error_reply, failed, with_db,
}
use hermes_plugin_async_thre.IngressDigest.Policy.{IngressDigestPolicy}
use hermes_plugin_async_thre.Python.Json.{Fields}
use hermes_plugin_async_thre.Python.Runtime.{Runtime}
use hermes_plugin_async_thre.Registry.EventLog.{log_event}
use hermes_plugin_async_thre.Registry.Rows.{Db, Handle, PayloadRow}
use hermes_plugin_async_thre.Registry.Seen.{forget_seen, has_seen}
use hermes_plugin_async_thre.Registry.SeenLaws.{has_seen-forget_seen}
use hermes_plugin_async_thre.Security.{EnvelopeFields}

-- `forget_seen` of one event after another never makes a mark
has_seen-forget_all :
    (bucket : List Pending) (q f : String) (db : Db)
    → has_seen q f db ≡ false
    → has_seen q f (forget_all bucket db) ≡ false
unfolding forget_all
has_seen-forget_all [] q f db h = h
has_seen-forget_all (p ∷ ps) q f db h =
    has_seen-forget_all ps q f (forget_seen p.fields.producer_id p.fields.event_id db)
      (has_seen-forget_seen p.fields.producer_id p.fields.event_id q f db ∙ rw h refl)

-- no event of a bucket has a mark
unfoldable pub NoMarks : Db → Pending → Type 0
NoMarks db p = has_seen p.fields.producer_id p.fields.event_id db ≡ false

forget_all-NoMarks : (bucket : List Pending) (db : Db) → All (NoMarks (forget_all bucket db)) bucket
unfolding NoMarks forget_all
forget_all-NoMarks [] db = tt
forget_all-NoMarks (p ∷ ps) db = (
  has_seen-forget_all ps p.fields.producer_id p.fields.event_id
      (forget_seen p.fields.producer_id p.fields.event_id db)
      (has_seen-forget_seen p.fields.producer_id p.fields.event_id p.fields.producer_id
          p.fields.event_id db
        ∙ rw (eq_refl p.fields.producer_id) (rw (eq_refl p.fields.event_id) (ground arith))),
  forget_all-NoMarks ps (forget_seen p.fields.producer_id p.fields.event_id db),
)

-- a timer is set and nothing else
start_timer-frame :
    (key : String) (bucket : List Pending) (timer : Option ℕ) (st : Receiver)
    → ((start_timer key bucket timer st).coalesced ≡ st.coalesced)
      × ((start_timer key bucket timer st).db ≡ st.db)
unfolding start_timer
start_timer-frame key [] timer st = (refl, refl)
start_timer-frame key (p ∷ ps) (some delay) st = (refl, refl)
start_timer-frame key (p ∷ ps) none st = (refl, refl)

-- the bucket of a failed flush that is put back
requeue_failed-bucket :
    (key : String) (bucket : List Pending) (st : Receiver)
    → (ltb 3 (max_attempts bucket + 1) || not st.running) ≡ false
    → ((requeue_failed key bucket st).0 ≡ true)
      × ((requeue_failed key bucket st).1.coalesced key
          ≡ map (with_attempts (max_attempts bucket + 1)) bucket ++ st.coalesced key)
      × ((requeue_failed key bucket st).1.db ≡ st.db)
unfolding requeue_failed reschedule
requeue_failed-bucket key bucket st c =
    let again = map (with_attempts (max_attempts bucket + 1)) bucket ++ st.coalesced key in
    let put_back = record st { coalesced = assign key again st.coalesced } in
    let (buckets, same) =
      start_timer-frame key (put_back.coalesced key) (put_back.timers key) put_back in
    rw (requeue_failed, c) (refl, ap (λ b. b key) buckets ∙ rw (eq_refl key) refl, same)

requeue_failed-gives_up :
    (key : String) (bucket : List Pending) (st : Receiver)
    → (ltb 3 (max_attempts bucket + 1) || not st.running) ≡ true
    → (requeue_failed key bucket st).0 ≡ false
unfolding requeue_failed
requeue_failed-gives_up key bucket st c = rw (requeue_failed, c) refl

-- fewer than `n` attempts were made for the event
unfoldable pub TriedLess : ℕ → Pending → Type 0
TriedLess n p = p.attempts + 1 ≤ n

TriedLess-above :
    (n : ℕ) (bucket : List Pending) → max_attempts bucket + 1 ≤ n → All (TriedLess n) bucket
unfolding TriedLess
TriedLess-above n [] h = tt
TriedLess-above n (p ∷ ps) h =
    let others = max_attempts ps in
    elim (Bool-cases (leb p.attempts others)) [
      | inl le ↦ let h' = rw le at h in (ground (arith, le, h'), TriedLess-above n ps h')
      | inr gt ↦ let h' = rw gt at h in (h', TriedLess-above n ps (ground (arith, gt, h')))
    ]

-- three attempts or more were made for one of the events, or the receiver has stopped
abbrev pub gave_up : List Pending → Receiver → Bool
gave_up bucket st = any (λ p. leb 3 p.attempts) bucket || not st.running

tried_out-any :
    (bucket : List Pending)
    → ltb 3 (max_attempts bucket + 1) ≡ true
    → any (λ p. leb 3 p.attempts) bucket ≡ true
tried_out-any [] h = cc
tried_out-any (p ∷ ps) h = elim (Bool-cases (leb p.attempts (max_attempts ps))) [
  | inl le ↦ rw (tried_out-any ps (rw le at h)) (ground arith)
  | inr gt ↦ let h' = rw gt at h in ground (arith, h')
]

requeue_test-gave_up :
    (bucket : List Pending) (st : Receiver)
    → (ltb 3 (max_attempts bucket + 1) || not st.running) ≡ true
    → gave_up bucket st ≡ true
requeue_test-gave_up bucket st h = elim (Bool-cases (ltb 3 (max_attempts bucket + 1))) [
  | inl out ↦ rw (tried_out-any bucket out) refl
  | inr in_time ↦ ground (arith, in_time, h)
]

-- what is left of a bucket that was given back
unfoldable pub KeptOrForgotten : String → List Pending → Receiver → Receiver → Type 0
KeptOrForgotten key bucket before after =
    ((n : ℕ) × (n ≤ 3)
      × (n ≡ max_attempts bucket + 1)
      × All (TriedLess n) bucket
      × (after.coalesced key ≡ map (with_attempts n) bucket ++ before.coalesced key)
      × (after.db.seen_events ≡ before.db.seen_events))
    ⊎ ((gave_up bucket before ≡ true) × All (NoMarks after.db) bucket)

give_back-KeptOrForgotten :
    (key : String) (bucket : List Pending) (st : Receiver)
    → KeptOrForgotten key bucket st (give_back key bucket st)
unfolding KeptOrForgotten give_back
give_back-KeptOrForgotten key bucket st =
    elim (Bool-cases (ltb 3 (max_attempts bucket + 1) || not st.running)) [
      | inl c ↦
          rw (KeptOrForgotten, give_back, requeue_failed-gives_up key bucket st c)
            (inr (requeue_test-gave_up bucket st c, forget_all-NoMarks bucket st.db))
      | inr c ↦
          let (back, buckets, same) = requeue_failed-bucket key bucket st c in
          rw (KeptOrForgotten, give_back, back)
            (inl (
              max_attempts bucket + 1,
              ground (arith, c),
              refl,
              TriedLess-above (max_attempts bucket + 1) bucket (omega arith),
              buckets,
              ap (λ db. db.seen_events) same,
            ))
    ]

module _ ⦃py : Runtime⦄ (cfg : Config) (g : Gateway) where
  -- A single event whose dispatch failed is answered by 502, and of all the marks just its own is
  -- taken back, so that the producer may send it again.
  pub failed_dispatch_is_forgotten :
      (h : Handle) (d : Fields) (fields : EnvelopeFields) (policy : IngressDigestPolicy)
      (payload : Option PayloadRow) (st : Receiver) (e : Failure)
      → (dispatch_event g h d fields policy payload st.deliveries).0 ≡ failed e
      → ((dispatch_now cfg g h d fields policy payload st).0
          ≡ error_reply 502 "event dispatch failed")
        × ((q f : String)
            → has_seen q f (dispatch_now cfg g h d fields policy payload st).1.db
              ≡ (has_seen q f st.db && not (fields.producer_id == q && fields.event_id == f)))
  unfolding dispatch_now settle log_event forget_seen has_seen
  failed_dispatch_is_forgotten h d fields policy payload st e h' =
      rw (dispatch_now, h')
        (refl, λ q f. has_seen-forget_seen fields.producer_id fields.event_id q f st.db)

  -- A bucket whose dispatch failed, in a flush that got as far as the dispatch, is not lost. Either
  -- it stands again at the head of its listener's bucket, with all marks as they were, and each of its
  -- events carries one attempt more than any of them had, which is the third at most; or three attempts
  -- were made for one of them before, or the receiver has stopped, and no event of it has a mark, so
  -- that the producers may send them again.
  pub failed_flush_keeps_or_forgets :
      (key reason : String) (bucket : List Pending) (fields : EnvelopeFields) (e : Failure)
      (st : Receiver)
      → KeptOrForgotten key bucket st (settle_flush cfg g key bucket reason fields (failed e) st)
  unfolding settle_flush log_event KeptOrForgotten
  failed_flush_keeps_or_forgets key reason bucket fields e st =
      give_back-KeptOrForgotten key bucket (
        with_db
          (log_event fields "dispatch_failed"
            (note "exception_message" e.message (
              note "exception_class" e.exception_class
                (coalesced_notes cfg g bucket reason e.detail)))
            g.utc_now st.db)
          st)
