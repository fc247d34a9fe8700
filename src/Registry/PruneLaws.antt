-- ===== src/Registry/PruneLaws.antt =====
-- What can be fetched after `prune_payloads`.
use Prim.Native.String.{compare}
use package.text.Mathlib.Text.{is_lt}
use hermes_plugin_async_thre.Prelude.{
  Bool, Bool-cases, List, String, [], any-append, any-keep-not, arith, eq_iff, false, inl, inr,
  keep, not, refl, some, sym, true, ◌++◌, ◌==◌, ◌||◌, ◌∙◌, ◌∷◌, ◌≡◌,
}
use hermes_plugin_async_thre.Python.Runtime.{Runtime}
use hermes_plugin_async_thre.Registry.Retention.{
  get_event_payload, is_due, is_fetched_by, latest, prune_payloads,
}
use hermes_plugin_async_thre.Registry.RetentionLaws.{get_event_payload-IsOwned}
use hermes_plugin_async_thre.Registry.Rows.{Db, PayloadRow}

latest-keep :
    (p q : PayloadRow → Bool)
    → ((row : PayloadRow) → p row ≡ true → q row ≡ true)
    → (rows : List PayloadRow) → latest p (keep q rows) ≡ latest p rows
latest-keep p q kept [] = refl
latest-keep p q kept (x ∷ xs) = elim (Bool-cases (p x)) [
  | inl e ↦ rw (kept x e) (rw (e, latest-keep p q kept xs) refl)
  | inr e ↦ elim (Bool-cases (q x)) [
    | inl stays ↦ rw stays (rw e (latest-keep p q kept xs))
    | inr goes ↦ rw (goes, e) (latest-keep p q kept xs)
  ]
]

-- no row that is left was due
left-not_due :
    (before owner : String) (db : Db) (row : PayloadRow) (above below : List PayloadRow)
    → (prune_payloads before owner false db).1.event_payloads ≡ above ++ row ∷ below
    → is_due before owner row ≡ false
unfolding prune_payloads
left-not_due before owner db row above below same =
    let none_due = any-keep-not (is_due before owner) db.event_payloads in
    let none_left = rw same at none_due in
    let parts = sym (any-append (is_due before owner) above (row ∷ below)) ∙ none_left in
    ground (arith, parts)

-- a row of another owner is not due
others-stay :
    (before owner asking thread_key : String) (row : PayloadRow)
    → (owner == "") ≡ false
    → (asking == owner) ≡ false
    → is_fetched_by asking thread_key row ≡ true
    → not (is_due before owner row) ≡ true
others-stay before owner asking thread_key row some_owner other fetched =
    let same : row.owner_user_id ≡ asking =
      (eq_iff row.owner_user_id asking).0 (ground (arith, fetched)) in
    rw (same, some_owner, other) (ground arith)

module _ ⦃py : Runtime⦄ where
  -- After the payloads of an owner, or of all owners, that expire before a time are pruned, none that
  -- the owner can fetch expires before that time.
  pub pruned_payload_is_not_fetched :
      (before owner asking pointer_id event_id thread_key : String) (db : Db) (row : PayloadRow)
      → (owner == "" || asking == owner) ≡ true
      → get_event_payload asking pointer_id event_id thread_key
          (prune_payloads before owner false db).1
        ≡ some row
      → is_lt (compare row.expires_at before) ≡ false
  pruned_payload_is_not_fetched before owner asking pointer_id event_id thread_key db row theirs
        found =
      let (_, owned, _, _, above, below, same) =
        get_event_payload-IsOwned asking pointer_id event_id thread_key
          (prune_payloads before owner false db).1 row found in
      let stays = left-not_due before owner db row above below same in
      let stays' = rw owned at stays in ground (arith, stays', theirs)

  -- A pruning of one owner's payloads changes nothing of what any other owner can fetch, and a dry run
  -- reports the same number as the run and changes nothing at all.
  pub pruning_spares_others :
      (before owner asking pointer_id event_id thread_key : String) (db : Db)
      → (owner == "") ≡ false
      → (asking == owner) ≡ false
      → (get_event_payload asking pointer_id event_id thread_key
            (prune_payloads before owner false db).1
          ≡ get_event_payload asking pointer_id event_id thread_key db)
        × (prune_payloads before owner true db ≡ ((prune_payloads before owner false db).0, db))
  unfolding get_event_payload prune_payloads
  pruning_spares_others before owner asking pointer_id event_id thread_key db some_owner other = (
    elim (Bool-cases (asking == "")) [
      | inl a ↦ rw a refl
      | inr a ↦ rw a (elim (Bool-cases (pointer_id == "")) [
        | inr q ↦ rw q (
            latest-keep _ _
              (λ row passes.
                others-stay before owner asking thread_key row some_owner other
                  (ground (arith, passes)))
              db.event_payloads)
        | inl q ↦ rw q (elim (Bool-cases (event_id == "")) [
          | inl none_given ↦ rw none_given refl
          | inr given ↦ rw given (
              latest-keep _ _
                (λ row passes.
                  others-stay before owner asking thread_key row some_owner other
                    (ground (arith, passes)))
                db.event_payloads)
        ])
      ])
    ],
    refl,
  )
