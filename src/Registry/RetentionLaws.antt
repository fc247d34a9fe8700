-- ===== src/Registry/RetentionLaws.antt =====
-- Which stored payload is fetched, and for whom.
use Prim.Native.String.{compare}
use package.text.Mathlib.Text.{is_lt}
use hermes_plugin_async_thre.Prelude.{
  Bool, Bool-cases, List, Option-cases, String, [], ap, arith, eq_iff, false, if◌then◌else◌, inl,
  inr, some, true, ◌++◌, ◌==◌, ◌||◌, ◌∙◌, ◌∷◌, ◌≡◌,
}
use hermes_plugin_async_thre.Privacy.{safe_event_id}
use hermes_plugin_async_thre.Python.Runtime.{Runtime}
use hermes_plugin_async_thre.Python.Text.{clip, strip}
use hermes_plugin_async_thre.Registry.Retention.{get_event_payload, latest}
use hermes_plugin_async_thre.Registry.Rows.{Db, PayloadRow}

-- a row that `latest` finds passes the test and stands in the table
latest-found :
    (p : PayloadRow → Bool) (rows : List PayloadRow) (row : PayloadRow)
    → latest p rows ≡ some row
    → (p row ≡ true)
      × (before : List PayloadRow) × (after : List PayloadRow) × (rows ≡ before ++ row ∷ after)
latest-found p [] row h = cc
latest-found p (x ∷ xs) row h = elim (Bool-cases (p x)) [
  | inr e ↦
      let (passes, before, after, same) = latest-found p xs row (rw e at h) in
      (passes, x ∷ before, after, ap (λ (ys : List PayloadRow). x ∷ ys) same)
  | inl e ↦ elim (Option-cases (latest p xs)) [
    | inl absent ↦
        let head : some x ≡ some row = rw (e, absent) at h in
        let x_row : x ≡ row = cc in (rw⁻¹ x_row e, [], xs, ap (λ (y : PayloadRow). y ∷ xs) x_row)
    | inr (other, there) ↦ elim (Bool-cases (is_lt (compare x.created_at other.created_at))) [
      | inr lt ↦
          let head : some x ≡ some row = rw (e, there, lt) at h in
          let x_row : x ≡ row = cc in (rw⁻¹ x_row e, [], xs, ap (λ (y : PayloadRow). y ∷ xs) x_row)
      | inl lt ↦
          let head : some other ≡ some row = rw (e, there, lt) at h in
          let (passes, before, after, same) = latest-found p xs row (there ∙ head) in
          (passes, x ∷ before, after, ap (λ (ys : List PayloadRow). x ∷ ys) same)
    ]
  ]
]

-- the row has the name that was asked for: the pointer, or else the event id
abbrev pub is_named : ⦃py : Runtime⦄ → String → String → PayloadRow → Bool
is_named ⦃py⦄ pointer_id event_id row =
    if pointer_id == ""
    then row.event_id == safe_event_id event_id
    else row.pointer_id == clip 200 (strip pointer_id)

module _ ⦃py : Runtime⦄ where
  -- A payload that is fetched is a row of the table, of the owner who asks, who is not empty, and of
  -- the listener that is named, if one is; it has the pointer that is asked for, or the event id where
  -- no pointer is given.
  pub get_event_payload-IsOwned :
      (owner pointer_id event_id thread_key : String) (db : Db) (row : PayloadRow)
      → get_event_payload owner pointer_id event_id thread_key db ≡ some row
      → ((owner == "") ≡ false)
        × (row.owner_user_id ≡ owner)
        × ((thread_key == "" || row.thread_key == thread_key) ≡ true)
        × (is_named pointer_id event_id row ≡ true)
        × (before : List PayloadRow) × (after : List PayloadRow) × (db.event_payloads
            ≡ before ++ row ∷ after)
  unfolding get_event_payload
  get_event_payload-IsOwned owner pointer_id event_id thread_key db row found =
      elim (Bool-cases (owner == "")) [
        | inl o ↦ let h = rw o at found in cc
        | inr o ↦
            let h = rw o at found in
            elim (Bool-cases (pointer_id == "")) [
              | inr q ↦
                  let (passes, before, after, same) =
                    latest-found _ db.event_payloads row (rw q at h) in
                  (
                    o,
                    (eq_iff row.owner_user_id owner).0 (ground (arith, passes)),
                    ground (arith, passes),
                    rw q (ground (arith, passes)),
                    before,
                    after,
                    same,
                  )
              | inl q ↦
                  let h' = rw q at h in
                  elim (Bool-cases (event_id == "")) [
                    | inl none_given ↦ let h'' = rw none_given at h' in cc
                    | inr given ↦
                        let (passes, before, after, same) =
                          latest-found _ db.event_payloads row (rw given at h') in
                        (
                          o,
                          (eq_iff row.owner_user_id owner).0 (ground (arith, passes)),
                          ground (arith, passes),
                          rw q (ground (arith, passes)),
                          before,
                          after,
                          same,
                        )
                  ]
            ]
      ]
