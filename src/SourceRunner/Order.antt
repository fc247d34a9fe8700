-- ===== src/SourceRunner/Order.antt =====
-- The events of a batch come in ascending order.
use hermes_plugin_async_thre.Prelude.{
  All, Bool, Bool-cases, List, String, [], arith, false, inl, inr, keep, ltb, nat_eq, true, ℕ, ◌<◌,
  ◌∷◌, ◌≡◌, ◌≤◌,
}
use hermes_plugin_async_thre.Kanban.Board.{insert_by_id, is_selected, order_by_id}
use hermes_plugin_async_thre.Kanban.Transform.{KanbanTaskEvent}

-- the ids rise, from above `c`
abbrev pub Ascending : ℕ → List KanbanTaskEvent → Type 0
Ascending c [] = Unit
Ascending c (e ∷ es) = (c < e.id) × Ascending e.id es

-- no row has that id
abbrev pub Lacks : ℕ → List KanbanTaskEvent → Type 0
Lacks n [] = Unit
Lacks n (e ∷ es) = (nat_eq n e.id ≡ false) × Lacks n es

-- the ids of a board's rows differ, since `id` is the primary key
abbrev pub DistinctIds : List KanbanTaskEvent → Type 0
DistinctIds [] = Unit
DistinctIds (e ∷ es) = Lacks e.id es × DistinctIds es

Ascending-lower : (c d : ℕ) (es : List KanbanTaskEvent) → c ≤ d → Ascending d es → Ascending c es
Ascending-lower c d [] h a = tt
Ascending-lower c d (e ∷ es) h a = (omega (arith, h, a.0), a.1)

insert-Ascending :
    (c : ℕ) (x : KanbanTaskEvent) (es : List KanbanTaskEvent)
    → c < x.id
    → Lacks x.id es
    → Ascending c es
    → Ascending c (insert_by_id x es)
unfolding insert_by_id
insert-Ascending c x [] h l a = (h, tt)
insert-Ascending c x (e ∷ es) h l a = elim (Bool-cases (ltb e.id x.id)) [
  | inl q ↦ rw (insert_by_id, q) (a.0, insert-Ascending e.id x es (ground (arith, q)) l.1 a.1)
  | inr q ↦ rw (insert_by_id, q) (h, (ground (arith, q, l.0), a.1))
]

insert-Lacks :
    (n : ℕ) (x : KanbanTaskEvent) (es : List KanbanTaskEvent)
    → nat_eq n x.id ≡ false
    → Lacks n es
    → Lacks n (insert_by_id x es)
unfolding insert_by_id
insert-Lacks n x [] h l = (h, tt)
insert-Lacks n x (e ∷ es) h l = elim (Bool-cases (ltb e.id x.id)) [
  | inl q ↦ rw (insert_by_id, q) (l.0, insert-Lacks n x es h l.1)
  | inr q ↦ rw (insert_by_id, q) (h, l)
]

order-Lacks : (n : ℕ) (es : List KanbanTaskEvent) → Lacks n es → Lacks n (order_by_id es)
unfolding order_by_id
order-Lacks n [] l = tt
order-Lacks n (e ∷ es) l = insert-Lacks n e (order_by_id es) l.0 (order-Lacks n es l.1)

order-Ascending :
    (c : ℕ) (es : List KanbanTaskEvent)
    → All (λ e. c < e.id) es
    → DistinctIds es
    → Ascending c (order_by_id es)
unfolding order_by_id
order-Ascending c [] h d = tt
order-Ascending c (e ∷ es) h d =
    insert-Ascending c e (order_by_id es) h.0 (order-Lacks e.id es d.0)
      (order-Ascending c es h.1 d.1)

module _ (p : KanbanTaskEvent → Bool) where
  keep-Lacks : (n : ℕ) (es : List KanbanTaskEvent) → Lacks n es → Lacks n (keep p es)
  keep-Lacks n [] l = tt
  keep-Lacks n (e ∷ es) l = elim (Bool-cases (p e)) [
    | inl q ↦ rw q (l.0, keep-Lacks n es l.1)
    | inr q ↦ rw q (keep-Lacks n es l.1)
  ]

  keep-DistinctIds : (es : List KanbanTaskEvent) → DistinctIds es → DistinctIds (keep p es)
  keep-DistinctIds [] d = tt
  keep-DistinctIds (e ∷ es) d = elim (Bool-cases (p e)) [
    | inl q ↦ rw q (keep-Lacks e.id es d.0, keep-DistinctIds es d.1)
    | inr q ↦ rw q (keep-DistinctIds es d.1)
  ]

  keep-All :
      (Q : KanbanTaskEvent → Type 0) (es : List KanbanTaskEvent)
      → ((e : KanbanTaskEvent) → p e ≡ true → Q e)
      → All Q (keep p es)
  keep-All Q [] h = tt
  keep-All Q (e ∷ es) h = elim (Bool-cases (p e)) [
    | inl q ↦ rw q (h e q, keep-All Q es h)
    | inr q ↦ rw q (keep-All Q es h)
  ]

  -- What holds of each row that passes, from what holds of the rows that are kept.
  pub All-kept :
      (Q : KanbanTaskEvent → Type 0) (es : List KanbanTaskEvent)
      → All Q (keep p es)
      → All (λ e. p e ≡ true → Q e) es
  All-kept Q [] h = tt
  All-kept Q (e ∷ es) h = elim (Bool-cases (p e)) [
    | inl q ↦ let both = rw q at h in ((λ _. both.0), All-kept Q es both.1)
    | inr q ↦ ((λ g. cc), All-kept Q es (rw q at h))
  ]

All-insert :
    (Q : KanbanTaskEvent → Type 0) (x : KanbanTaskEvent) (es : List KanbanTaskEvent)
    → All Q (insert_by_id x es)
    → Q x × All Q es
unfolding insert_by_id
All-insert Q x [] h = h
All-insert Q x (e ∷ es) h = elim (Bool-cases (ltb e.id x.id)) [
  | inl q ↦
      let both = rw (insert_by_id, q) at h in
      let rest = All-insert Q x es both.1 in (rest.0, (both.0, rest.1))
  | inr q ↦ rw (insert_by_id, q) at h
]

pub All-ordered :
    (Q : KanbanTaskEvent → Type 0) (es : List KanbanTaskEvent) → All Q (order_by_id es) → All Q es
unfolding order_by_id
All-ordered Q [] h = tt
All-ordered Q (e ∷ es) h =
    let both = All-insert Q e (order_by_id es) h in (both.0, All-ordered Q es both.1)

-- The rows after a position, in order of their ids.
pub selected-Ascending :
    (since : ℕ) (task : String) (rows : List KanbanTaskEvent)
    → DistinctIds rows
    → Ascending since (order_by_id (keep (is_selected since task) rows))
selected-Ascending since task rows d =
    order-Ascending since (keep (is_selected since task) rows)
      (keep-All (is_selected since task) (λ e. since < e.id) rows (λ e h. ground (arith, h)))
      (keep-DistinctIds (is_selected since task) rows d)

pub Ascending-above : (c : ℕ) (es : List KanbanTaskEvent) → Ascending c es → All (λ e. c < e.id) es
Ascending-above c [] a = tt
Ascending-above c (e ∷ es) a =
    (a.0, Ascending-above c es (Ascending-lower c e.id es (omega (arith, a.0)) a.1))
