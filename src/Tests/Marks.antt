-- ===== src/Tests/Marks.antt =====
-- The marks of an empty registry, under a few calls.
use hermes_plugin_async_thre.Prelude.{List, [], false, refl, true, ◌∷◌, ◌≡◌}
use hermes_plugin_async_thre.Registry.Rows.{empty_db}
use hermes_plugin_async_thre.Registry.Seen.{forget_seen, has_seen, mark_seen}
use hermes_plugin_async_thre.Registry.SeenRefinement.{
  Represents, SeenCall, forgets, marks, run_calls, run_set, seen_events_refine_set,
}
use hermes_plugin_async_thre.Tests.AsciiRuntime.{ascii_runtime}

abbrev calls : List SeenCall
calls =
    marks "ci" "run:1" "ath_1" "t1"
    ∷ marks "ci" "run:1" "ath_1" "t2"
    ∷ forgets "ci" "run:1"
    ∷ marks "ci" "run:1" "ath_1" "t3"
    ∷ []

empty-Represents : Represents empty_db (λ p e. false)
unfolding Represents has_seen
empty-Represents = λ q f. refl

-- the second mark is refused, the one after the event was forgotten is not
answers : (run_calls calls empty_db).0 ≡ true ∷ false ∷ true ∷ []
unfolding forget_seen has_seen mark_seen run_calls
answers = refl

seen_events_refine_set_example :
    ((run_calls calls empty_db).0 ≡ (run_set calls (λ p e. false)).0)
    × Represents (run_calls calls empty_db).1 (run_set calls (λ p e. false)).1
seen_events_refine_set_example =
    seen_events_refine_set calls empty_db (λ p e. false) empty-Represents
