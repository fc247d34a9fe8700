-- ===== src/Handoffs/LoopEvents.antt =====
-- The example events of a loop, in the recipe for Dynamic Workflows.
use hermes_plugin_async_thre.Prelude.{String, [], pos, ◌∷◌}
use hermes_plugin_async_thre.Python.Json.{Fields, Items, cons, dict, int, merge, nil, obj, text}
use hermes_plugin_async_thre.Registry.Rows.{Handle}

-- what the examples share
abbrev pub loop_base : Fields
loop_base = dict (
    ("runId", text "run-42")
    ∷ ("specId", text "example-loop")
    ∷ ("specName", text "Example loop")
    ∷ [])

unfoldable pub base : Handle → String → Fields
base h now = dict (
    ("version", text "async-thread-event/v1")
    ∷ ("producer", obj (dict (("id", text h.producer_id) ∷ [])))
    ∷ ("occurredAt", text now)
    ∷ ("asyncThread", obj (dict (("threadKey", text h.thread_key) ∷ [])))
    ∷ ("tailMode", text "none")
    ∷ ("workflowId", text ("loop:example-loop:run-42"))
    ∷ ("seriesKey", text ("loop:example-loop:run-42"))
    ∷ (
      "loop",
      obj (
          dict (
            ("runId", text "run-42")
            ∷ ("specId", text "example-loop")
            ∷ ("specName", text "Example loop")
            ∷ [])),
    )
    ∷ (
      "refs",
      obj (
          dict (
            ("repo", text "example/repo")
            ∷ ("pullRequest", int (pos 37))
            ∷ ("headSha", text "a1b2c3d4")
            ∷ [])),
    )
    ∷ [])

-- the example `started`
unfoldable pub loop_started_example : Handle → String → Fields
loop_started_example h now = merge (base h now) (
    dict (
      ("eventId", text "loop-run-42-started")
      ∷ ("eventType", text "loop.started")
      ∷ ("summary", text "example loop started")
      ∷ ("stage", text "started")
      ∷ ("loop", obj (merge loop_base (dict (("state", text "running") ∷ []))))
      ∷ (
        "correlation",
        obj (
            dict (
              ("correlationKey", text ("example-loop:run-42:head-a1b2c3d4"))
              ∷ ("idempotencyKey", text "loop-run-42-started")
              ∷ ("signalKey", text ("loop.started:example-loop:run-42"))
              ∷ [])),
      )
      ∷ (
        "nextExpectedSignal",
        obj (
            dict (
              ("signalKey", text ("github.check_suite.completed:example/repo:37:a1b2c3d4"))
              ∷ ("deadlineAt", text "2026-06-23T17:15:00Z")
              ∷ [])),
      )
      ∷ []))

-- the example `waiting`
unfoldable pub loop_waiting_example : Handle → String → Fields
loop_waiting_example h now = merge (base h now) (
    dict (
      ("eventId", text "loop-run-42-waiting-checks")
      ∷ ("eventType", text "loop.waiting_for_event")
      ∷ ("summary", text "waiting for GitHub checks for PR 37")
      ∷ ("stage", text "blocked")
      ∷ ("loop", obj (merge loop_base (dict (("state", text "waiting") ∷ []))))
      ∷ (
        "correlation",
        obj (
            dict (
              ("correlationKey", text ("example-loop:run-42:checks:a1b2c3d4"))
              ∷ ("idempotencyKey", text "loop-run-42-waiting-checks")
              ∷ ("signalKey", text ("github.check_suite.completed:example/repo:37:a1b2c3d4"))
              ∷ [])),
      )
      ∷ (
        "nextExpectedSignal",
        obj (
            dict (
              ("signalKey", text ("github.check_suite.completed:example/repo:37:a1b2c3d4"))
              ∷ ("deadlineAt", text "2026-06-23T17:30:00Z")
              ∷ [])),
      )
      ∷ []))

-- the example `review`
unfoldable pub loop_review_example : Handle → String → Fields
loop_review_example h now = merge (base h now) (
    dict (
      ("eventId", text "loop-run-42-step-review-completed")
      ∷ ("eventType", text "loop.step_completed")
      ∷ ("summary", text "review step passed for PR 37")
      ∷ ("stage", text "review_passed")
      ∷ ("loop", obj (merge loop_base (dict (("state", text "running") ∷ []))))
      ∷ (
        "step",
        obj (
            dict (
              ("stepId", text "review")
              ∷ ("attempt", int (pos 1))
              ∷ ("backend", text "relay")
              ∷ [])),
      )
      ∷ (
        "correlation",
        obj (
            dict (
              ("correlationKey", text ("example-loop:run-42:review:a1b2c3d4"))
              ∷ ("idempotencyKey", text "loop-run-42-step-review-completed")
              ∷ ("signalKey", text "relay.session.completed:run-42:review")
              ∷ [])),
      )
      ∷ (
        "evidence",
        obj (
            dict (
              ("kind", text "review")
              ∷ ("status", text "passed")
              ∷ ("url", text "https://example.invalid/reviews/1")
              ∷ [])),
      )
      ∷ (
        "nextExpectedSignal",
        obj (dict (("signalKey", text ("approval.merge.requested:example/repo:37:a1b2c3d4")) ∷ [])),
      )
      ∷ []))

-- the example `converged`
unfoldable pub loop_converged_example : Handle → String → Fields
loop_converged_example h now = merge (base h now) (
    dict (
      ("eventId", text "loop-run-42-converged")
      ∷ ("eventType", text "loop.converged")
      ∷ ("summary", text "example loop converged")
      ∷ ("stage", text "released")
      ∷ ("loop", obj (merge loop_base (dict (("state", text "converged") ∷ []))))
      ∷ (
        "correlation",
        obj (
            dict (
              ("correlationKey", text ("example-loop:run-42:converged:a1b2c3d4"))
              ∷ ("idempotencyKey", text "loop-run-42-converged")
              ∷ ("signalKey", text ("loop.converged:example-loop:run-42"))
              ∷ [])),
      )
      ∷ (
        "evidence",
        obj (
            dict (
              ("kind", text "release_gate")
              ∷ ("status", text "passed")
              ∷ ("url", text "https://example.invalid/repo/pull/37")
              ∷ [])),
      )
      ∷ (
        "nextExpectedSignal",
        obj (dict (("signalKey", text "none") ∷ ("reason", text "loop converged") ∷ [])),
      )
      ∷ []))

-- the example `halted`
unfoldable pub loop_halted_example : Handle → String → Fields
loop_halted_example h now = merge (base h now) (
    dict (
      ("eventId", text "loop-run-42-halted")
      ∷ ("eventType", text "loop.halted")
      ∷ ("summary", text "example loop halted after stale approval")
      ∷ ("stage", text "cancelled")
      ∷ ("loop", obj (merge loop_base (dict (("state", text "halted") ∷ []))))
      ∷ (
        "correlation",
        obj (
            dict (
              ("correlationKey", text ("example-loop:run-42:halted:a1b2c3d4"))
              ∷ ("idempotencyKey", text "loop-run-42-halted")
              ∷ ("signalKey", text ("loop.halted:example-loop:run-42"))
              ∷ [])),
      )
      ∷ (
        "evidence",
        obj (
            dict (
              ("kind", text "brake")
              ∷ ("status", text "failed")
              ∷ ("url", text "https://example.invalid/loops/run-42")
              ∷ [])),
      )
      ∷ (
        "nextExpectedSignal",
        obj (
            dict (
              ("signalKey", text "human.next_step")
              ∷ ("reason", text "inspect stale approval")
              ∷ [])),
      )
      ∷ []))

unfoldable pub examples : Handle → String → Items
examples h now = cons (obj (loop_started_example h now)) (
    cons (obj (loop_waiting_example h now)) (
      cons (obj (loop_review_example h now))
        (cons (obj (loop_converged_example h now)) (cons (obj (loop_halted_example h now)) (nil)))))
