-- ===== src/Workflow/Gates.antt =====
-- `compute_gates`: which gates of a workflow are active, deferred or passed.
use Prim.Native.String.{compare}
use package.text.Mathlib.Text.{is_lt}
use hermes_plugin_async_thre.Prelude.{
  Bool, List, String, [], elem, false, if◌then◌else◌, map, not, take, true, ◌&&◌, ◌++◌, ◌==◌, ◌||◌,
  ◌∷◌,
}
use hermes_plugin_async_thre.Python.Json.{Fields, get, keys, mapping, text}
use hermes_plugin_async_thre.Python.Runtime.{Runtime}
use hermes_plugin_async_thre.Python.Text.{replace}
use hermes_plugin_async_thre.Python.Values.{or_value, str_or_empty, to_str}
use hermes_plugin_async_thre.SourceFilters.{first_occurrences}
use hermes_plugin_async_thre.Workflow.Policy.{GateMode, WorkflowPolicy, is_serial}

pub data GateState : Type 0 where
  passed failed stale pending deferred_candidate_not_ready deferred_serial_gate : GateState

-- an entry of `states`, under its gate's name
pub record GateRow : Type 0 where
  pub gate : String
  pub status : String
  pub state : GateState
  pub candidate_required : Bool

pub record GateReport : Type 0 where
  pub mode : GateMode
  pub order : List String
  pub active : List String
  pub deferred : List String
  pub states : List GateRow

abbrev pub is_blocking : GateState → Bool
is_blocking passed = false
is_blocking deferred_serial_gate = false
is_blocking _ = true

abbrev pub is_active : GateState → Bool
is_active failed = true
is_active stale = true
is_active pending = true
is_active _ = false

abbrev pub is_passed : GateState → Bool
is_passed passed = true
is_passed _ = false

-- `sorted(texts)`
unfoldable pub insert_sorted : String → List String → List String
insert_sorted x [] = x ∷ []
insert_sorted x (y ∷ ys) =
    let rest = insert_sorted x ys in if is_lt (compare y x) then y ∷ rest else x ∷ y ∷ ys

unfoldable pub sort_texts : List String → List String
unfolding insert_sorted
sort_texts [] = []
sort_texts (x ∷ xs) = insert_sorted x (sort_texts xs)

-- what the loop has written when it ends: `states`, `active`, `deferred`
pub record Tally : Type 0 where
  pub rows : List GateRow
  pub active : List String
  pub deferred : List String

-- One round of the loop: the gate's row, and its place in `active` or `deferred`. `stopped` is what
-- follows a blocking gate in serial mode, `after` what the loop does with the other gates.
unfoldable pub add_row : Bool → GateRow → Tally → Tally → Tally
add_row one_at_a_time row stopped after =
    let next : Tally = if one_at_a_time && is_blocking row.state then stopped else after in
    record {
      rows = row ∷ next.rows;
      active = if is_active row.state then row.gate ∷ next.active else next.active;
      deferred = elim row.state [
        | deferred_candidate_not_ready ↦ row.gate ∷ next.deferred
        | _ ↦ next.deferred
      ];
    }

module _ ⦃py : Runtime⦄ where
  unfoldable pub candidate_ready : Fields → Bool
  unfolding replace str_or_empty or_value
  candidate_ready candidate =
      let readiness =
        replace "-" "_" (
          py.lower
            (str_or_empty (or_value (get "readiness" candidate) (get "status" candidate)))) in
      let stage = replace "-" "_" (py.lower (str_or_empty (get "stage" candidate))) in
      elem readiness ("ready" ∷ "released" ∷ []) || stage == "candidate_ready"

  -- `str(item.get("status") or "unknown")` of the gate's evidence
  unfoldable pub gate_status : Fields → String → String
  unfolding or_value to_str
  gate_status evidence gate =
      to_str (or_value (get "status" (mapping (get gate evidence))) (text "unknown"))

  unfoldable pub gate_state : Bool → Bool → String → GateState
  gate_state requires_candidate ready status =
      if requires_candidate && not ready
      then deferred_candidate_not_ready
      else if status == "passed"
      then passed
      else if status == "failed"
      then failed
      else if status == "stale"
      then stale
      else pending

  module _ (policy : WorkflowPolicy) (evidence : Fields) (ready : Bool) where
    unfoldable pub gate_row : String → GateRow
    unfolding gate_status gate_state
    gate_row gate =
        let requires_candidate = elem gate policy.candidate_required in
        record {
          gate = gate;
          status = gate_status evidence gate;
          state = gate_state requires_candidate ready (gate_status evidence gate);
          candidate_required = requires_candidate;
        }

    -- the entry of a gate behind a blocking one
    unfoldable pub later_row : String → GateRow
    unfolding gate_status
    later_row gate = record {
      gate = gate;
      status = gate_status evidence gate;
      state = if gate_status evidence gate == "passed" then passed else deferred_serial_gate;
      candidate_required = elem gate policy.candidate_required;
    }

    unfoldable pub later_deferred : List String → List String
    unfolding gate_status
    later_deferred [] = []
    later_deferred (gate ∷ rest) =
        let others = later_deferred rest in
        if gate_status evidence gate == "passed" then others else gate ∷ others

    -- The loop over `gate_set`. In serial mode it stops behind the first blocking gate.
    unfoldable pub gate_loop : List String → Tally
    unfolding add_row gate_row later_row later_deferred
    gate_loop [] = record { rows = []; active = []; deferred = [] }
    gate_loop (gate ∷ rest) =
        add_row (is_serial policy.gate_mode) (gate_row gate)
          (record { rows = map later_row rest; active = []; deferred = later_deferred rest })
          (gate_loop rest)

  unfoldable pub gate_set : WorkflowPolicy → Fields → List String
  unfolding first_occurrences sort_texts
  gate_set policy evidence = first_occurrences (policy.gate_order ++ sort_texts (keys evidence))

  unfoldable pub compute_gates : WorkflowPolicy → Fields → Fields → GateReport
  unfolding gate_set gate_loop candidate_ready first_occurrences
  compute_gates policy evidence candidate =
      let tally =
        gate_loop policy evidence (candidate_ready candidate) (gate_set policy evidence) in
      record {
        mode = policy.gate_mode;
        order = policy.gate_order;
        active = if is_serial policy.gate_mode then take 1 tally.active else tally.active;
        deferred = first_occurrences tally.deferred;
        states = tally.rows;
      }
