-- ===== src/Workflow/Serial.antt =====
-- Serial gates: one gate at a time, in order.
use hermes_plugin_async_thre.Prelude.{
  All, List, String, [], if◌then◌else◌, map, true, ◌∷◌, ◌≡◌, ◌⊎◌,
}
use hermes_plugin_async_thre.Python.Runtime.{Runtime}
use hermes_plugin_async_thre.Workflow.Gates.{
  GateRow, GateState, deferred_serial_gate, is_active, is_blocking, is_passed, passed,
}

-- how a gate behind the blocking one reads
abbrev pub IsWaiting : GateRow → Type 0
IsWaiting row = (row.state ≡ passed) ⊎ (row.state ≡ deferred_serial_gate)

-- Passed gates first, then the one gate that blocks, then gates that wait. The active list holds the
-- blocking gate, unless that one is deferred for its candidate.
abbrev pub IsSerial : List GateRow → List String → Type 0
IsSerial [] active = active ≡ []
IsSerial (row ∷ rows) active =
    if is_passed row.state
    then IsSerial rows active
    else (is_blocking row.state ≡ true)
      × All IsWaiting rows
      × (active ≡ (if is_active row.state then row.gate ∷ [] else []))

-- the states that `gate_state` gives either pass or block
abbrev IsOwn : GateState → Type 0
IsOwn deferred_serial_gate = ⊥
IsOwn _ = Unit

gates_of : List GateRow → List String
gates_of = map (λ row. row.gate)
