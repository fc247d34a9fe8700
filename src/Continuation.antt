-- ===== src/Continuation.antt =====
-- async_threads/continuation.py: the bounds on a continuation that a listener asks for.
pub mod Bounds
use Prim.Native.Char.{code}
use hermes_plugin_async_thre.Prelude.{
  Bool, List, String, [], elem, false, if◌then◌else◌, map, max_ℤ, min_ℤ, nat_eq, none, not, pos,
  some, take, ℤ, ◌&&◌, ◌++◌, ◌==◌, ◌||◌, ◌∷◌,
}
use hermes_plugin_async_thre.Python.Except.{Except, ok, ◌>>=◌}
use hermes_plugin_async_thre.Python.Json.{
  Fields, Json, arr, bool, end, field, get, get_or, int, nil, null, text, texts,
}
use hermes_plugin_async_thre.Python.Runtime.{Runtime}
use hermes_plugin_async_thre.Python.Text.{clip, keep_chars, split, strip}
use hermes_plugin_async_thre.Python.Values.{bounded_int, iterate, str_or_empty, truthy}

pub record ContinuationPolicy : Type 0 where
  pub max_turns : ℤ
  pub max_tool_calls : ℤ
  pub timeout_seconds : ℤ
  pub toolsets : List String
  pub fail_closed_without_core_bounds : Bool

abbrev pub default_continuation_policy : ContinuationPolicy
default_continuation_policy = record {
  max_turns = pos 1;
  max_tool_calls = pos 0;
  timeout_seconds = pos 120;
  toolsets = [];
  fail_closed_without_core_bounds = false;
}

module _ ⦃py : Runtime⦄ where
  -- one pass of the loop in `_normalize_toolsets`: the token of an item, or "" where it is skipped
  unfoldable pub toolset_token : Json → String
  unfolding strip keep_chars clip str_or_empty
  toolset_token item = clip 40 (
      keep_chars (λ c. py.is_alnum c || nat_eq (code c) b'_' || nat_eq (code c) b'-')
        (py.lower (strip (str_or_empty item))))

  unfoldable pub add_toolsets : List String → List Json → List String
  unfolding toolset_token
  add_toolsets normalized [] = normalized
  add_toolsets normalized (item ∷ items) =
      let token = toolset_token item in
      add_toolsets
        (if not (token == "") && not (elem token normalized)
          then normalized ++ token ∷ []
          else normalized)
        items

  -- the items of `value`: the parts of a text, the items of an iterable, or the value alone
  unfoldable pub toolset_items : Json → List Json
  unfolding split iterate
  toolset_items null = []
  toolset_items (text s) = map text (split "," s)
  toolset_items v = elim (iterate v) [ none ↦ v ∷ [] | some items ↦ items ]

  unfoldable pub normalize_toolsets : Json → List String
  unfolding add_toolsets toolset_items
  normalize_toolsets value = take 8 (add_toolsets [] (toolset_items value))

  -- `ContinuationPolicy.from_mapping`, of a dict
  unfoldable pub continuation_from_mapping : Fields → Except ContinuationPolicy
  unfolding bounded_int normalize_toolsets truthy
  continuation_from_mapping value = do
    max_turns ←
        bounded_int (get_or "max_turns" (get "maxTurns" value) value) (pos 1) (pos 1) (pos 5)
    max_tool_calls ←
        bounded_int (get_or "max_tool_calls" (get "maxToolCalls" value) value) (pos 0) (pos 0)
          (pos 20)
    timeout_seconds ←
        bounded_int (get_or "timeout_seconds" (get "timeoutSeconds" value) value) (pos 120) (pos 10)
          (pos 600)
    ok (record {
      max_turns = max_turns;
      max_tool_calls = max_tool_calls;
      timeout_seconds = timeout_seconds;
      toolsets = normalize_toolsets (get_or "toolsets" (arr nil) value);
      fail_closed_without_core_bounds = truthy (
          get_or "fail_closed_without_core_bounds"
            (get_or "failClosedWithoutCoreBounds" (bool false) value) value);
    })

-- `to_mapping`
unfoldable pub continuation_to_mapping : ContinuationPolicy → Fields
continuation_to_mapping p = field "max_turns" (int p.max_turns) (
    field "max_tool_calls" (int p.max_tool_calls) (
      field "timeout_seconds" (int p.timeout_seconds) (
        field "toolsets" (arr (texts p.toolsets))
          (field "fail_closed_without_core_bounds" (bool p.fail_closed_without_core_bounds) end))))

module _ ⦃py : Runtime⦄ where
  -- `from_json(p.to_json())`: the numbers are integers, so that `int` does not raise
  unfoldable pub reread_continuation : ContinuationPolicy → ContinuationPolicy
  unfolding normalize_toolsets
  reread_continuation p = record {
    max_turns = max_ℤ (pos 1) (min_ℤ p.max_turns (pos 5));
    max_tool_calls = max_ℤ (pos 0) (min_ℤ p.max_tool_calls (pos 20));
    timeout_seconds = max_ℤ (pos 10) (min_ℤ p.timeout_seconds (pos 600));
    toolsets = normalize_toolsets (arr (texts p.toolsets));
    fail_closed_without_core_bounds = p.fail_closed_without_core_bounds;
  }

-- `public_summary(core_enforced=...)`
unfoldable pub continuation_summary : ContinuationPolicy → Bool → Fields
continuation_summary p core_enforced = field "maxTurns" (int p.max_turns) (
    field "maxToolCalls" (int p.max_tool_calls) (
      field "timeoutSeconds" (int p.timeout_seconds) (
        field "toolsets" (arr (texts p.toolsets)) (
          field "failClosedWithoutCoreBounds" (bool p.fail_closed_without_core_bounds)
            (field "coreEnforced" (bool core_enforced) end)))))
