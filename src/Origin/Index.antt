-- ===== src/Origin/Index.antt =====
-- The resolution of an origin, and the index of origins that the gateway captured.
use hermes_plugin_async_thre.Prelude.{
  Bool, List, Option, String, [], elem, false, if◌then◌else◌, none, not, some, true, ◌&&◌, ◌==◌,
  ◌||◌, ◌∷◌,
}
use hermes_plugin_async_thre.Python.Json.{Fields, Json, bool, dict, end, get, text}
use hermes_plugin_async_thre.Python.Runtime.{Runtime}
use hermes_plugin_async_thre.Python.Text.{strip}
use hermes_plugin_async_thre.Python.Values.{str_or_empty}
use hermes_plugin_async_thre.Workflow.Transition.{or_text}

-- a gateway's source object; `none` where `source_to_dict` raises
pub record SourceObject : Type 0 where
  pub converted : Option Fields

-- `OriginResolution`; one that is unavailable has empty texts
pub record OriginResolution : Type 0 where
  pub is_ok : Bool
  pub source_dict : Fields
  pub session_key : String
  pub session_id : String
  pub owner_user_id : String
  pub source_kind : String
  pub error : String
  pub message : String
  pub remediation : String

-- `OriginResolution.unavailable()`
abbrev pub unavailable : OriginResolution
unavailable = record {
  is_ok = false;
  source_dict = end;
  session_key = "";
  session_id = "";
  owner_user_id = "";
  source_kind = "";
  error = "source_unavailable";
  message = "current gateway origin unavailable";
  remediation =
      "Use this from a live gateway conversation, or fall back to /ath listen from the target thread.";
}

-- `public_error`
unfoldable pub public_error : OriginResolution → Fields
public_error r =
    if r.is_ok
    then dict (("ok", bool true) ∷ [])
    else dict (
        ("ok", bool false)
        ∷ ("error", text (or_text r.error "source_unavailable"))
        ∷ ("message", text (or_text r.message "current gateway origin unavailable"))
        ∷ ("remediation", text r.remediation)
        ∷ [])

abbrev pub local_only_platforms : List String
local_only_platforms = "" ∷ "local" ∷ "cli" ∷ "api_server" ∷ []

-- `OriginIndex`: two dicts of resolutions
pub record OriginIndex : Type 0 where
  pub by_session_id : List (String × OriginResolution)
  pub by_session_key : List (String × OriginResolution)

abbrev pub empty_index : OriginIndex
empty_index = record { by_session_id = []; by_session_key = [] }

-- `d[key] = r`
unfoldable pub set_entry :
    String → OriginResolution → List (String × OriginResolution) → List (String × OriginResolution)
set_entry key r [] = (key, r) ∷ []
set_entry key r (x ∷ xs) =
    let rest = set_entry key r xs in if x.0 == key then (key, r) ∷ xs else x ∷ rest

-- `d.get(key)`
unfoldable pub find_entry : String → List (String × OriginResolution) → Option OriginResolution
find_entry key [] = none
find_entry key (x ∷ xs) = let rest = find_entry key xs in if x.0 == key then some x.1 else rest

-- `_resolution_matches`: a text that is "" asks for nothing
unfoldable pub asks_for : String → String → Bool
asks_for wanted actual = wanted == "" || actual == wanted

unfoldable pub resolution_matches : OriginResolution → String → String → Bool
resolution_matches r session_id session_key =
    asks_for session_id r.session_id && asks_for session_key r.session_key

-- the candidate, if it is one and matches
unfoldable pub matching : Option OriginResolution → String → String → Option OriginResolution
matching none session_id session_key = none
matching (some r) session_id session_key =
    if resolution_matches r session_id session_key then some r else none

-- what is stored under a key, unless the key is ""
unfoldable pub candidate_for : String → List (String × OriginResolution) → Option OriginResolution
candidate_for key entries = if key == "" then none else find_entry key entries

-- the first of two results
unfoldable pub or_resolution :
    Option OriginResolution → Option OriginResolution → Option OriginResolution
or_resolution (some r) other = some r
or_resolution none other = other

-- `OriginIndex.lookup`
unfoldable pub lookup : String → String → OriginIndex → Option OriginResolution
lookup session_id session_key index =
    or_resolution (matching (candidate_for session_id index.by_session_id) session_id session_key)
      (matching (candidate_for session_key index.by_session_key) session_id session_key)

module _ ⦃py : Runtime⦄ where
  -- `_normalize_platform`
  unfoldable pub normalize_platform : Json → String
  normalize_platform value = py.lower (strip (str_or_empty value))

  -- `_source_is_gateway_routable`
  unfoldable pub is_routable : Fields → Bool
  is_routable source =
      not (normalize_platform (get "platform" source) == "")
      && not (str_or_empty (get "chat_id" source) == "")
      && not (elem (normalize_platform (get "platform" source)) local_only_platforms)

  abbrev pub resolved : Fields → String → String → String → OriginResolution
  resolved source session_key session_id source_kind = record {
    is_ok = true;
    source_dict = source;
    session_key = session_key;
    session_id = session_id;
    owner_user_id = str_or_empty (get "user_id" source);
    source_kind = source_kind;
    error = "";
    message = "";
    remediation = "";
  }

  -- the resolution of a source that was converted
  unfoldable pub resolution_of_dict : Fields → String → String → String → OriginResolution
  resolution_of_dict source session_key session_id source_kind =
      if is_routable source then resolved source session_key session_id source_kind else unavailable

  -- `_resolution_from_source`
  unfoldable pub resolution_from_source : SourceObject → String → String → String → OriginResolution
  resolution_from_source source session_key session_id source_kind = elim source.converted [
    | none ↦ unavailable
    | some d ↦ resolution_of_dict d session_key session_id source_kind
  ]

  -- the index after a resolution that is available
  unfoldable pub stored_under : OriginResolution → OriginIndex → OriginIndex
  stored_under r index = record {
    by_session_id =
        if r.session_id == ""
        then index.by_session_id
        else set_entry r.session_id r index.by_session_id;
    by_session_key =
        if r.session_key == ""
        then index.by_session_key
        else set_entry r.session_key r index.by_session_key;
  }

  -- `OriginIndex.remember`
  unfoldable pub remember :
      SourceObject → String → String → String → OriginIndex → OriginResolution × OriginIndex
  remember source session_key session_id source_kind index =
      let r = resolution_from_source source session_key session_id source_kind in
      (r, if r.is_ok then stored_under r index else index)
