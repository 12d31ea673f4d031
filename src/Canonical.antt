-- ===== src/Canonical.antt =====
-- modeling/lifecycle/canonical/canonical.go: the canonical bytes of a model and their digest.
-- `sha256_hex` is `hex.EncodeToString` of `sha256.Sum256`.
pub mod Laws
use clanker_foundry.Prelude.{
  Bool, true, false, List, [], ◌∷◌, ◌++◌, map, if◌then◌else◌, Result, ok, ◌>>=◌,
}
use clanker_foundry.Text.{Str, str, str_eq}
use clanker_foundry.Sort.{sort_by}
use clanker_foundry.Json.{json_string, json_strings, json_object, join}
use clanker_foundry.Model.{
  Expr, Exprs, expr, nil, cons, State, Requirement, Guard, Effect, Transition, Model, Invalid,
  profile_version,
}
use clanker_foundry.Model.Normalize.{normalize}

-- A `map[string]any`: `encoding/json` sorts its keys.
json_map : List (Str × Str) → Str
unfolding json_object sort_by
json_map fields = json_object (sort_by (λ f. f.0) fields)

json_array : List Str → Str
unfolding join
json_array values = b'[' ∷ (join values ++ b']' ∷ [])

-- A `[]string` of a normalized model, which is nil where it is empty.
json_slice : List Str → Str
unfolding json_strings
json_slice [] = str "null"
json_slice (s ∷ ss) = json_strings (s ∷ ss)

abbrev json_bool : Bool → Str
json_bool true = str "true"
json_bool false = str "false"

unfoldable mutual
  unfolding json_map json_array json_string

  pub expression : Expr → Str
  expression (expr kind ref value op args) =
      let operands = expressions args in
      if str_eq kind (str "ref")
      then json_map ((str "ref", json_string ref) ∷ [])
      else if str_eq kind (str "string")
      then json_map ((str "string", json_string value) ∷ [])
      else json_map ((str "op", json_string op) ∷ (str "args", json_array operands) ∷ [])

  pub expressions : Exprs → List Str
  expressions nil = []
  expressions (cons a args) = expression a ∷ expressions args

abbrev state_json : State → Str
state_json s = json_map (
    (str "id", json_string s.id)
    ∷ (str "label", json_string s.label)
    ∷ (str "terminal", json_bool s.terminal)
    ∷ [])

abbrev requirement_json : Requirement → Str
requirement_json r = json_map ((str "id", json_string r.id) ∷ (str "text", json_string r.text) ∷ [])

abbrev guard_json : Guard → Str
guard_json g = json_map (
    (str "id", json_string g.id)
    ∷ (str "requirement", json_string g.requirement)
    ∷ (str "expr", expression g.condition)
    ∷ [])

abbrev effect_json : Effect → Str
effect_json e = json_map ((str "op", json_string e.op) ∷ [])

abbrev transition_json : Transition → Str
transition_json t = json_map (
    (str "id", json_string t.id)
    ∷ (str "from", json_string t.from)
    ∷ (str "trigger", json_string t.trigger)
    ∷ (str "to", json_string t.to)
    ∷ (str "guards", json_slice t.guards)
    ∷ (str "effects", json_array (map effect_json t.effects))
    ∷ [])

-- The document of a normalized model.
unfoldable pub document : Model → Str
unfolding json_map json_array json_slice expression json_string
document m = json_map (
    (str "profileVersion", json_string profile_version)
    ∷ (str "id", json_string m.id)
    ∷ (str "initial", json_string m.initial)
    ∷ (str "states", json_array (map state_json m.states))
    ∷ (str "requirements", json_array (map requirement_json m.requirements))
    ∷ (str "guards", json_array (map guard_json m.guards))
    ∷ (str "transitions", json_array (map transition_json m.transitions))
    ∷ [])

-- `Bytes`.
unfoldable pub canonical_bytes : Model → Result Invalid Str
canonical_bytes m = do n ← normalize m; ok (document n)

-- `Digest`.
unfoldable pub digest : (Str → Str) → Model → Result Invalid Str
digest sha256_hex m = do b ← canonical_bytes m; ok (sha256_hex b)
