-- ===== src/Patch/Bytes.antt =====
-- `patchBytes` of modelpatch/decode.go.
use clanker_foundry.Prelude.{Bool, true, false, Option, none, some, List, [], ◌∷◌, ◌++◌, map}
use clanker_foundry.Text.{Str, str}
use clanker_foundry.Json.{json_string, json_strings, json_object, join}
use clanker_foundry.Model.{
  Expr, Exprs, expr, nil, cons, State, Requirement, Guard, Effect, Transition,
}
use clanker_foundry.Patch.{Root, Operation}

abbrev json_list : List Str → Str
json_list values = b'[' ∷ (join values ++ b']' ∷ [])

abbrev json_flag : Bool → Str
json_flag true = str "true"
json_flag false = str "false"

-- A pointer to a DTO.
abbrev json_option : {A : Type 0} → (A → Str) → Option A → Str
json_option f none = str "null"
json_option f (some a) = f a

unfoldable mutual
  unfolding json_object json_string

  pub expr_dto : Expr → Str
  expr_dto (expr kind ref value op args) = json_object (
      (str "kind", json_string kind)
      ∷ (str "ref", json_string ref)
      ∷ (str "value", json_string value)
      ∷ (str "op", json_string op)
      ∷ (str "args", json_list (args_dto args))
      ∷ [])

  pub args_dto : Exprs → List Str
  args_dto nil = []
  args_dto (cons a args) = expr_dto a ∷ args_dto args

abbrev root_dto : Root → Str
root_dto r =
    json_object ((str "id", json_string r.id) ∷ (str "initial", json_string r.initial) ∷ [])

abbrev state_dto : State → Str
state_dto s = json_object (
    (str "id", json_string s.id)
    ∷ (str "label", json_string s.label)
    ∷ (str "terminal", json_flag s.terminal)
    ∷ [])

abbrev requirement_dto : Requirement → Str
requirement_dto r =
    json_object ((str "id", json_string r.id) ∷ (str "text", json_string r.text) ∷ [])

abbrev guard_dto : Guard → Str
guard_dto g = json_object (
    (str "id", json_string g.id)
    ∷ (str "requirement", json_string g.requirement)
    ∷ (str "expr", expr_dto g.condition)
    ∷ [])

abbrev effect_dto : Effect → Str
effect_dto e = json_object ((str "op", json_string e.op) ∷ [])

abbrev transition_dto : Transition → Str
transition_dto t = json_object (
    (str "id", json_string t.id)
    ∷ (str "from", json_string t.from)
    ∷ (str "trigger", json_string t.trigger)
    ∷ (str "to", json_string t.to)
    ∷ (str "guards", json_strings t.guards)
    ∷ (str "effects", json_list (map effect_dto t.effects))
    ∷ [])

unfoldable pub operation_dto : Operation → Str
unfolding json_object json_string json_strings join expr_dto
operation_dto o = json_object (
    (str "action", json_string o.action)
    ∷ (str "kind", json_string o.kind)
    ∷ (str "id", json_string o.id)
    ∷ (str "root", json_option root_dto o.root)
    ∷ (str "state", json_option state_dto o.state)
    ∷ (str "requirement", json_option requirement_dto o.requirement)
    ∷ (str "guard", json_option guard_dto o.guard)
    ∷ (str "transition", json_option transition_dto o.transition)
    ∷ [])

unfoldable pub patch_bytes : Str → Str → List Operation → Str
unfolding json_object json_string join operation_dto
patch_bytes profile before_digest operations = json_object (
    (str "patchVersion", json_string (str "lifecycle-model-patch/v1"))
    ∷ (str "profileVersion", json_string profile)
    ∷ (str "beforeDigest", json_string before_digest)
    ∷ (str "operations", json_list (map operation_dto operations))
    ∷ [])
