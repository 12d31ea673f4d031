-- ===== src/Tests/Models.antt =====
-- A small model, its validation and its normal form.
use Prim.Native.String.{String}
use clanker_foundry.Prelude.{◌≡◌, refl, true, false, List, [], ◌∷◌, ok, err, Bool}
use clanker_foundry.Text.{Str, str, str_eq}
use clanker_foundry.Model.{
  Expr, Exprs, expr, nil, cons, State, Transition, Model, unreachable_state, set_state,
  increment_revision,
}
use clanker_foundry.Model.Validate.{validate}

abbrev pub reference : String → Expr
reference path = expr (str "ref") (str path) [] [] nil

abbrev pub operation : String → Exprs → Expr
operation op args = expr (str "op") [] [] (str op) args

abbrev pub outcome_given : Expr
outcome_given = operation "nonempty" (cons (reference "task.outcome") nil)

abbrev pub unowned : Expr
unowned = operation "absent" (cons (reference "task.owner") nil)

abbrev pub state_of : String → Bool → State
state_of id terminal = record { id = str id; label = str id; terminal = terminal }

abbrev pub moves : String → String → String → String → List Str → Transition
moves id from trigger to guards = record {
  id = str id;
  from = str from;
  trigger = str trigger;
  to = str to;
  guards = guards;
  effects = record { op = set_state } ∷ record { op = increment_revision } ∷ [];
}

-- Draft, then Ready, then Done.
abbrev pub small : Model
small = record {
  version = 1;
  id = str "Small";
  initial = str "Draft";
  states = state_of "Ready" false ∷ state_of "Draft" false ∷ state_of "Done" true ∷ [];
  requirements = record { id = str "R_outcome"; text = str "The outcome is given." } ∷ [];
  guards =
      record { id = str "G_outcome"; requirement = str "R_outcome"; condition = outcome_given }
      ∷ [];
  transitions =
      moves "T_prepare" "Draft" "prepare" "Ready" (str "G_outcome" ∷ [])
      ∷ moves "T_finish" "Ready" "finish" "Done" (str "G_outcome" ∷ [])
      ∷ [];
}

-- The small model with a state that no transition leads to.
abbrev island : Model
island = record small { states = state_of "Lost" true ∷ small.states }

pub small_valid : validate small ≡ ok tt
unfolding validate str_eq
small_valid = refl

island_refused : validate island ≡ err unreachable_state
unfolding validate str_eq
island_refused = refl
