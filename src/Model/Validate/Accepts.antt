-- ===== src/Model/Validate/Accepts.antt =====
-- What `Validate` guarantees of the models that it accepts.
use clanker_foundry.Prelude.{
  ◌≡◌, inl, inr, List, [], ◌∷◌, ◌++◌, All, arith, ok, Result-cases, Option-cases, map, some,
}
use clanker_foundry.Text.{Str}
use clanker_foundry.Model.{State, Model}
use clanker_foundry.Model.Validate.{
  Scan, new_scan, validate, check_bounds, check_records, check_graph, check_states, find_state,
  check_requirements, check_guards, state_ids, requirement_ids, guard_ids,
}
use clanker_foundry.Model.Validate.Ids.{Extends, check_states-Extends, check_requirements-Extends}
use clanker_foundry.Model.Validate.Records.{IsGuardOk, check_guards-Extends}
use clanker_foundry.Model.Validate.Transitions.{AreAccepted, check_transitions-ok}

-- The intermediate sets of IDs, and the passes over the records.
pub record Passes (m : Model) : Type 0 where
  pub after_states : List Str
  pub after_requirements : List Str
  pub after_guards : List Str
  pub scan : Scan
  pub initial : State
  pub bounds : check_bounds m ≡ ok tt
  pub states_ok : Extends (m.id ∷ []) (state_ids m.states) after_states
  pub initial_found : find_state m.states m.initial ≡ some initial
  pub requirements_ok : Extends after_states (requirement_ids m.requirements) after_requirements
  pub guards_ok : Extends after_requirements (guard_ids m.guards) after_guards
  pub guards_checked :
      check_guards (requirement_ids m.requirements) m.guards after_requirements 0 ≡ ok after_guards
  pub guards_typed : All (IsGuardOk (requirement_ids m.requirements)) m.guards
  pub transitions_ok :
      AreAccepted m.states (guard_ids m.guards) m.transitions (new_scan after_guards) scan
  pub graph_ok : check_graph m scan ≡ ok tt

records_found :
    (m : Model) (scan : Scan)
    → check_records m ≡ ok scan
    → check_bounds m ≡ ok tt
    → check_graph m scan ≡ ok tt
    → Passes m
unfolding check_records
records_found m scan h b g = elim (Result-cases (check_states m.states (m.id ∷ []))) [
  | inr (x, e) ↦ absurd (ground arith)
  | inl (ids, e) ↦ elim (Option-cases (find_state m.states m.initial)) [
    | inl d ↦ absurd (ground arith)
    | inr (initial, d) ↦ elim (Result-cases (check_requirements m.requirements ids)) [
      | inr (x, e') ↦ absurd (ground arith)
      | inl (ids', e') ↦
          elim (Result-cases (check_guards (requirement_ids m.requirements) m.guards ids' 0)) [
            | inr (x, e'') ↦ absurd (ground arith)
            | inl (ids'', e'') ↦
                let (extends, typed) =
                  check_guards-Extends (requirement_ids m.requirements) m.guards ids' ids'' 0 e'' in
                record {
                  after_states = ids;
                  after_requirements = ids';
                  after_guards = ids'';
                  scan = scan;
                  initial = initial;
                  bounds = b;
                  states_ok = check_states-Extends m.states (m.id ∷ []) ids e;
                  initial_found = d;
                  requirements_ok = check_requirements-Extends m.requirements ids ids' e';
                  guards_ok = extends;
                  guards_checked = e'';
                  guards_typed = typed;
                  transitions_ok =
                      check_transitions-ok m.states (guard_ids m.guards) m.transitions
                        (new_scan ids'') scan (ground arith);
                  graph_ok = g;
                }
          ]
    ]
  ]
]

pub Passes-of_validate : (m : Model) → validate m ≡ ok tt → Passes m
unfolding validate
Passes-of_validate m h = elim (Result-cases (check_records m)) [
  | inr (x, e) ↦ absurd (ground arith)
  | inl (scan, e) ↦ records_found m scan e (ground arith) (ground arith)
]

-- The IDs of a model: its own and those of all its records.
abbrev pub all_ids : Model → List Str
all_ids m =
    m.id
    ∷ (state_ids m.states
        ++ (requirement_ids m.requirements
            ++ (guard_ids m.guards ++ map (λ t. t.id) m.transitions)))
