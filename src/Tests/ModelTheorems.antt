-- ===== src/Tests/ModelTheorems.antt =====
-- The theorems about models at the small model.
use clanker_foundry.Prelude.{
  arith, ◌≤◌, ◌≡◌, ◌↔◌, refl, true, false, List, [], ◌∷◌, ok, err, All, Memᴰ, map,
}
use clanker_foundry.Text.{str, str_eq, str_ltb, contains}
use clanker_foundry.Distinct.{Distinct}
use clanker_foundry.Model.{
  State, Transition, Model, Expr, Exprs, nil, cons, bool, max_nodes, duplicate_operand,
  find_reference,
}
use clanker_foundry.Model.Validate.{
  validate, requirement_ids, guard_ids, reach_from, start_queue, reached_states,
}
use clanker_foundry.Model.Validate.Termination.{reach_from_terminates}
use clanker_foundry.Model.Validate.Accepts.{all_ids}
use clanker_foundry.Model.Validate.Transitions.{edge_of}
use clanker_foundry.Model.Validate.Search.{Walk}
use clanker_foundry.Model.Validate.Guarantees.{
  validate-ids-Distinct, validate-reaches_all, validate-deterministic, validate-exits,
  validate-uses,
}
use clanker_foundry.Model.Normalize.{normalize}
use clanker_foundry.Model.Normalize.Laws.{normalize_idem}
use clanker_foundry.Model.Normalize.Order.{SameRecords, normalize-order}
use clanker_foundry.Model.Key.{expr_key}
use clanker_foundry.Model.Key.Injective.{expr_key_iff}
use clanker_foundry.Model.Typing.{
  type_of, check_arity, check_op, check_operands, check_nonempty, check_absent,
}
use clanker_foundry.Model.Typing.Rules.{HasType, IsShallow, node_count}
use clanker_foundry.Model.Typing.Complete.{type_of_iff}
use clanker_foundry.Model.Validate.Guards.{IsCondition, total_nodes, validate-guards_typed}
use clanker_foundry.Canonical.{digest}
use clanker_foundry.Canonical.Laws.{digest-order}
use clanker_foundry.Tests.Models.{
  small, small_valid, state_of, moves, operation, outcome_given, unowned,
}

validate-ids-Distinct_example : Distinct (all_ids small)
validate-ids-Distinct_example = validate-ids-Distinct small small_valid

validate-reaches_all_example : Walk (map edge_of small.transitions) small.initial (str "Done")
validate-reaches_all_example =
    validate-reaches_all small small_valid (state_of "Done" true)
      (Memᴰ.tail (Memᴰ.tail (Memᴰ.head refl)))

abbrev pub prepare : Transition
prepare = moves "T_prepare" "Draft" "prepare" "Ready" (str "G_outcome" ∷ [])

validate-deterministic_example : prepare ≡ prepare
validate-deterministic_example =
    validate-deterministic small small_valid prepare prepare (Memᴰ.head refl) (Memᴰ.head refl) refl
      refl

validate-exits_example :
    ((s : State) × Memᴰ s small.states × (s.terminal ≡ true))
    × ((s : State)
        → Memᴰ s small.states
        → s.terminal ≡ false
        → (t : Transition) × Memᴰ t small.transitions × (t.from ≡ s.id))
    × ((t : Transition)
        → Memᴰ t small.transitions
        → (s : State) × Memᴰ s small.states × (t.from ≡ s.id) × (s.terminal ≡ false))
validate-exits_example = validate-exits small small_valid

validate-uses_example :
    All (λ g. (t : Transition) × Memᴰ t small.transitions × Memᴰ g.id t.guards) small.guards
    × All (λ g. Memᴰ g.requirement (requirement_ids small.requirements)) small.guards
    × All (λ r. Memᴰ r.id (map (λ g. g.requirement) small.guards)) small.requirements
    × All
        (λ t. All (λ g. Memᴰ g (guard_ids small.guards)) t.guards × Distinct t.guards)
        small.transitions
validate-uses_example = validate-uses small small_valid

-- The small model with its states in the order of their IDs.
abbrev pub sorted_small : Model
sorted_small = record small {
  states = state_of "Done" true ∷ state_of "Draft" false ∷ state_of "Ready" false ∷ [];
  transitions =
      moves "T_finish" "Ready" "finish" "Done" (str "G_outcome" ∷ [])
      ∷ moves "T_prepare" "Draft" "prepare" "Ready" (str "G_outcome" ∷ [])
      ∷ [];
}

sorted_small_valid : validate sorted_small ≡ ok tt
unfolding validate str_eq
sorted_small_valid = refl

small_normal : normalize small ≡ ok sorted_small
unfolding normalize validate str_eq str_ltb clanker_foundry.Model.Normalize.reorder
small_normal = refl

normalize_idem_example :
    (validate sorted_small ≡ ok tt) × (normalize sorted_small ≡ ok sorted_small)
normalize_idem_example = normalize_idem small sorted_small small_normal

swap_members :
    {A : Type 0} (x y : A) (xs : List A) (a : A) → Memᴰ a (x ∷ y ∷ xs) → Memᴰ a (y ∷ x ∷ xs)
swap_members x y xs a (Memᴰ.head e) = Memᴰ.tail (Memᴰ.head e)
swap_members x y xs a (Memᴰ.tail (Memᴰ.head e)) = Memᴰ.head e
swap_members x y xs a (Memᴰ.tail (Memᴰ.tail m)) = Memᴰ.tail (Memᴰ.tail m)

-- The small model with its first two states and its two transitions exchanged.
abbrev swapped : Model
swapped = record small {
  states = state_of "Draft" false ∷ state_of "Ready" false ∷ state_of "Done" true ∷ [];
  transitions =
      moves "T_finish" "Ready" "finish" "Done" (str "G_outcome" ∷ [])
      ∷ moves "T_prepare" "Draft" "prepare" "Ready" (str "G_outcome" ∷ [])
      ∷ [];
}

swapped_valid : validate swapped ≡ ok tt
unfolding validate str_eq
swapped_valid = refl

swapped_same : SameRecords small swapped
swapped_same = record {
  version = refl;
  id = refl;
  initial = refl;
  states = λ a. (swap_members _ _ _ a, swap_members _ _ _ a);
  requirements = λ a. (λ m. m, λ m. m);
  guards = λ a. (λ m. m, λ m. m);
  transitions = λ a. (swap_members _ _ _ a, swap_members _ _ _ a);
}

normalize-order_example : normalize small ≡ normalize swapped
normalize-order_example = normalize-order small swapped small_valid swapped_valid swapped_same

digest-order_example :
    (digest (λ s. s) sorted_small ≡ digest (λ s. s) small)
    × (digest (λ s. s) swapped ≡ digest (λ s. s) small)
digest-order_example =
    digest-order (λ s. s) small sorted_small swapped small_normal swapped_valid swapped_same

-- A guard of two operands, and the same with the second operand twice.
abbrev given_and_unowned : Exprs
given_and_unowned = cons outcome_given (cons unowned nil)

abbrev both_hold : Expr
both_hold = operation "all" given_and_unowned

type_of_iff_example :
    (type_of both_hold ≡ ok bool)
    ↔ (HasType both_hold bool × IsShallow both_hold 0 × (node_count both_hold ≤ max_nodes))
type_of_iff_example = type_of_iff both_hold bool

both_hold_typed : type_of both_hold ≡ ok bool
unfolding type_of check_arity check_op check_operands check_nonempty check_absent expr_key contains
    str_eq find_reference
both_hold_typed = refl

twice_refused : type_of (operation "all" (cons unowned given_and_unowned)) ≡ err duplicate_operand
unfolding type_of check_arity check_op check_operands check_nonempty check_absent expr_key contains
    str_eq find_reference
twice_refused = refl

expr_key_iff_example : (expr_key outcome_given ≡ expr_key unowned) ↔ (outcome_given ≡ unowned)
expr_key_iff_example = expr_key_iff outcome_given unowned

-- More rounds than needed, at the edges of the small model.
reach_from_terminates_example :
    ((reach_from (map edge_of small.transitions) 20 (start_queue small.initial)).queue ≡ [])
    × ((reach_from (map edge_of small.transitions) 20 (start_queue small.initial)).reached
        ≡ reached_states (map edge_of small.transitions) small.initial)
reach_from_terminates_example =
    reach_from_terminates (map edge_of small.transitions) small.initial 20 (omega arith)

validate-guards_typed_example :
    All IsCondition small.guards × (total_nodes small.guards ≤ max_nodes)
validate-guards_typed_example = validate-guards_typed small small_valid
