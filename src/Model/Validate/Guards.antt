-- ===== src/Model/Validate/Guards.antt =====
-- The guards of an accepted model: their types, and the bounds on their expressions.
use clanker_foundry.Prelude.{
  ℕ, ◌+◌, ◌≤◌, ◌≡◌, inl, inr, List, [], ◌∷◌, All, arith, ok, Option-cases,
}
use clanker_foundry.Text.{Str}
use clanker_foundry.Model.{Guard, Model, bool, max_nodes}
use clanker_foundry.Model.Typing.Rules.{HasType, IsShallow, node_count}
use clanker_foundry.Model.Typing.Sound.{expr_type_sound}
use clanker_foundry.Model.Validate.{validate, add_id, check_guards, requirement_ids}
use clanker_foundry.Model.Validate.Records.{guard_step}
use clanker_foundry.Model.Validate.Accepts.{Passes-of_validate}

-- The number of expressions in all of the conditions.
abbrev pub total_nodes : List Guard → ℕ
total_nodes [] = 0
total_nodes (g ∷ guards) = node_count g.condition + total_nodes guards

-- A condition of type `bool`, with no part deeper than the limit.
abbrev pub IsCondition : Guard → Type 0
IsCondition g = HasType g.condition bool × IsShallow g.condition 0

-- The counter runs on from guard to guard.
check_guards_counted :
    (requirements : List Str) (guards : List Guard) (ids ids' : List Str) (n : ℕ)
    → n ≤ max_nodes
    → check_guards requirements guards ids n ≡ ok ids'
    → All IsCondition guards × (n + total_nodes guards ≤ max_nodes)
unfolding check_guards
check_guards_counted requirements [] ids ids' n few h = (tt, omega (arith, few))
check_guards_counted requirements (g ∷ guards) ids ids' n few h =
    elim (Option-cases (add_id ids g.id)) [
      | inl e ↦ absurd (ground arith)
      | inr (next, e) ↦
          let (n', declared, typed, rest) = guard_step requirements g guards ids ids' next n e h in
          let (has, shallow, count, bound) = expr_type_sound g.condition 0 n typed in
          let (all, total) = check_guards_counted requirements guards next ids' n' bound rest in
          (((has, shallow), all), omega (arith, count, total))
    ]

-- In an accepted model every guard has a condition of type `bool` by the typing rules, no part of it
-- at a depth over 16, and the conditions of all guards have at most 512 parts together.
pub validate-guards_typed :
    (m : Model) → validate m ≡ ok tt → All IsCondition m.guards × (total_nodes m.guards ≤ max_nodes)
validate-guards_typed m h =
    let p = Passes-of_validate m h in
    let (all, total) =
      check_guards_counted (requirement_ids m.requirements) m.guards p.after_requirements
        p.after_guards 0 (omega arith) p.guards_checked in
    (all, omega (arith, total))
