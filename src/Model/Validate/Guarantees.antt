-- ===== src/Model/Validate/Guarantees.antt =====
-- What `Validate` guarantees of the models that it accepts.
use mathlib.Core.List.Memᴰ
use clanker_foundry.Prelude.{
  ◌≡◌, refl, sym, ap, ◌∙◌, ◌⊎◌, inl, inr, true, false, ◌∷◌, ◌++◌, Memᴰ, All, All_at, ok, map,
  All-map, ap₂, length,
}
use clanker_foundry.Text.{Str, contains}
use clanker_foundry.Text.Laws.{contains_iff}
use clanker_foundry.Distinct.{same_of_Distinct, Distinct, not_mem_ne}
use clanker_foundry.Model.{State, Transition, Model}
use clanker_foundry.Model.Validate.{validate, requirement_ids, guard_ids, pair_key, reached_states}
use clanker_foundry.Model.Validate.Ids.{Extends-append}
use clanker_foundry.Model.Validate.Records.{find_state-eq-some}
use clanker_foundry.Model.Validate.Transitions.{IsTransitionOk, edge_of}
use clanker_foundry.Model.Validate.Accepts.{Passes, Passes-of_validate, all_ids}
use clanker_foundry.Model.Validate.Graph.{
  GraphOk, GraphOk-of_check, count_terminals-open, count_terminals-some, check_used_guards-All,
  check_used_requirements-All, Memᴰ_state_id, Walk-every,
}
use clanker_foundry.Model.Validate.Search.{Walk}

graph : (m : Model) (p : Passes m) → GraphOk m p.scan
graph m p = GraphOk-of_check m p.scan p.graph_ok

-- In an accepted model no two of the IDs are equal: of the model, the states, the requirements, the
-- guards and the transitions together.
pub validate-ids-Distinct : (m : Model) → validate m ≡ ok tt → Distinct (all_ids m)
validate-ids-Distinct m h =
    let p = Passes-of_validate m h in
    let t = p.transitions_ok in
    let (d₁, f₁) = Extends-append _ _ _ _ p.guards_ok t.ids_distinct t.ids_fresh in
    let (d₂, f₂) = Extends-append _ _ _ _ p.requirements_ok d₁ f₁ in
    let (d₃, f₃) = Extends-append _ _ _ _ p.states_ok d₂ f₂ in
    (not_mem_ne m.id _ (λ k. f₃ m.id k (Memᴰ.head refl)), d₃)

-- In an accepted model a walk along the transitions leads from the initial state to every state.
pub validate-reaches_all :
    (m : Model)
    → validate m ≡ ok tt
    → (s : State) → Memᴰ s m.states
    → Walk (map edge_of m.transitions) m.initial s.id
validate-reaches_all m h s k =
    let p = Passes-of_validate m h in
    let (l, same) = find_state-eq-some m.states m.initial p.initial p.initial_found in
    Walk-every m (guard_ids m.guards) (Memᴰ.cast (sym same) (Memᴰ_state_id p.initial m.states l))
      p.transitions_ok.all_ok
      (ap (λ es. length (reached_states es m.initial)) (sym p.transitions_ok.edges_grow)
        ∙ (graph m p).all_reached)
      s k

-- An accepted model is deterministic: two of its transitions with the same source and the same
-- trigger are one transition.
pub validate-deterministic :
    (m : Model)
    → validate m ≡ ok tt
    → (t u : Transition) → Memᴰ t m.transitions
    → Memᴰ u m.transitions
    → t.from ≡ u.from
    → t.trigger ≡ u.trigger
    → t ≡ u
unfolding pair_key
validate-deterministic m h t u k l e e' =
    same_of_Distinct pair_key m.transitions t u
      (Passes-of_validate m h).transitions_ok.pairs_distinct k l
      (ap₂ (λ (a b : Str). a ++ (0 ∷ b)) e e')

-- In an accepted model some state is terminal; a state that is not terminal is the source of a
-- transition, and no terminal state is.
pub validate-exits :
    (m : Model)
    → validate m ≡ ok tt
    → ((s : State) × Memᴰ s m.states × (s.terminal ≡ true))
      × ((s : State)
          → Memᴰ s m.states
          → s.terminal ≡ false
          → (t : Transition) × Memᴰ t m.transitions × (t.from ≡ s.id))
      × ((t : Transition)
          → Memᴰ t m.transitions
          → (s : State) × Memᴰ s m.states × (t.from ≡ s.id) × (s.terminal ≡ false))
validate-exits m h =
    let p = Passes-of_validate m h in
    let g = graph m p in
    (
      count_terminals-some m.states p.scan.out 0 g.terminals g.counted g.some_terminal,
      λ s k e.
          elim (All_at (λ v. (v.terminal ≡ true) ⊎ (contains p.scan.out v.id ≡ true)) m.states
            (count_terminals-open m.states p.scan.out 0 g.terminals g.counted) k) [
              | inl t ↦ cc
              | inr c ↦ elim (p.transitions_ok.out_from s.id ((contains_iff p.scan.out s.id).0 c)) [
                | inl n ↦ absurd (Memᴰ.not-nil n)
                | inr n ↦
                    let (t, l, same) = Memᴰ.of_map (λ (t : Transition). t.from) m.transitions n in
                    (t, l, same)
              ]
            ],
      λ t k.
          let good =
            All_at (IsTransitionOk m.states (guard_ids m.guards)) m.transitions
              p.transitions_ok.all_ok k in
          let (l, same) = find_state-eq-some m.states t.from good.source good.source_found in
          (good.source, l, sym same, good.source_open),
    )

-- In an accepted model every guard is used by a transition and serves a declared requirement, every
-- requirement is served by a guard, and a transition names declared guards, each of them once.
pub validate-uses :
    (m : Model)
    → validate m ≡ ok tt
    → All (λ g. (t : Transition) × Memᴰ t m.transitions × Memᴰ g.id t.guards) m.guards
      × All (λ g. Memᴰ g.requirement (requirement_ids m.requirements)) m.guards
      × All (λ r. Memᴰ r.id (map (λ g. g.requirement) m.guards)) m.requirements
      × All (λ t. All (λ g. Memᴰ g (guard_ids m.guards)) t.guards × Distinct t.guards) m.transitions
validate-uses m h =
    let p = Passes-of_validate m h in
    let g = graph m p in
    (
      All-map m.guards (check_used_guards-All m.guards p.scan.used_guards g.guards_used) (λ x u.
          elim (p.transitions_ok.used_from x.id u) [
            | inl n ↦ absurd (Memᴰ.not-nil n)
            | inr used ↦ used
          ]),
      All-map m.guards p.guards_typed (λ x o.
          (contains_iff (requirement_ids m.requirements) x.requirement).0 o.requirement_declared),
      check_used_requirements-All m.requirements (map (λ g. g.requirement) m.guards)
          g.requirements_used,
      All-map m.transitions p.transitions_ok.all_ok (λ t o. (o.refs_declared, o.refs_distinct)),
    )
