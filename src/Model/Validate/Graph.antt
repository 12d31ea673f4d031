-- ===== src/Model/Validate/Graph.antt =====
-- The graph checks of `Validate`: dead ends, terminals and reachability.
use mathlib.Core.List.Memᴰ
use clanker_foundry.Prelude.{
  ℕ, ◌+◌, ◌≤◌, ◌<◌, ◌≡◌, refl, sym, ap, ◌∙◌, ◌⊎◌, inl, inr, true, List, [], ◌∷◌, Memᴰ, All, All_at,
  arith, ok, Result-cases, map, Bool-cases, length, length-map,
}
use clanker_foundry.Text.{Str, contains}
use clanker_foundry.Text.Laws.{contains_iff}
use clanker_foundry.Distinct.{distinct_full}
use clanker_foundry.Model.{State, Requirement, Guard, Model}
use clanker_foundry.Model.Validate.{
  Scan, check_graph, state_ids, count_terminals, reached_states, check_used_guards,
  check_used_requirements,
}
use clanker_foundry.Model.Validate.Records.{find_state-eq-some}
use clanker_foundry.Model.Validate.Transitions.{IsTransitionOk, edge_of}
use clanker_foundry.Model.Validate.Search.{Walk, here, step}
use clanker_foundry.Model.Validate.Loop.{reached_states_iff, reached_states-Distinct}

-- The five checks of the graph, each passed.
pub record GraphOk (m : Model) (scan : Scan) : Type 0 where
  pub terminals : ℕ
  pub counted : count_terminals m.states scan.out 0 ≡ ok terminals
  pub some_terminal : 1 ≤ terminals
  pub all_reached : length (reached_states scan.edges m.initial) ≡ length m.states
  pub guards_used : check_used_guards m.guards scan.used_guards ≡ ok tt
  pub requirements_used :
      check_used_requirements m.requirements (map (λ g. g.requirement) m.guards) ≡ ok tt

pub GraphOk-of_check : (m : Model) (scan : Scan) → check_graph m scan ≡ ok tt → GraphOk m scan
unfolding check_graph
GraphOk-of_check m scan h = elim (Result-cases (count_terminals m.states scan.out 0)) [
  | inr (x, e) ↦ absurd (ground arith)
  | inl (n, e) ↦ record {
    terminals = n;
    counted = e;
    some_terminal = ground arith;
    all_reached = ground arith;
    guards_used = ground arith;
    requirements_used = ground arith;
  }
]

-- A state that is not terminal has an edge out.
pub count_terminals-open :
    (states : List State) (out : List Str) (k n : ℕ)
    → count_terminals states out k ≡ ok n
    → All (λ s. (s.terminal ≡ true) ⊎ (contains out s.id ≡ true)) states
unfolding count_terminals
count_terminals-open [] out k n h = tt
count_terminals-open (s ∷ states) out k n h = elim (Bool-cases s.terminal) [
  | inl t ↦ (inl t, count_terminals-open states out (k + 1) n (ground arith))
  | inr t ↦ (inr (ground arith), count_terminals-open states out k n (ground arith))
]

-- The count finds a terminal state if it grows.
pub count_terminals-some :
    (states : List State) (out : List Str) (k n : ℕ)
    → count_terminals states out k ≡ ok n
    → k < n
    → (s : State) × Memᴰ s states × (s.terminal ≡ true)
unfolding count_terminals
count_terminals-some [] out k n h lt = absurd (ground arith)
count_terminals-some (s ∷ states) out k n h lt = elim (Bool-cases s.terminal) [
  | inl t ↦ (s, Memᴰ.head refl, t)
  | inr t ↦
      let (u, m, e) = count_terminals-some states out k n (ground arith) lt in (u, Memᴰ.tail m, e)
]

pub check_used_guards-All :
    (guards : List Guard) (used : List Str)
    → check_used_guards guards used ≡ ok tt
    → All (λ g. Memᴰ g.id used) guards
unfolding check_used_guards
check_used_guards-All [] used h = tt
check_used_guards-All (g ∷ guards) used h =
    ((contains_iff used g.id).0 (ground arith), check_used_guards-All guards used (ground arith))

pub check_used_requirements-All :
    (requirements : List Requirement) (used : List Str)
    → check_used_requirements requirements used ≡ ok tt
    → All (λ r. Memᴰ r.id used) requirements
unfolding check_used_requirements
check_used_requirements-All [] used h = tt
check_used_requirements-All (r ∷ requirements) used h = (
  (contains_iff used r.id).0 (ground arith),
  check_used_requirements-All requirements used (ground arith),
)

pub Memᴰ_state_id : (s : State) (states : List State) → Memᴰ s states → Memᴰ s.id (state_ids states)
unfolding state_ids
Memᴰ_state_id s states m = Memᴰ.map (λ u. u.id) m

-- A walk stays within the declared states.
pub Walk-declared :
    (m : Model) (guards : List Str)
    → Memᴰ m.initial (state_ids m.states)
    → All (IsTransitionOk m.states guards) m.transitions
    → {w : Str} → Walk (map edge_of m.transitions) m.initial w
    → Memᴰ w (state_ids m.states)
Walk-declared m guards i h here = i
Walk-declared m guards i h (step {u} {v} p edge) =
    let (t, k, e) = Memᴰ.of_map edge_of m.transitions edge in
    let good = All_at (IsTransitionOk m.states guards) m.transitions h k in
    let (l, same) = find_state-eq-some m.states t.to good.target good.target_found in
    Memᴰ.cast (ap (λ (x : Str × Str). x.1) (sym e) ∙ sym same)
      (Memᴰ_state_id good.target m.states l)

-- As many states reached as there are: a walk leads to every one of them.
pub Walk-every :
    (m : Model) (guards : List Str)
    → Memᴰ m.initial (state_ids m.states)
    → All (IsTransitionOk m.states guards) m.transitions
    → length (reached_states (map edge_of m.transitions) m.initial) ≡ length m.states
    → (s : State) → Memᴰ s m.states
    → Walk (map edge_of m.transitions) m.initial s.id
unfolding state_ids
Walk-every m guards i h e s k =
    let edges = map edge_of m.transitions in
    (reached_states_iff edges m.initial s.id).0 (
      distinct_full (reached_states edges m.initial) (state_ids m.states)
        (reached_states-Distinct edges m.initial)
        (λ a r. Walk-declared m guards i h ((reached_states_iff edges m.initial a).0 r))
        (omega (arith, e, length-map (λ (u : State). u.id) m.states)) s.id
        (Memᴰ_state_id s m.states k))
