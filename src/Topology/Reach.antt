-- ===== src/Topology/Reach.antt =====
-- The matrix of `Analyze` is reachability along the transitions, and its cycles are mutual
-- reachability.
use mathlib.Core.List.Memᴰ
use clanker_foundry.Prelude.{
  ◌≡◌, sym, ap, ◌∙◌, subst, ◌↔◌, ◌⊎◌, inl, inr, true, List, map, Memᴰ, All_at, ok,
}
use clanker_foundry.Text.{Str}
use clanker_foundry.Model.{Transition, Model}
use clanker_foundry.Model.Validate.{validate, state_ids, guard_ids}
use clanker_foundry.Model.Validate.Search.{Walk, here, step}
use clanker_foundry.Model.Validate.Records.{find_state-eq-some}
use clanker_foundry.Model.Validate.Transitions.{IsTransitionOk, edge_of}
use clanker_foundry.Model.Validate.Accepts.{Passes-of_validate}
use clanker_foundry.Model.Validate.Graph.{Memᴰ_state_id}
use clanker_foundry.Topology.{reaches, start_matrix, reach_of}
use clanker_foundry.Topology.Closure.{
  Has, Within, reaches_iff, close_through-Closed, close_through_within,
}

pub Walk-trans :
    {edges : List (Str × Str)} {a b c : Str} → Walk edges a b → Walk edges b c → Walk edges a c
Walk-trans p here = p
Walk-trans p (step q e) = step (Walk-trans p q) e

edge_states :
    (m : Model)
    → validate m ≡ ok tt
    → (a b : Str) → Memᴰ {A = Str × Str} (a, b) (map edge_of m.transitions)
    → Memᴰ a (state_ids m.states) × Memᴰ b (state_ids m.states)
edge_states m h a b edge =
    let p = Passes-of_validate m h in
    let (t, k, e) = Memᴰ.of_map edge_of m.transitions edge in
    let good =
      All_at (IsTransitionOk m.states (guard_ids m.guards)) m.transitions p.transitions_ok.all_ok
        k in
    let (l, from) = find_state-eq-some m.states t.from good.source good.source_found in
    let (n, to) = find_state-eq-some m.states t.to good.target good.target_found in
    (
      Memᴰ.cast (ap (λ (x : Str × Str). x.0) (sym e) ∙ sym from)
          (Memᴰ_state_id good.source m.states l),
      Memᴰ.cast (ap (λ (x : Str × Str). x.1) (sym e) ∙ sym to)
          (Memᴰ_state_id good.target m.states n),
    )

start_cases :
    (states : List Str) (transitions : List Transition) (i j : Str)
    → Has (start_matrix states transitions) i j
    → (i ≡ j) × Memᴰ i states ⊎ Memᴰ {A = Str × Str} (i, j) (map edge_of transitions)
unfolding start_matrix
start_cases states transitions i j m = elim (Memᴰ.append_cases (map (λ s. (s, s)) states) m) [
  | inr n ↦ inr n
  | inl n ↦
      let (s, k, e) = Memᴰ.of_map {B = Str × Str} (λ s. (s, s)) states n in
      let left = ap (λ (x : Str × Str). x.0) e in
      let right = ap (λ (x : Str × Str). x.1) e in inl (sym left ∙ right, Memᴰ.cast (sym left) k)
]

module _ (m : Model) (valid : validate m ≡ ok tt) where
  abbrev ids : List Str
  ids = state_ids m.states

  abbrev edges : List (Str × Str)
  edges = map edge_of m.transitions

  start-Within : Within ids (start_matrix ids m.transitions)
  start-Within i j k = elim (start_cases ids m.transitions i j k) [
    | inl (e, n) ↦ (n, Memᴰ.cast (sym e) n)
    | inr n ↦ edge_states m valid i j n
  ]

  start-Walk : (i j : Str) → Has (start_matrix ids m.transitions) i j → Walk edges i j
  start-Walk i j k = elim (start_cases ids m.transitions i j k) [
    | inl (e, n) ↦ subst (Walk edges i) e here
    | inr n ↦ step here n
  ]

  reach_of-Walk : (i j : Str) → Has (reach_of m) i j → Walk edges i j
  unfolding reach_of
  reach_of-Walk =
      close_through_within (Walk edges) (λ i j k p q. Walk-trans p q) ids ids
        (start_matrix ids m.transitions) start-Within start-Walk

  walk_within : {i j : Str} → Memᴰ i ids → Walk edges i j → Memᴰ j ids
  walk_within n here = n
  walk_within n (step {u} {v} p e) = (edge_states m valid u v e).1

  reach_of-Has : (i : Str) → Memᴰ i ids → {j : Str} → Walk edges i j → Has (reach_of m) i j
  unfolding reach_of start_matrix
  reach_of-Has i n here =
      (close_through-Closed ids ids (start_matrix ids m.transitions) start-Within).0 i i
        (Memᴰ.append_left _ (Memᴰ.map {B = Str × Str} (λ s. (s, s)) n))
  reach_of-Has i n (step {u} {v} p e) =
      let (grows, closed) =
        close_through-Closed ids ids (start_matrix ids m.transitions) start-Within in
      closed u (inl (walk_within n p)) i v (reach_of-Has i n p)
        (grows u v (Memᴰ.append_right (map (λ s. (s, s)) ids) e))

  -- In an accepted model, the closure that `Analyze` computes in place has exactly the pairs of
  -- states that a walk along the transitions connects, every state with itself included.
  pub reach_of_iff :
      (i j : Str)
      → Memᴰ i (state_ids m.states)
      → (reaches (reach_of m) i j ≡ true) ↔ Walk (map edge_of m.transitions) i j
  reach_of_iff i j n = (
    λ h. reach_of-Walk i j ((reaches_iff (reach_of m) i j).0 h),
    λ p. (reaches_iff (reach_of m) i j).1 (reach_of-Has i n p),
  )
