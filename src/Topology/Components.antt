-- ===== src/Topology/Components.antt =====
-- The parts that the loop over the states finds: all that are mutually reachable with a state.
use mathlib.Core.List.Memᴰ
use clanker_foundry.Prelude.{
  ◌≡◌, refl, sym, ◌∙◌, ◌≢◌, ◌↔◌, ◌⊎◌, inl, inr, Bool, true, false, not, ◌&&◌, ◌||◌, List, ◌++◌, map,
  Memᴰ, Bool-cases, arith, length, and_split, any_of_mem, ltb, ok, any_of-at,
}
use clanker_foundry.Text.{Str, str_eq, contains}
use clanker_foundry.Text.Laws.{str_eq_iff, contains_iff}
use clanker_foundry.Model.{Transition, Model}
use clanker_foundry.Model.Validate.{validate, state_ids}
use clanker_foundry.Model.Validate.Search.{Walk}
use clanker_foundry.Model.Validate.Transitions.{edge_of}
use clanker_foundry.Impact.Changes.{Memᴰ-select_iff}
use clanker_foundry.Distinct.{Distinct, Distinct-of_append, Distinct-select}
use clanker_foundry.Model.Validate.Guarantees.{validate-ids-Distinct}
use clanker_foundry.Topology.{reaches, reach_of, component_of, cycle_of, has_self_loop, Cycle}
use clanker_foundry.Topology.Reach.{Walk-trans, reach_of_iff}
use clanker_foundry.Topology.Members.{
  not_in, out_of, two_members, only_member, or_second, other_member,
}

module _ (m : Model) (valid : validate m ≡ ok tt) where
  abbrev pub ids : List Str
  ids = state_ids m.states

  -- Each of the two is reached from the other.
  abbrev pub Mutual : Str → Str → Type 0
  Mutual i j = Walk (map edge_of m.transitions) i j × Walk (map edge_of m.transitions) j i

  component_iff :
      (used : List Str) (i j : Str)
      → Memᴰ i ids
      → Memᴰ j (component_of (reach_of m) used i ids)
        ↔ (Memᴰ j ids × (contains used j ≡ false) × Mutual i j)
  unfolding component_of
  component_iff used i j n =
      let r = reach_of m in
      let (to, of) =
        Memᴰ-select_iff (λ k. not (contains used k) && (reaches r i k && reaches r k i)) ids j in
      (
        λ l.
            let (k, e) = to l in
            let (p, q) = and_split (not (contains used j)) (reaches r i j && reaches r j i) e in
            let (a, b) = and_split (reaches r i j) (reaches r j i) q in
            (
              k,
              ground (arith, p),
              ((reach_of_iff m valid i j n).0 a, (reach_of_iff m valid j i k).0 b),
            ),
        λ (k, fresh, (a, b)).
            let a' = (reach_of_iff m valid i j n).1 a in
            let b' = (reach_of_iff m valid j i k).1 b in of (k, rw (fresh, a', b') refl),
      )

  -- With a state, all that are mutually reachable with it have been used.
  abbrev pub Whole : List Str → Type 0
  Whole used = (i j : Str) → Memᴰ j used → Memᴰ i ids → Mutual i j → Memᴰ i used

  pub members_iff :
      (used : List Str) (i j : Str)
      → Whole used
      → Memᴰ i ids
      → contains used i ≡ false
      → Memᴰ j (component_of (reach_of m) used i ids) ↔ (Memᴰ j ids × Mutual i j)
  members_iff used i j w n e = (
    λ l. let (k, f, p) = (component_iff used i j n).0 l in (k, p),
    λ (k, p).
        (component_iff used i j n).1 (k, out_of used j (λ u. not_in used i e (w i j u n p)), p),
  )

  pub Whole-more :
      (used : List Str) (i : Str)
      → Whole used
      → Memᴰ i ids
      → contains used i ≡ false
      → Whole (component_of (reach_of m) used i ids ++ used)
  Whole-more used i w n e a j l k (p, q) =
      let members = component_of (reach_of m) used i ids in
      elim (Memᴰ.append_cases members l) [
        | inl l' ↦
            let (_, (x, y)) = (members_iff used i j w n e).0 l' in
            Memᴰ.append_left used
              ((members_iff used i a w n e).1 (k, (Walk-trans x q, Walk-trans p y)))
        | inr l' ↦ Memᴰ.append_right members (w a j l' k (p, q))
      ]

  -- A strongly connected part, as a list of all of its states.
  abbrev pub IsPart : Cycle → Type 0
  IsPart c = (i : Str) × Memᴰ i ids × ((j : Str) → Memᴰ j c.states ↔ (Memᴰ j ids × Mutual i j))

  pub IsPart-of :
      (used : List Str) (i : Str)
      → Whole used
      → Memᴰ i ids
      → contains used i ≡ false
      → IsPart (cycle_of m.transitions (component_of (reach_of m) used i ids))
  unfolding cycle_of
  IsPart-of used i w n e = (i, n, λ j. members_iff used i j w n e)

  -- On a cycle: another state is mutually reachable, or there is a transition to itself.
  abbrev pub OnCycle : Str → Type 0
  OnCycle i =
      ((j : Str) × Memᴰ j ids × (i ≢ j) × Mutual i j)
      ⊎ ((t : Transition) × Memᴰ t m.transitions × (t.from ≡ i) × (t.to ≡ i))

  pub reported :
      (used : List Str) (i a : Str)
      → Whole used
      → Memᴰ i ids
      → contains used i ≡ false
      → Memᴰ a (component_of (reach_of m) used i ids)
      → OnCycle a
      → (ltb 1 (length (component_of (reach_of m) used i ids))
          || has_self_loop m.transitions (component_of (reach_of m) used i ids))
        ≡ true
  unfolding has_self_loop
  reported used i a w n e l (inl (j, k, h, (p, q))) =
      let members = component_of (reach_of m) used i ids in
      let (_, (x, y)) = (members_iff used i a w n e).0 l in
      let other = (members_iff used i j w n e).1 (k, (Walk-trans x p, Walk-trans q y)) in
      rw (two_members a j members l other h) refl
  reported used i a w n e l (inr (t, k, from_a, to_a)) =
      let members = component_of (reach_of m) used i ids in
      let test = λ (u : Transition).
        contains members u.from && (contains members u.to && str_eq u.from u.to) in
      let source = (contains_iff members t.from).1 (Memᴰ.cast from_a l) in
      let target = (contains_iff members t.to).1 (Memᴰ.cast to_a l) in
      let loop = (str_eq_iff t.from t.to).1 (from_a ∙ sym to_a) in
      or_right (ltb 1 (length members))
        (any_of_mem test m.transitions k (rw (source, target, loop) refl))
    where
      or_right : (x : Bool) {y : Bool} → y ≡ true → (x || y) ≡ true
      or_right x e = ground (arith, e)

  -- The members of a part that is reported are on a cycle.
  pub member-OnCycle :
      (used : List Str) (i a : Str)
      → Whole used
      → Memᴰ i ids
      → contains used i ≡ false
      → (ltb 1 (length (component_of (reach_of m) used i ids))
          || has_self_loop m.transitions (component_of (reach_of m) used i ids))
        ≡ true
      → Memᴰ a (component_of (reach_of m) used i ids)
      → OnCycle a
  unfolding has_self_loop component_of
  member-OnCycle used i a w n e b l =
      let members = component_of (reach_of m) used i ids in
      let (_, (x, y)) = (members_iff used i a w n e).0 l in
      let distinct : Distinct members =
        Distinct-select _ ids (Distinct-of_append ids _ (validate-ids-Distinct m valid).1).0 in
      elim (Bool-cases (ltb 1 (length members))) [
        | inl long ↦
            let (j, k, h) = other_member a members distinct l long in
            let (k', (p, q)) = (members_iff used i j w n e).0 k in
            inl (j, k', h, (Walk-trans y p, Walk-trans q x))
        | inr short ↦
            let loops : has_self_loop m.transitions members ≡ true = or_second _ _ b short in
            let (t, k, q) = any_of-at _ m.transitions loops in
            let (from_in, rest) = and_split (contains members t.from) _ q in
            let (_, same) = and_split (contains members t.to) _ rest in
            let from_a =
              only_member t.from a members short ((contains_iff members t.from).0 from_in) l in
            inr (t, k, from_a, sym ((str_eq_iff t.from t.to).0 same) ∙ from_a)
      ]
