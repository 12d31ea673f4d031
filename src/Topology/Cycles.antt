-- ===== src/Topology/Cycles.antt =====
-- The cycles of `Analyze` are the strongly connected parts of the state graph.
use mathlib.Core.List.Memᴰ
use clanker_foundry.Prelude.{
  ◌≡◌, refl, sym, subst, ◌↔◌, inl, inr, ◌||◌, List, [], ◌∷◌, ◌++◌, map, Memᴰ, Bool-cases, length,
  ltb, ok, All, All_of_mem,
}
use clanker_foundry.Text.{Str, contains}
use clanker_foundry.Text.Laws.{contains_iff}
use clanker_foundry.Model.{Model}
use clanker_foundry.Model.Validate.{validate, state_ids}
use clanker_foundry.Model.Validate.Search.{Walk, here}
use clanker_foundry.Model.Validate.Transitions.{edge_of}
use clanker_foundry.Topology.{reach_of, component_of, cycle_of, has_self_loop, cycles_from, Cycle}
use clanker_foundry.Topology.Members.{not_in}
use clanker_foundry.Topology.Components.{
  Whole, members_iff, Whole-more, IsPart, IsPart-of, OnCycle, reported, member-OnCycle,
}

module _ (m : Model) (valid : validate m ≡ ok tt) where
  abbrev from : List Str → List Str → List Cycle
  from used is = cycles_from (reach_of m) m.transitions (state_ids m.states) used is

  -- A strongly connected part, each state of which is on a cycle.
  abbrev IsReported : Cycle → Type 0
  IsReported c = IsPart m valid c × ((a : Str) → Memᴰ a c.states → OnCycle m valid a)

  parts_from :
      (used is : List Str)
      → Whole m valid used
      → ((i : Str) → Memᴰ i is → Memᴰ i (state_ids m.states))
      → (c : Cycle) → Memᴰ c (from used is)
      → IsReported c
  unfolding cycles_from cycle_of
  parts_from used [] w f c l = absurd (Memᴰ.not-nil l)
  parts_from used (i ∷ is) w f c l =
      let members = component_of (reach_of m) used i (state_ids m.states) in
      let n = f i (Memᴰ.head refl) in
      let f' : (j : Str) → Memᴰ j is → Memᴰ j (state_ids m.states) = (λ j k. f j (Memᴰ.tail k)) in
      elim (Bool-cases (contains used i)) [
        | inl e ↦ parts_from used is w f' c (rw e at l)
        | inr e ↦
            let later = parts_from (members ++ used) is (Whole-more m valid used i w n e) f' c in
            elim (Bool-cases (ltb 1 (length members) || has_self_loop m.transitions members)) [
              | inr d ↦ later (rw (e, d) at l)
              | inl d ↦
                  let l' : Memᴰ c (cycle_of m.transitions members ∷ from (members ++ used) is) =
                    rw (e, d) at l in
                  elim (Memᴰ.cases_cons l') [
                    | inl q ↦ subst IsReported (sym q) (
                      IsPart-of m valid used i w n e,
                      λ a. member-OnCycle m valid used i a w n e d,
                    )
                    | inr k ↦ later k
                  ]
            ]
      ]

  all_reported :
      (used is : List Str)
      → Whole m valid used
      → ((i : Str) → Memᴰ i is → Memᴰ i (state_ids m.states))
      → (a : Str) → Memᴰ a is
      → ¬ Memᴰ a used
      → OnCycle m valid a
      → (c : Cycle) × Memᴰ c (from used is) × Memᴰ a c.states
  unfolding cycles_from cycle_of
  all_reported used [] w f a l h on = absurd (Memᴰ.not-nil l)
  all_reported used (i ∷ is) w f a l h on =
      let members = component_of (reach_of m) used i (state_ids m.states) in
      let n = f i (Memᴰ.head refl) in
      let f' : (j : Str) → Memᴰ j is → Memᴰ j (state_ids m.states) = (λ j k. f j (Memᴰ.tail k)) in
      elim (Bool-cases (contains used i)) [
        | inl e ↦ rw e (
            all_reported used is w f' a
              (elim (Memᴰ.cases_cons l) [
                | inl q ↦ absurd (h (Memᴰ.cast q ((contains_iff used i).0 e)))
                | inr k ↦ k
              ])
              h on)
        | inr e ↦ elim (Bool-cases (contains members a)) [
          | inl d ↦
              let inside = (contains_iff members a).0 d in
              rw (e, reported m valid used i a w n e inside on)
                (cycle_of m.transitions members, Memᴰ.head refl, inside)
          | inr d ↦
              let outside = not_in members a d in
              let rest : Memᴰ a is = elim (Memᴰ.cases_cons l) [
                | inl q ↦ absurd (
                    outside (
                      (members_iff m valid used i a w n e).1 (
                        f a l,
                        (
                          subst (Walk (map edge_of m.transitions) i) (sym q) here,
                          subst (λ x. Walk (map edge_of m.transitions) x i) (sym q) here,
                        ),
                      )))
                | inr k ↦ k
              ] in
              let (c, k, p) =
                all_reported (members ++ used) is (Whole-more m valid used i w n e) f' a rest
                  (λ k. elim (Memᴰ.append_cases members k) [ inl x ↦ outside x | inr x ↦ h x ])
                  on in
              elim (Bool-cases (ltb 1 (length members) || has_self_loop m.transitions members)) [
                | inl b ↦ (c, rw (e, b) (Memᴰ.tail k), p)
                | inr b ↦ (c, rw (e, b) k, p)
              ]
        ]
      ]

  -- In an accepted model, each cycle of the report is a strongly connected part of the state graph,
  -- all of its states and no others, and a state is in a cycle of the report exactly if it is on a
  -- cycle: another state is mutually reachable with it, or it has a transition to itself.
  pub cycles_from_iff :
      (i : Str)
      → Memᴰ i (state_ids m.states)
      → All
          (IsPart m valid)
          (cycles_from (reach_of m) m.transitions (state_ids m.states) [] (state_ids m.states))
        × (((c : Cycle) × Memᴰ c (
                cycles_from (reach_of m) m.transitions (state_ids m.states) [] (state_ids m.states))
              × Memᴰ i c.states)
            ↔ OnCycle m valid i)
  cycles_from_iff i k =
      let cycles = from [] (state_ids m.states) in
      let found =
        parts_from [] (state_ids m.states) (λ a j l. absurd (Memᴰ.not-nil l)) (λ a n. n) in
      (
        All_of_mem (IsPart m valid) cycles (λ c l. (found c l).0),
        (
          λ (c, l, n). (found c l).1 i n,
          λ on.
              all_reported [] (state_ids m.states) (λ a j l. absurd (Memᴰ.not-nil l)) (λ a n. n) i k
                (λ l. Memᴰ.not-nil l) on,
        ),
      )
