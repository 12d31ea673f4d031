-- ===== src/Impact/Same.antt =====
-- A comparison finds no change exactly between equal normal forms.
use clanker_foundry.Prelude.{
  ◌≡◌, refl, subst, ◌↔◌, inl, inr, some, List, [], map, Memᴰ, Option-cases,
}
use clanker_foundry.Text.{Str, str, str_eq}
use clanker_foundry.Distinct.{Distinct}
use clanker_foundry.Sort.Unique.{strict_eq, IsStrict}
use clanker_foundry.Model.{Model}
use clanker_foundry.Model.Normalize.Sorted.{IsNormal}
use clanker_foundry.Impact.{
  ElementKey, Fields, Elements, elements_of, element_at, changes_of, compared_keys, is_some,
  root_fields, state_fields, requirement_fields, guard_fields, transition_fields, differing,
}
use clanker_foundry.Impact.Elements.{
  element_at-eq-some, element_at-eq-none, IsElement-of, differing_refl,
}
use clanker_foundry.Impact.Changes.{
  Holds, Agree-before, Agree-after, same_record, same_record_back, compared_iff, changes_at-none,
  change_of_same,
}
use clanker_foundry.Impact.Kinds.{
  recover_root, recover_state, recover_requirement, recover_guard, recover_transition, states_hold,
  requirements_hold, guards_hold, transitions_hold,
}

module _ (b a : Model) (nb : IsNormal b) (na : IsNormal a) where
  module _ (same : changes_of (elements_of b) (elements_of a) ≡ []) where
    kind_same :
        {A : Type 0} (kind : Str) (id : A → Str) (fields : A → Fields)
        (recover : (x y : A) → id x ≡ id y → differing (fields x) (fields y) ≡ [] → x ≡ y)
        (xs ys : List A)
        → Holds kind id fields recover (elements_of b) xs
        → Holds kind id fields recover (elements_of a) ys
        → Distinct (map id xs)
        → Distinct (map id ys)
        → IsStrict id xs
        → IsStrict id ys
        → xs ≡ ys
    kind_same kind id fields recover xs ys hb ha d c s t =
        strict_eq id xs ys s t
          (λ x m.
            same_record kind id fields recover (elements_of b) (elements_of a) xs ys hb ha d x m
              (Agree-before (elements_of b) (elements_of a) same (kind, id x) (hb.1 x m)))
          (λ x m.
            same_record_back kind id fields recover (elements_of b) (elements_of a) xs ys hb ha c x
              m (Agree-after (elements_of b) (elements_of a) same (kind, id x) (ha.1 x m)))

    root_of :
        (m : Model) {f : Fields}
        → element_at (elements_of m) (str "model", []) ≡ some f
        → f ≡ root_fields m
    unfolding elements_of element_at clanker_foundry.Impact.key_eq str_eq
    root_of m h = cc

    root_same : (b.id ≡ a.id) × (b.initial ≡ a.initial)
    unfolding elements_of
    root_same =
        let (f, g, e, h, equal) =
          Agree-before (elements_of b) (elements_of a) same (str "model", []) (Memᴰ.head refl) in
        recover_root b a (
          subst (λ u. differing (root_fields b) u ≡ []) (root_of a h)
            (subst (λ u. differing u g ≡ []) (root_of b e) equal))

    same_models : b.version ≡ a.version → b ≡ a
    same_models version =
        let states =
          kind_same (str "state") (λ s. s.id) state_fields recover_state b.states a.states
            (states_hold b) (states_hold a) nb.ids.states na.ids.states nb.states na.states in
        let requirements =
          kind_same (str "requirement") (λ r. r.id) requirement_fields recover_requirement
            b.requirements a.requirements (requirements_hold b) (requirements_hold a)
            nb.ids.requirements na.ids.requirements nb.requirements na.requirements in
        let guards =
          kind_same (str "guard") (λ g. g.id) guard_fields recover_guard b.guards a.guards
            (guards_hold b) (guards_hold a) nb.ids.guards na.ids.guards nb.guards na.guards in
        let transitions =
          kind_same (str "transition") (λ t. t.id) transition_fields recover_transition
            b.transitions a.transitions (transitions_hold b) (transitions_hold a) nb.ids.transitions
            na.ids.transitions nb.transitions na.transitions in
        λ i. record {
          version = version i;
          id = root_same.0 i;
          initial = root_same.1 i;
          states = states i;
          requirements = requirements i;
          guards = guards i;
          transitions = transitions i;
        }

-- A model has no changes against itself.
no_changes : (m : Model) → changes_of (elements_of m) (elements_of m) ≡ []
unfolding changes_of
no_changes m =
    let es = elements_of m in
    changes_at-none es es (compared_keys es es) (λ k n. elim (Option-cases (element_at es k)) [
      | inl e ↦ absurd (elim ((compared_iff es es k).0 n) [
        | inl l ↦ element_at-eq-none es k e l
        | inr (l, _) ↦ element_at-eq-none es k e l
      ])
      | inr (f, e) ↦ rw e (
          change_of_same k f f
            (differing_refl m k f (IsElement-of m k f (element_at-eq-some es k f e))))
    ])

-- Two normal forms are equal exactly if the comparison of their elements finds no change.
pub changes_of-nil_iff :
    (b a : Model)
    → IsNormal b
    → IsNormal a
    → b.version ≡ a.version
    → (changes_of (elements_of b) (elements_of a) ≡ []) ↔ (b ≡ a)
changes_of-nil_iff b a nb na version = (
  λ same. same_models b a nb na same version,
  λ e. subst (λ u. changes_of (elements_of b) (elements_of u) ≡ []) e (no_changes b),
)
