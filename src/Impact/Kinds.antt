-- ===== src/Impact/Kinds.antt =====
-- The four kinds of records among the elements of a model, and how fields give a record back.
use mathlib.Core.List.Memᴰ
use clanker_foundry.Prelude.{
  ◌≡◌, refl, sym, ap, inl, inr, Option, some, List, [], map, Memᴰ, Bool, false,
}
use clanker_foundry.Text.{Str, str, str_eq}
use clanker_foundry.Text.Laws.{str_eq_iff}
use clanker_foundry.Model.{Expr, State, Requirement, Guard, Effect, Transition, Model}
use clanker_foundry.Impact.{
  text, flag, expression, names, effects, ElementKey, Fields, elements_of, element_at, field_at,
  differing, root_fields, state_fields, requirement_fields, guard_fields, transition_fields,
}
use clanker_foundry.Impact.Elements.{element_at-eq-some, IsElement, IsElement-of, differing-eq-nil}
use clanker_foundry.Impact.Changes.{Holds}

text_inj : {a b : Str} → Option.some (text a) ≡ some (text b) → b ≡ a
text_inj h = cc

flag_inj : {a b : Bool} → Option.some (flag a) ≡ some (flag b) → b ≡ a
flag_inj h = cc

expression_inj : {a b : Expr} → Option.some (expression a) ≡ some (expression b) → b ≡ a
expression_inj h = cc

names_inj : {a b : List Str} → Option.some (names a) ≡ some (names b) → b ≡ a
names_inj h = cc

effects_inj : {a b : List Effect} → Option.some (effects a) ≡ some (effects b) → b ≡ a
effects_inj h = cc

pub recover_root :
    (m n : Model)
    → differing (root_fields m) (root_fields n) ≡ []
    → (m.id ≡ n.id) × (m.initial ≡ n.initial)
unfolding field_at str_eq
recover_root m n h =
    let (p, (q, _)) = differing-eq-nil (root_fields m) (root_fields n) h in (text_inj p, text_inj q)

pub recover_state :
    (s t : State) → s.id ≡ t.id → differing (state_fields s) (state_fields t) ≡ [] → s ≡ t
unfolding field_at str_eq
recover_state s t e h =
    let (p, (q, _)) = differing-eq-nil (state_fields s) (state_fields t) h in
    λ i. record { id = e i; label = text_inj p i; terminal = flag_inj q i }

pub recover_requirement :
    (s t : Requirement)
    → s.id ≡ t.id
    → differing (requirement_fields s) (requirement_fields t) ≡ []
    → s ≡ t
unfolding field_at str_eq
recover_requirement s t e h =
    let (p, _) = differing-eq-nil (requirement_fields s) (requirement_fields t) h in
    λ i. record { id = e i; text = text_inj p i }

pub recover_guard :
    (s t : Guard) → s.id ≡ t.id → differing (guard_fields s) (guard_fields t) ≡ [] → s ≡ t
unfolding field_at str_eq
recover_guard s t e h =
    let (p, (q, _)) = differing-eq-nil (guard_fields s) (guard_fields t) h in
    λ i. record { id = e i; requirement = text_inj p i; condition = expression_inj q i }

pub recover_transition :
    (s t : Transition)
    → s.id ≡ t.id
    → differing (transition_fields s) (transition_fields t) ≡ []
    → s ≡ t
unfolding field_at str_eq
recover_transition s t e h =
    let (p, (q, (r, (u, (v, _))))) =
      differing-eq-nil (transition_fields s) (transition_fields t) h in
    λ i. record {
      id = e i;
      from = text_inj p i;
      trigger = text_inj q i;
      to = text_inj r i;
      guards = names_inj u i;
      effects = effects_inj v i;
    }

module _ (m : Model) where
  is_element :
      (k : ElementKey) (f : Fields) → element_at (elements_of m) k ≡ some f → IsElement m k f
  is_element k f e = IsElement-of m k f (element_at-eq-some (elements_of m) k f e)

  key_of :
      {k : ElementKey} {f : Fields}
      → Memᴰ {A = ElementKey × Fields} (k, f) (elements_of m)
      → Memᴰ k (map (λ e. e.0) (elements_of m))
  key_of n = Memᴰ.map {B = ElementKey} (λ e. e.0) n

  kinds_differ : {k l i j : Str} → str_eq k l ≡ false → ¬ (◌≡◌ {A = ElementKey} (k, i) (l, j))
  kinds_differ {k} {l} h e = cc (h, (str_eq_iff k l).1 (ap (λ u. u.0) e))

  -- The element at a key with the kind of a list of records is one of them.
  pub states_hold :
      Holds (str "state") (λ (s : State). s.id) state_fields recover_state (elements_of m) m.states
  unfolding elements_of str_eq
  states_hold = (
    λ i f e. elim (is_element (str "state", i) f e) [
      | inl (q, _) ↦ absurd (kinds_differ refl q)
      | inr (inl (x, n, q, d)) ↦ (x, n, sym (ap (λ u. u.1) q), d)
      | inr (inr (inl (x, n, q, d))) ↦ absurd (kinds_differ refl q)
      | inr (inr (inr (inl (x, n, q, d)))) ↦ absurd (kinds_differ refl q)
      | inr (inr (inr (inr (x, n, q, d)))) ↦ absurd (kinds_differ refl q)
    ],
    λ x n. key_of (Memᴰ.tail (Memᴰ.append_left _ (Memᴰ.map _ n))),
  )

  pub requirements_hold :
      Holds
        (str "requirement")
        (λ (r : Requirement). r.id)
        requirement_fields
        recover_requirement
        (elements_of m)
        m.requirements
  unfolding elements_of str_eq
  requirements_hold = (
    λ i f e. elim (is_element (str "requirement", i) f e) [
      | inl (q, _) ↦ absurd (kinds_differ refl q)
      | inr (inl (x, n, q, d)) ↦ absurd (kinds_differ refl q)
      | inr (inr (inl (x, n, q, d))) ↦ (x, n, sym (ap (λ u. u.1) q), d)
      | inr (inr (inr (inl (x, n, q, d)))) ↦ absurd (kinds_differ refl q)
      | inr (inr (inr (inr (x, n, q, d)))) ↦ absurd (kinds_differ refl q)
    ],
    λ x n.
        key_of (Memᴰ.tail (Memᴰ.append_right (map _ m.states) (Memᴰ.append_left _ (Memᴰ.map _ n)))),
  )

  pub guards_hold :
      Holds (str "guard") (λ (g : Guard). g.id) guard_fields recover_guard (elements_of m) m.guards
  unfolding elements_of str_eq
  guards_hold = (
    λ i f e. elim (is_element (str "guard", i) f e) [
      | inl (q, _) ↦ absurd (kinds_differ refl q)
      | inr (inl (x, n, q, d)) ↦ absurd (kinds_differ refl q)
      | inr (inr (inl (x, n, q, d))) ↦ absurd (kinds_differ refl q)
      | inr (inr (inr (inl (x, n, q, d)))) ↦ (x, n, sym (ap (λ u. u.1) q), d)
      | inr (inr (inr (inr (x, n, q, d)))) ↦ absurd (kinds_differ refl q)
    ],
    λ x n. key_of (
        Memᴰ.tail (
          Memᴰ.append_right (map _ m.states)
            (Memᴰ.append_right (map _ m.requirements) (Memᴰ.append_left _ (Memᴰ.map _ n))))),
  )

  pub transitions_hold :
      Holds
        (str "transition")
        (λ (t : Transition). t.id)
        transition_fields
        recover_transition
        (elements_of m)
        m.transitions
  unfolding elements_of str_eq
  transitions_hold = (
    λ i f e. elim (is_element (str "transition", i) f e) [
      | inl (q, _) ↦ absurd (kinds_differ refl q)
      | inr (inl (x, n, q, d)) ↦ absurd (kinds_differ refl q)
      | inr (inr (inl (x, n, q, d))) ↦ absurd (kinds_differ refl q)
      | inr (inr (inr (inl (x, n, q, d)))) ↦ absurd (kinds_differ refl q)
      | inr (inr (inr (inr (x, n, q, d)))) ↦ (x, n, sym (ap (λ u. u.1) q), d)
    ],
    λ x n. key_of (
        Memᴰ.tail (
          Memᴰ.append_right (map _ m.states) (
            Memᴰ.append_right (map _ m.requirements)
              (Memᴰ.append_right (map _ m.guards) (Memᴰ.map _ n))))),
  )
