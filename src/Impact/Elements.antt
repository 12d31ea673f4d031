-- ===== src/Impact/Elements.antt =====
-- The elements of a model: lookups, and what a comparison of fields says.
use mathlib.Core.List.Memᴰ
use clanker_foundry.Prelude.{
  ◌≡◌, refl, sym, ap, ◌∙◌, subst, ◌⊎◌, inl, inr, true, none, some, arith, Bool-cases, Option-cases,
  and_split, List, [], ◌∷◌, map, Memᴰ, All,
}
use clanker_foundry.Text.{Str, str, str_eq}
use clanker_foundry.Text.Laws.{str_eq_iff, str_eq_refl}
use clanker_foundry.Model.{State, Requirement, Guard, Transition, Model}
use clanker_foundry.Model.Equal.{
  Decides, bool_eq_iff, effect_eq, effect_eq_iff, list_eq_to, list_eq_refl, expr_eq_to,
  expr_eq_refl,
}
use clanker_foundry.Impact.{
  Value, text, flag, expression, names, effects, value_eq, ElementKey, Fields, Elements, key_eq,
  elements_of, element_at, field_at, same_field, differing, root_fields, state_fields,
  requirement_fields, guard_fields, transition_fields,
}

value_eq_refl : (v : Value) → value_eq v v ≡ true
unfolding value_eq
value_eq_refl (text a) = str_eq_refl a
value_eq_refl (flag a) = (bool_eq_iff a a).1 refl
value_eq_refl (expression a) = expr_eq_refl a
value_eq_refl (names a) = list_eq_refl str_eq str_eq_iff a
value_eq_refl (effects a) = list_eq_refl effect_eq effect_eq_iff a

value_eq_to : (v w : Value) → value_eq v w ≡ true → v ≡ w
unfolding value_eq
value_eq_to (text a) (text b) h = ap text ((str_eq_iff a b).0 h)
value_eq_to (flag a) (flag b) h = ap flag ((bool_eq_iff a b).0 h)
value_eq_to (expression a) (expression b) h = ap expression (expr_eq_to a b h)
value_eq_to (names a) (names b) h = ap names (list_eq_to str_eq str_eq_iff a b h)
value_eq_to (effects a) (effects b) h = ap effects (list_eq_to effect_eq effect_eq_iff a b h)
value_eq_to (text a) (flag b) h = cc
value_eq_to (text a) (expression b) h = cc
value_eq_to (text a) (names b) h = cc
value_eq_to (text a) (effects b) h = cc
value_eq_to (flag a) (text b) h = cc
value_eq_to (flag a) (expression b) h = cc
value_eq_to (flag a) (names b) h = cc
value_eq_to (flag a) (effects b) h = cc
value_eq_to (expression a) (text b) h = cc
value_eq_to (expression a) (flag b) h = cc
value_eq_to (expression a) (names b) h = cc
value_eq_to (expression a) (effects b) h = cc
value_eq_to (names a) (text b) h = cc
value_eq_to (names a) (flag b) h = cc
value_eq_to (names a) (expression b) h = cc
value_eq_to (names a) (effects b) h = cc
value_eq_to (effects a) (text b) h = cc
value_eq_to (effects a) (flag b) h = cc
value_eq_to (effects a) (expression b) h = cc
value_eq_to (effects a) (names b) h = cc

pub key_eq_iff : Decides key_eq
unfolding key_eq
key_eq_iff (k, i) (l, j) = (
  λ h.
      let (p, q) = and_split (str_eq k l) (str_eq i j) h in
      λ n. ((str_eq_iff k l).0 p n, (str_eq_iff i j).0 q n),
  λ e. ground (arith, (str_eq_iff k l).1 (ap (λ u. u.0) e), (str_eq_iff i j).1 (ap (λ u. u.1) e)),
)

pub element_at-eq-some :
    (es : Elements) (k : ElementKey) (f : Fields) → element_at es k ≡ some f → Memᴰ (k, f) es
unfolding element_at
element_at-eq-some [] k f h = cc
element_at-eq-some ((l, g) ∷ es) k f h = elim (Bool-cases (key_eq l k)) [
  | inl e ↦
      let same : g ≡ f = ground (arith, e) in
      Memᴰ.head (λ n. (sym ((key_eq_iff l k).0 e) n, sym same n))
  | inr e ↦ Memᴰ.tail (element_at-eq-some es k f (ground (arith, e)))
]

pub element_at-eq-none :
    (es : Elements) (k : ElementKey) → element_at es k ≡ none → ¬ Memᴰ k (map (λ e. e.0) es)
unfolding element_at
element_at-eq-none [] k h m = Memᴰ.not-nil m
element_at-eq-none ((l, g) ∷ es) k h m = elim (Memᴰ.cases_cons m) [
  | inl q ↦ ground (arith, (key_eq_iff l k).1 (sym q))
  | inr n ↦ elim (Bool-cases (key_eq l k)) [
    | inl e ↦ ground (arith, e)
    | inr e ↦ element_at-eq-none es k (ground (arith, e)) n
  ]
]

-- What the key and the fields of an element of a model are.
abbrev pub IsRecord :
    {A : Type 0} → Str → (A → Str) → (A → Fields) → List A → ElementKey → Fields → Type 0
IsRecord {A} kind id fields xs k f = (x : A) × Memᴰ x xs × (k ≡ (kind, id x)) × (f ≡ fields x)

abbrev pub IsElement : Model → ElementKey → Fields → Type 0
IsElement m k f =
    ((k ≡ (str "model", [])) × (f ≡ root_fields m))
    ⊎ (IsRecord (str "state") (λ (s : State). s.id) state_fields m.states k f
        ⊎ (IsRecord (str "requirement") (λ (r : Requirement). r.id) requirement_fields
              m.requirements k f
            ⊎ (IsRecord (str "guard") (λ (g : Guard). g.id) guard_fields m.guards k f
                ⊎ IsRecord (str "transition") (λ (t : Transition). t.id) transition_fields
                    m.transitions k f)))

IsRecord-of :
    {A : Type 0} (kind : Str) (id : A → Str) (fields : A → Fields) (xs : List A) (k : ElementKey)
    (f : Fields)
    → Memᴰ {A = ElementKey × Fields} (k, f) (map (λ x. ((kind, id x), fields x)) xs)
    → IsRecord kind id fields xs k f
IsRecord-of kind id fields xs k f m =
    let (x, n, e) = Memᴰ.of_map (λ x. ((kind, id x), fields x)) xs m in
    (x, n, sym (ap (λ u. u.0) e), sym (ap (λ u. u.1) e))

pub IsElement-of :
    (m : Model) (k : ElementKey) (f : Fields) → Memᴰ (k, f) (elements_of m) → IsElement m k f
unfolding elements_of
IsElement-of m k f h = elim (Memᴰ.cases_cons h) [
  | inl q ↦ inl (ap (λ u. u.0) q, ap (λ u. u.1) q)
  | inr h₁ ↦ elim (Memᴰ.append_cases (map _ m.states) h₁) [
    | inl n ↦
        inr (inl (IsRecord-of (str "state") (λ (s : State). s.id) state_fields m.states k f n))
    | inr h₂ ↦ elim (Memᴰ.append_cases (map _ m.requirements) h₂) [
      | inl n ↦ inr (
          inr (
            inl (
              IsRecord-of (str "requirement") (λ (r : Requirement). r.id) requirement_fields
                m.requirements k f n)))
      | inr h₃ ↦ elim (Memᴰ.append_cases (map _ m.guards) h₃) [
        | inl n ↦ inr (
            inr (
              inr (
                inl (IsRecord-of (str "guard") (λ (g : Guard). g.id) guard_fields m.guards k f n))))
        | inr n ↦ inr (
            inr (
              inr (
                inr (
                  IsRecord-of (str "transition") (λ (t : Transition). t.id) transition_fields
                    m.transitions k f n))))
      ]
    ]
  ]
]

same_field_to :
    (next : Fields) (name : Str) (v : Value)
    → same_field next (name, v) ≡ true
    → field_at next name ≡ some v
unfolding same_field
same_field_to next name v h = elim (Option-cases (field_at next name)) [
  | inl e ↦ ground (arith, e)
  | inr (w, e) ↦
      let equal : value_eq v w ≡ true = rw (e, same_field) at h in
      e ∙ ap some (sym (value_eq_to v w equal))
]

-- Fields that do not differ are found again.
pub differing-eq-nil :
    (old next : Fields) → differing old next ≡ [] → All (λ f. field_at next (f.0) ≡ some (f.1)) old
unfolding differing
differing-eq-nil [] next h = tt
differing-eq-nil ((name, v) ∷ old) next h = elim (Bool-cases (same_field next (name, v))) [
  | inl e ↦ (same_field_to next name v e, differing-eq-nil old next (ground (arith, e)))
  | inr e ↦ ground (arith, e)
]

same_field_found :
    (next : Fields) (name : Str) (v : Value)
    → field_at next name ≡ some v
    → same_field next (name, v) ≡ true
unfolding same_field
same_field_found next name v e = rw (e, same_field) (value_eq_refl v)

differing_found :
    (old next : Fields) → All (λ f. field_at next (f.0) ≡ some (f.1)) old → differing old next ≡ []
unfolding differing
differing_found [] next h = refl
differing_found ((name, v) ∷ old) next (e, h) =
    rw (same_field_found next name v e, differing_found old next h) refl

-- An element does not differ from itself.
pub differing_refl :
    (m : Model) (k : ElementKey) (f : Fields) → IsElement m k f → differing f f ≡ []
unfolding field_at str_eq
differing_refl m k f (inl (_, e)) =
    subst (λ g. differing g g ≡ []) (sym e) (differing_found _ _ (refl, (refl, tt)))
differing_refl m k f (inr (inl (x, _, _, e))) =
    subst (λ g. differing g g ≡ []) (sym e) (differing_found _ _ (refl, (refl, tt)))
differing_refl m k f (inr (inr (inl (x, _, _, e)))) =
    subst (λ g. differing g g ≡ []) (sym e) (differing_found _ _ (refl, tt))
differing_refl m k f (inr (inr (inr (inl (x, _, _, e))))) =
    subst (λ g. differing g g ≡ []) (sym e) (differing_found _ _ (refl, (refl, tt)))
differing_refl m k f (inr (inr (inr (inr (x, _, _, e))))) =
    subst (λ g. differing g g ≡ []) (sym e)
      (differing_found _ _ (refl, (refl, (refl, (refl, (refl, tt))))))
