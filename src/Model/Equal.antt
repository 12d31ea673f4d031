-- ===== src/Model/Equal.antt =====
-- `reflect.DeepEqual` on the records of normalized models. Their slices are nil where they are
-- empty, so that it is equality.
use clanker_foundry.Prelude.{
  ◌≡◌, refl, subst, ◌↔◌, Bool, true, false, ◌&&◌, not, List, [], ◌∷◌, arith, and_split,
}
use clanker_foundry.Text.{str_eq}
use clanker_foundry.Text.Laws.{str_eq_iff, str_eq_refl}
use clanker_foundry.Model.{
  Expr, Exprs, expr, nil, cons, State, Requirement, Guard, Effect, Transition,
}

-- A test for equality.
abbrev pub Decides {ℓ} : {A : Type ℓ} → (A → A → Bool) → Type ℓ
Decides {A} eq = (a b : A) → (eq a b ≡ true) ↔ (a ≡ b)

unfoldable pub bool_eq : Bool → Bool → Bool
bool_eq true b = b
bool_eq false b = not b

unfoldable pub list_eq {ℓ} : {A : Type ℓ} → (A → A → Bool) → List A → List A → Bool
list_eq eq [] [] = true
list_eq eq (a ∷ us) (b ∷ vs) = eq a b && list_eq eq us vs
list_eq eq _ _ = false

unfoldable mutual
  pub expr_eq : Expr → Expr → Bool
  expr_eq (expr k r v o us) (expr k' r' v' o' us') =
      str_eq k k' && (str_eq r r' && (str_eq v v' && (str_eq o o' && exprs_eq us us')))

  pub exprs_eq : Exprs → Exprs → Bool
  exprs_eq nil nil = true
  exprs_eq (cons a us) (cons b vs) = expr_eq a b && exprs_eq us vs
  exprs_eq _ _ = false

unfoldable pub state_eq : State → State → Bool
unfolding bool_eq
state_eq a b = str_eq a.id b.id && (str_eq a.label b.label && bool_eq a.terminal b.terminal)

unfoldable pub requirement_eq : Requirement → Requirement → Bool
requirement_eq a b = str_eq a.id b.id && str_eq a.text b.text

unfoldable pub guard_eq : Guard → Guard → Bool
unfolding expr_eq
guard_eq a b =
    str_eq a.id b.id && (str_eq a.requirement b.requirement && expr_eq a.condition b.condition)

unfoldable pub effect_eq : Effect → Effect → Bool
effect_eq a b = str_eq a.op b.op

unfoldable pub transition_eq : Transition → Transition → Bool
unfolding list_eq effect_eq
transition_eq a b =
    str_eq a.id b.id
    && (str_eq a.from b.from
        && (str_eq a.trigger b.trigger
            && (str_eq a.to b.to
                && (list_eq str_eq a.guards b.guards && list_eq effect_eq a.effects b.effects))))

and_intro : (a b : Bool) → a ≡ true → b ≡ true → (a && b) ≡ true
and_intro a b p q = ground arith

pub bool_eq_iff : Decides bool_eq
unfolding bool_eq
bool_eq_iff true true = (λ h. refl, λ h. refl)
bool_eq_iff true false = (λ h. cc, λ h. cc)
bool_eq_iff false true = (λ h. cc, λ h. cc)
bool_eq_iff false false = (λ h. refl, λ h. refl)

module _ {ℓ} {A : Type ℓ} (eq : A → A → Bool) (decides : Decides eq) where
  pub list_eq_to : (us vs : List A) → list_eq eq us vs ≡ true → us ≡ vs
  unfolding list_eq
  list_eq_to [] [] h = refl
  list_eq_to [] (b ∷ vs) h = cc
  list_eq_to (a ∷ us) [] h = cc
  list_eq_to (a ∷ us) (b ∷ vs) h =
      let (p, q) = and_split (eq a b) (list_eq eq us vs) h in
      λ i. (decides a b).0 p i ∷ list_eq_to us vs q i

  pub list_eq_refl : (us : List A) → list_eq eq us us ≡ true
  unfolding list_eq
  list_eq_refl [] = refl
  list_eq_refl (a ∷ us) = and_intro _ _ ((decides a a).1 refl) (list_eq_refl us)

mutual
  unfolding expr_eq

  pub expr_eq_to : (a b : Expr) → expr_eq a b ≡ true → a ≡ b
  expr_eq_to (expr k r v o us) (expr k' r' v' o' us') h =
      let (p, h₁) = and_split (str_eq k k') _ h in
      let (q, h₂) = and_split (str_eq r r') _ h₁ in
      let (s, h₃) = and_split (str_eq v v') _ h₂ in
      let (t, u) = and_split (str_eq o o') _ h₃ in
      λ i.
        expr ((str_eq_iff k k').0 p i) ((str_eq_iff r r').0 q i) ((str_eq_iff v v').0 s i)
          ((str_eq_iff o o').0 t i) (exprs_eq_to us us' u i)

  exprs_eq_to : (us vs : Exprs) → exprs_eq us vs ≡ true → us ≡ vs
  exprs_eq_to nil nil h = refl
  exprs_eq_to nil (cons b vs) h = cc
  exprs_eq_to (cons a us) nil h = cc
  exprs_eq_to (cons a us) (cons b vs) h =
      let (p, q) = and_split (expr_eq a b) _ h in
      λ i. cons (expr_eq_to a b p i) (exprs_eq_to us vs q i)

mutual
  unfolding expr_eq

  pub expr_eq_refl : (a : Expr) → expr_eq a a ≡ true
  expr_eq_refl (expr k r v o us) = and_intro _ _ (str_eq_refl k) (
      and_intro _ _ (str_eq_refl r)
        (and_intro _ _ (str_eq_refl v) (and_intro _ _ (str_eq_refl o) (exprs_eq_refl us))))

  exprs_eq_refl : (us : Exprs) → exprs_eq us us ≡ true
  exprs_eq_refl nil = refl
  exprs_eq_refl (cons a us) = and_intro _ _ (expr_eq_refl a) (exprs_eq_refl us)

pub state_eq_iff : Decides state_eq
unfolding state_eq
state_eq_iff a b = (
  λ h.
      let (p, h₁) = and_split (str_eq a.id b.id) _ h in
      let (q, r) = and_split (str_eq a.label b.label) _ h₁ in
      λ i. record {
        id = (str_eq_iff a.id b.id).0 p i;
        label = (str_eq_iff a.label b.label).0 q i;
        terminal = (bool_eq_iff a.terminal b.terminal).0 r i;
      },
  λ e.
      subst (λ c. state_eq a c ≡ true) e
        (and_intro _ _ (str_eq_refl a.id)
          (and_intro _ _ (str_eq_refl a.label) ((bool_eq_iff a.terminal a.terminal).1 refl))),
)

pub requirement_eq_iff : Decides requirement_eq
unfolding requirement_eq
requirement_eq_iff a b = (
  λ h.
      let (p, q) = and_split (str_eq a.id b.id) _ h in
      λ i. record { id = (str_eq_iff a.id b.id).0 p i; text = (str_eq_iff a.text b.text).0 q i },
  λ e.
      subst (λ c. requirement_eq a c ≡ true) e
        (and_intro _ _ (str_eq_refl a.id) (str_eq_refl a.text)),
)

pub guard_eq_iff : Decides guard_eq
unfolding guard_eq
guard_eq_iff a b = (
  λ h.
      let (p, h₁) = and_split (str_eq a.id b.id) _ h in
      let (q, r) = and_split (str_eq a.requirement b.requirement) _ h₁ in
      λ i. record {
        id = (str_eq_iff a.id b.id).0 p i;
        requirement = (str_eq_iff a.requirement b.requirement).0 q i;
        condition = expr_eq_to a.condition b.condition r i;
      },
  λ e.
      subst (λ c. guard_eq a c ≡ true) e
        (and_intro _ _ (str_eq_refl a.id)
          (and_intro _ _ (str_eq_refl a.requirement) (expr_eq_refl a.condition))),
)

pub effect_eq_iff : Decides effect_eq
unfolding effect_eq
effect_eq_iff a b = (
  λ h. λ i. record { op = (str_eq_iff a.op b.op).0 h i },
  λ e. subst (λ c. effect_eq a c ≡ true) e (str_eq_refl a.op),
)

pub transition_eq_iff : Decides transition_eq
unfolding transition_eq
transition_eq_iff a b = (
  λ h.
      let (p, h₁) = and_split (str_eq a.id b.id) _ h in
      let (q, h₂) = and_split (str_eq a.from b.from) _ h₁ in
      let (r, h₃) = and_split (str_eq a.trigger b.trigger) _ h₂ in
      let (s, h₄) = and_split (str_eq a.to b.to) _ h₃ in
      let (t, u) = and_split (list_eq str_eq a.guards b.guards) _ h₄ in
      λ i. record {
        id = (str_eq_iff a.id b.id).0 p i;
        from = (str_eq_iff a.from b.from).0 q i;
        trigger = (str_eq_iff a.trigger b.trigger).0 r i;
        to = (str_eq_iff a.to b.to).0 s i;
        guards = list_eq_to str_eq str_eq_iff a.guards b.guards t i;
        effects = list_eq_to effect_eq effect_eq_iff a.effects b.effects u i;
      },
  λ e.
      subst (λ c. transition_eq a c ≡ true) e
        (and_intro _ _ (str_eq_refl a.id) (
          and_intro _ _ (str_eq_refl a.from) (
            and_intro _ _ (str_eq_refl a.trigger) (
              and_intro _ _ (str_eq_refl a.to) (
                and_intro _ _ (list_eq_refl str_eq str_eq_iff a.guards)
                  (list_eq_refl effect_eq effect_eq_iff a.effects)))))),
)
