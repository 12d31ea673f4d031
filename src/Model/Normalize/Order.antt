-- ===== src/Model/Normalize/Order.antt =====
-- `Normalize` forgets the order in which a model lists its records.
use mathlib.Core.List.Memᴰ
use clanker_foundry.Prelude.{◌≡◌, refl, sym, ap, ◌∙◌, List, [], ◌∷◌, map, All, ok, Memᴰ, ◌↔◌, ◌≢◌}
use clanker_foundry.Text.{Str}
use clanker_foundry.Distinct.{Distinct, Distinct-of_append}
use clanker_foundry.Sort.{sort_by}
use clanker_foundry.Sort.Unique.{HasDistinctKeys, sort_by_unique}
use clanker_foundry.Model.{State, Requirement, Guard, Transition, Model}
use clanker_foundry.Model.Validate.{validate, state_ids, requirement_ids, guard_ids}
use clanker_foundry.Model.Validate.Guarantees.{validate-ids-Distinct}
use clanker_foundry.Model.Normalize.{normalize_guard, normalize_transition, reorder, normalize}

-- The same members, in any order.
abbrev pub SameMembers : {A : Type 0} → List A → List A → Type 0
SameMembers {A} xs ys = (a : A) → Memᴰ a xs ↔ Memᴰ a ys

module _ {A : Type 0} (key : A → Str) where
  pub keys-Distinct :
      (f : A → A) (xs : List A)
      → ((a : A) → key (f a) ≡ key a)
      → Distinct (map key xs)
      → HasDistinctKeys key (map f xs)
  keys-Distinct f [] e d = tt
  keys-Distinct f (x ∷ xs) e (h, d) = (differ f x xs e h, keys-Distinct f xs e d)
    where
      differ :
          (f : A → A) (x : A) (xs : List A)
          → ((a : A) → key (f a) ≡ key a)
          → All (λ k. key x ≢ k) (map key xs)
          → All (λ y. key (f x) ≢ key y) (map f xs)
      differ f x [] e h = tt
      differ f x (y ∷ ys) e (n, h) = ((λ p. n (sym (e x) ∙ (p ∙ e y))), differ f x ys e h)

  sorted_same :
      (f : A → A) (xs ys : List A)
      → ((a : A) → key (f a) ≡ key a)
      → Distinct (map key xs)
      → Distinct (map key ys)
      → SameMembers xs ys
      → sort_by key (map f xs) ≡ sort_by key (map f ys)
  sorted_same f xs ys e d c s =
      sort_by_unique key (map f xs) (map f ys) (keys-Distinct f xs e d) (keys-Distinct f ys e c)
        (λ b m. let (a, k, p) = Memᴰ.of_map f xs m in Memᴰ.cast (sym p) (Memᴰ.map f ((s a).0 k)))
        (λ b m. let (a, k, p) = Memᴰ.of_map f ys m in Memᴰ.cast (sym p) (Memᴰ.map f ((s a).1 k)))

pub map_self : {A : Type 0} (xs : List A) → map (λ a. a) xs ≡ xs
map_self [] = refl
map_self (x ∷ xs) = ap (◌∷◌ x) (map_self xs)

-- The same model, its records listed in any order.
pub record SameRecords (m n : Model) : Type 0 where
  pub version : m.version ≡ n.version
  pub id : m.id ≡ n.id
  pub initial : m.initial ≡ n.initial
  pub states : SameMembers m.states n.states
  pub requirements : SameMembers m.requirements n.requirements
  pub guards : SameMembers m.guards n.guards
  pub transitions : SameMembers m.transitions n.transitions

pub record Ids (m : Model) : Type 0 where
  pub states : Distinct (map (λ s. s.id) m.states)
  pub requirements : Distinct (map (λ r. r.id) m.requirements)
  pub guards : Distinct (map (λ g. g.id) m.guards)
  pub transitions : Distinct (map (λ t. t.id) m.transitions)

pub Ids-of : (m : Model) → validate m ≡ ok tt → Ids m
unfolding state_ids requirement_ids guard_ids
Ids-of m h =
    let (d₁, r₁) = Distinct-of_append (state_ids m.states) _ (validate-ids-Distinct m h).1 in
    let (d₂, r₂) = Distinct-of_append (requirement_ids m.requirements) _ r₁ in
    let (d₃, d₄) = Distinct-of_append (guard_ids m.guards) _ r₂ in
    record { states = d₁; requirements = d₂; guards = d₃; transitions = d₄ }

reorder_same :
    (m n : Model)
    → validate m ≡ ok tt
    → validate n ≡ ok tt
    → SameRecords m n
    → reorder m ≡ reorder n
unfolding reorder normalize_guard normalize_transition
reorder_same m n h k s =
    let d = Ids-of m h in
    let c = Ids-of n k in
    let states =
      sorted_same (λ (x : State). x.id) (λ x. x) m.states n.states (λ x. refl) d.states c.states
        s.states in
    let requirements =
      sorted_same (λ (x : Requirement). x.id) (λ x. x) m.requirements n.requirements (λ x. refl)
        d.requirements c.requirements s.requirements in
    λ i. record {
      version = s.version i;
      id = s.id i;
      initial = s.initial i;
      states = (rw (map_self m.states, map_self n.states) at states) i;
      requirements = (rw (map_self m.requirements, map_self n.requirements) at requirements) i;
      guards =
          sorted_same (λ (x : Guard). x.id) normalize_guard m.guards n.guards (λ x. refl) d.guards
            c.guards s.guards i;
      transitions =
          sorted_same (λ (x : Transition). x.id) normalize_transition m.transitions n.transitions
            (λ x. refl) d.transitions c.transitions s.transitions i;
    }

-- Two accepted models with the same version, ID, initial state and records, in whatever order,
-- have the same normalization.
pub normalize-order :
    (m n : Model)
    → validate m ≡ ok tt
    → validate n ≡ ok tt
    → SameRecords m n
    → normalize m ≡ normalize n
unfolding normalize
normalize-order m n h k s = rw (h, k, reorder_same m n h k s)
