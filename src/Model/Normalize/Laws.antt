-- ===== src/Model/Normalize/Laws.antt =====
-- `Normalize` returns an accepted model, which it leaves alone from then on.
use clanker_foundry.Prelude.{◌≡◌, refl, sym, ap, ap₂, ◌∙◌, List, [], ◌∷◌, map, All, ok, arith}
use clanker_foundry.Text.{Str}
use clanker_foundry.Sort.{sort_by, sort_strings}
use clanker_foundry.Sort.Laws.{sort_by_of_IsSorted, sort_by-IsSorted, All-sort_by}
use clanker_foundry.Model.{Guard, Transition, Model}
use clanker_foundry.Model.Validate.{validate}
use clanker_foundry.Model.Normalize.{normalize_guard, normalize_transition, reorder, normalize}
use clanker_foundry.Model.Normalize.Operands.{normalize_expr_idem}

-- What `Normalize` returns is the reordered input, and both have been validated.
pub normalize-eq-ok :
    (m n : Model)
    → normalize m ≡ ok n
    → (validate m ≡ ok tt) × (validate n ≡ ok tt) × (n ≡ reorder m)
unfolding normalize
normalize-eq-ok m n h = ground arith

normalize_guard_idem : (g : Guard) → normalize_guard (normalize_guard g) ≡ normalize_guard g
unfolding normalize_guard
normalize_guard_idem g = ap (λ e. record g { condition = e }) (normalize_expr_idem g.condition)

normalize_transition_idem :
    (t : Transition) → normalize_transition (normalize_transition t) ≡ normalize_transition t
unfolding normalize_transition sort_strings
normalize_transition_idem t =
    ap (λ (gs : List Str). record t { guards = gs })
      (sort_by_of_IsSorted (λ s. s) (sort_by (λ s. s) t.guards)
        (sort_by-IsSorted (λ s. s) t.guards))

module _ {A : Type 0} (key : A → Str) where
  sort_twice : (xs : List A) → sort_by key (sort_by key xs) ≡ sort_by key xs
  sort_twice xs = sort_by_of_IsSorted key (sort_by key xs) (sort_by-IsSorted key xs)

  module _ (f : A → A) (idem : (a : A) → f (f a) ≡ f a) where
    All-fixed : (xs : List A) → All (λ a. f a ≡ a) (map f xs)
    All-fixed [] = tt
    All-fixed (x ∷ xs) = (idem x, All-fixed xs)

    map_fixed : (xs : List A) → All (λ a. f a ≡ a) xs → map f xs ≡ xs
    map_fixed [] h = refl
    map_fixed (x ∷ xs) (p, h) = ap₂ ◌∷◌ p (map_fixed xs h)

    sort_map_twice :
        (xs : List A) → sort_by key (map f (sort_by key (map f xs))) ≡ sort_by key (map f xs)
    sort_map_twice xs =
        ap (sort_by key) (
          map_fixed (sort_by key (map f xs))
            (All-sort_by key (λ a. f a ≡ a) (map f xs) (All-fixed xs)))
        ∙ sort_twice (map f xs)

pub reorder_idem : (m : Model) → reorder (reorder m) ≡ reorder m
unfolding reorder
reorder_idem m = λ i. record (reorder m) {
  states = sort_twice (λ s. s.id) m.states i;
  requirements = sort_twice (λ r. r.id) m.requirements i;
  guards = sort_map_twice (λ g. g.id) normalize_guard normalize_guard_idem m.guards i;
  transitions =
      sort_map_twice (λ t. t.id) normalize_transition normalize_transition_idem m.transitions i;
}

-- What `Normalize` returns is accepted by `Validate`, and `Normalize` returns it unchanged.
pub normalize_idem :
    (m n : Model) → normalize m ≡ ok n → (validate n ≡ ok tt) × (normalize n ≡ ok n)
unfolding normalize
normalize_idem m n h =
    let (before, after, same) = normalize-eq-ok m n h in
    let still : reorder n ≡ n = ap reorder same ∙ (reorder_idem m ∙ sym same) in
    (after, ground (arith, still, after))
