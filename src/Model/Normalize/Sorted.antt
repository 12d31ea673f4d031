-- ===== src/Model/Normalize/Sorted.antt =====
-- The records of a normal form are in the order of their IDs, without repetition.
use clanker_foundry.Prelude.{◌≡◌, refl, sym, ap, subst, List, map, ok, arith, ==_iff}
use clanker_foundry.Text.{Str}
use clanker_foundry.Distinct.{Distinct}
use clanker_foundry.Sort.{sort_by}
use clanker_foundry.Sort.Laws.{IsSorted, sort_by-IsSorted}
use clanker_foundry.Sort.Unique.{HasDistinctKeys, IsStrict, IsStrict-of_IsSorted}
use clanker_foundry.Model.{Model}
use clanker_foundry.Model.Validate.{check_bounds}
use clanker_foundry.Model.Validate.Accepts.{Passes-of_validate}
use clanker_foundry.Model.Normalize.{normalize_guard, normalize_transition, reorder, normalize}
use clanker_foundry.Model.Normalize.Laws.{normalize-eq-ok}
use clanker_foundry.Model.Normalize.Order.{Ids, Ids-of, keys-Distinct, map_self}

pub record IsNormal (n : Model) : Type 0 where
  pub ids : Ids n
  pub states : IsStrict (λ s. s.id) n.states
  pub requirements : IsStrict (λ r. r.id) n.requirements
  pub guards : IsStrict (λ g. g.id) n.guards
  pub transitions : IsStrict (λ t. t.id) n.transitions

module _ {A : Type 0} (key : A → Str) where
  IsStrict-sorted : (xs ys : List A) → xs ≡ sort_by key ys → Distinct (map key xs) → IsStrict key xs
  IsStrict-sorted xs ys e d =
      IsStrict-of_IsSorted key xs (subst (IsSorted key) (sym e) (sort_by-IsSorted key ys))
        (subst (HasDistinctKeys key) (map_self xs) (keys-Distinct key (λ a. a) xs (λ a. refl) d))

pub IsNormal-of : (m n : Model) → normalize m ≡ ok n → IsNormal n
unfolding reorder
IsNormal-of m n h =
    let (before, after, same) = normalize-eq-ok m n h in
    let ids = Ids-of n after in
    record {
      ids = ids;
      states = IsStrict-sorted (λ s. s.id) n.states m.states (ap (λ k. k.states) same) ids.states;
      requirements =
          IsStrict-sorted (λ r. r.id) n.requirements m.requirements (ap (λ k. k.requirements) same)
            ids.requirements;
      guards =
          IsStrict-sorted (λ g. g.id) n.guards (map normalize_guard m.guards)
            (ap (λ k. k.guards) same) ids.guards;
      transitions =
          IsStrict-sorted (λ t. t.id) n.transitions (map normalize_transition m.transitions)
            (ap (λ k. k.transitions) same) ids.transitions;
    }

bounds-version : (m : Model) → check_bounds m ≡ ok tt → m.version ≡ 1
unfolding check_bounds
bounds-version m h = ground (arith, ==_iff m.version 1)

-- The version of what `Normalize` returns.
pub normalize-version : (m n : Model) → normalize m ≡ ok n → n.version ≡ 1
normalize-version m n h =
    let (before, after, same) = normalize-eq-ok m n h in
    bounds-version n (Passes-of_validate n after).bounds
