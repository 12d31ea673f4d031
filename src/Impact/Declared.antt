-- ===== src/Impact/Declared.antt =====
-- The elements that a transition declares, and the keys that `links` of impact/compare.go looks at.
use mathlib.Core.List.Memᴰ
use clanker_foundry.Prelude.{
  ◌≡◌, refl, sym, ap, ◌∙◌, ◌≢◌, ◌↔◌, ◌⊎◌, inl, inr, true, and_split, any_of_mem, any_of-at, arith,
  List, [], ◌∷◌, Memᴰ, All, All_at, map, Bool-cases,
}
use clanker_foundry.Text.{Str, str, str_eq}
use clanker_foundry.Text.Laws.{str_eq_iff}
use clanker_foundry.Distinct.{Distinct}
use clanker_foundry.Model.{Guard, Transition, Model}
use clanker_foundry.Impact.{
  Change, ElementKey, is_changed, key_eq, requirement_of, guard_keys, link_keys,
}

-- The key is that of a guard that the transition names, or of the requirement that it serves.
abbrev OfGuard : List Guard → List Str → ElementKey → Type 0
OfGuard guards ids k =
    (g : Guard) × Memᴰ g guards
    × Memᴰ g.id ids
    × ((k ≡ (str "guard", g.id)) ⊎ (k ≡ (str "requirement", g.requirement)))

-- The elements that a transition of a model declares: the model, itself, its two states, its guards
-- and their requirements.
abbrev pub Declares : Model → Transition → ElementKey → Type 0
Declares m t k =
    (k ≡ (str "model", []))
    ⊎ (k ≡ (str "transition", t.id))
    ⊎ (k ≡ (str "state", t.from))
    ⊎ (k ≡ (str "state", t.to))
    ⊎ OfGuard m.guards t.guards k

abbrev pub IsChanged : List Change → ElementKey → Type 0
IsChanged changes k = (x : Change) × Memᴰ x changes × (x.kind ≡ k.0) × (x.id ≡ k.1)

pub is_changed_iff :
    (changes : List Change) (k : ElementKey) → (is_changed changes k ≡ true) ↔ IsChanged changes k
unfolding is_changed key_eq
is_changed_iff changes (kind, id) = (
  λ h.
      let (x, m, e) = any_of-at (λ (x : Change). key_eq (x.kind, x.id) (kind, id)) changes h in
      let (p, q) = and_split (str_eq x.kind kind) (str_eq x.id id) e in
      (x, m, (str_eq_iff x.kind kind).0 p, (str_eq_iff x.id id).0 q),
  λ (x, m, p, q).
      any_of_mem (λ (x : Change). key_eq (x.kind, x.id) (kind, id)) changes m
        (ground (arith, (str_eq_iff x.kind kind).1 p, (str_eq_iff x.id id).1 q)),
)

mem_ids : (g : Guard) (guards : List Guard) → Memᴰ g guards → Memᴰ g.id (map (λ x. x.id) guards)
mem_ids g [] m = absurd (Memᴰ.not-nil m)
mem_ids g (x ∷ guards) (Memᴰ.head e) = Memᴰ.head (ap (λ y. y.id) e)
mem_ids g (x ∷ guards) (Memᴰ.tail m) = Memᴰ.tail (mem_ids g guards m)

of_ids :
    (id : Str) (guards : List Guard)
    → Memᴰ id (map (λ x. x.id) guards)
    → (g : Guard) × Memᴰ g guards × (g.id ≡ id)
of_ids id [] m = absurd (Memᴰ.not-nil m)
of_ids id (x ∷ guards) (Memᴰ.head e) = (x, Memᴰ.head refl, sym e)
of_ids id (x ∷ guards) (Memᴰ.tail m) = let (g, n, e) = of_ids id guards m in (g, Memᴰ.tail n, e)

-- The guards have different IDs, so that an ID finds its guard.
requirement_of-at :
    (guards : List Guard) (g : Guard)
    → Distinct (map (λ x. x.id) guards)
    → Memᴰ g guards
    → requirement_of guards g.id ≡ g.requirement
unfolding requirement_of
requirement_of-at [] g d m = absurd (Memᴰ.not-nil m)
requirement_of-at (x ∷ guards) g d (Memᴰ.head e) =
    rw ((str_eq_iff x.id g.id).1 (ap (λ y. y.id) (sym e))) (ap (λ y. y.requirement) (sym e))
requirement_of-at (x ∷ guards) g d (Memᴰ.tail m) = elim (Bool-cases (str_eq x.id g.id)) [
  | inl e ↦ absurd (
      All_at (λ y. x.id ≢ y) (map (λ y. y.id) guards) d.0 (mem_ids g guards m)
        ((str_eq_iff x.id g.id).0 e))
  | inr e ↦ rw e (requirement_of-at guards g d.1 m)
]

guard_keys_iff :
    (guards : List Guard) (ids : List Str) (k : ElementKey)
    → Distinct (map (λ x. x.id) guards)
    → All (λ id. Memᴰ id (map (λ x. x.id) guards)) ids
    → Memᴰ k (guard_keys guards ids) ↔ OfGuard guards ids k
unfolding guard_keys
guard_keys_iff guards [] k d h =
    (λ m. absurd (Memᴰ.not-nil m), λ (g, m, n, e). absurd (Memᴰ.not-nil n))
guard_keys_iff guards (id ∷ ids) k d h =
    let (g, m, same) = of_ids id guards h.0 in
    let serves : requirement_of guards id ≡ g.requirement =
      ap (requirement_of guards) (sym same) ∙ requirement_of-at guards g d m in
    let (to, of) = guard_keys_iff guards ids k d h.1 in
    (
      λ n. elim (Memᴰ.cases_cons n) [
        | inl e ↦ (g, m, Memᴰ.head same, inl (e ∙ ap (λ x. (str "guard", x)) (sym same)))
        | inr n' ↦ elim (Memᴰ.cases_cons n') [
          | inl e ↦ (g, m, Memᴰ.head same, inr (e ∙ ap (λ x. (str "requirement", x)) serves))
          | inr l ↦ let (x, p, q, e) = to l in (x, p, Memᴰ.tail q, e)
        ]
      ],
      λ (x, p, q, e). elim (Memᴰ.cases_cons q) [
        | inr l ↦ Memᴰ.tail (Memᴰ.tail (of (x, p, l, e)))
        | inl named ↦ elim e [
          | inl y ↦ Memᴰ.head (y ∙ ap (λ z. (str "guard", z)) named)
          | inr y ↦
              let found : requirement_of guards id ≡ x.requirement =
                ap (requirement_of guards) (sym named) ∙ requirement_of-at guards x d p in
              Memᴰ.tail (Memᴰ.head (y ∙ ap (λ z. (str "requirement", z)) (sym found)))
        ]
      ],
    )

-- The links that `links` looks at are those that the transition declares.
pub link_keys_iff :
    (m : Model) (t : Transition) (k : ElementKey)
    → Distinct (map (λ g. g.id) m.guards)
    → All (λ id. Memᴰ id (map (λ g. g.id) m.guards)) t.guards
    → Memᴰ k (link_keys m.guards t) ↔ Declares m t k
unfolding link_keys
link_keys_iff m t k d h =
    let (to, of) = guard_keys_iff m.guards t.guards k d h in
    (
      λ n. elim (Memᴰ.cases_cons n) [
        | inl e ↦ inl e
        | inr n₁ ↦ elim (Memᴰ.cases_cons n₁) [
          | inl e ↦ inr (inl e)
          | inr n₂ ↦ elim (Memᴰ.cases_cons n₂) [
            | inl e ↦ inr (inr (inl e))
            | inr n₃ ↦ elim (Memᴰ.cases_cons n₃) [
              | inl e ↦ inr (inr (inr (inl e)))
              | inr l ↦ inr (inr (inr (inr (to l))))
            ]
          ]
        ]
      ],
      λ x. elim x [
        | inl e ↦ Memᴰ.head e
        | inr (inl e) ↦ Memᴰ.tail (Memᴰ.head e)
        | inr (inr (inl e)) ↦ Memᴰ.tail (Memᴰ.tail (Memᴰ.head e))
        | inr (inr (inr (inl e))) ↦ Memᴰ.tail (Memᴰ.tail (Memᴰ.tail (Memᴰ.head e)))
        | inr (inr (inr (inr g))) ↦ Memᴰ.tail (Memᴰ.tail (Memᴰ.tail (Memᴰ.tail (of g))))
      ],
    )
