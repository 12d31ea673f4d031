-- ===== src/Merge/Unchanged.antt =====
-- A side that changes nothing leaves the result to the other side.
use mathlib.Core.List.Memᴰ
use clanker_foundry.Prelude.{
  ◌≡◌, refl, sym, ap, ◌∙◌, subst, ◌↔◌, inl, inr, Bool, true, Option, none, some, List, [], ◌∷◌,
  ◌++◌, map, Memᴰ, All, ok, Option-cases,
}
use clanker_foundry.Text.{Str, str, str_eq, str_ltb}
use clanker_foundry.Text.Laws.{str_eq_iff}
use clanker_foundry.Distinct.{Distinct}
use clanker_foundry.Sort.Unique.{IsStrict, strict_eq}
use clanker_foundry.Model.{Model}
use clanker_foundry.Model.Equal.{
  Decides, state_eq_iff, requirement_eq_iff, guard_eq_iff, transition_eq_iff, state_eq,
  requirement_eq, guard_eq, transition_eq,
}
use clanker_foundry.Model.Normalize.Sorted.{IsNormal, IsNormal-of, normalize-version}
use clanker_foundry.Merge.{
  Conflict, choose, lookup, all_keys, merge_keys, records, root, combine, merge, prepare, conclude,
  merge_result, merged,
}
use clanker_foundry.Merge.Choice.{choose_kept}
use clanker_foundry.Merge.Lookup.{lookup-eq-some, lookup_at}
use clanker_foundry.Merge.Records.{all_keys_iff, all_keys-IsStrict}
use clanker_foundry.Merge.Outcomes.{prepare-eq-ok, prepare_idem}

module _ {A : Type 0} (eq : A → A → Bool) (decides : Decides eq) (id : A → Str) (kind : Str)
    (b r : List A) where
  abbrev kept : List Str → List A × List Conflict
  kept = merge_keys eq id kind b b r

  abbrev with_found : Option A → List A → List A
  with_found none rest = rest
  with_found (some a) rest = a ∷ rest

  -- The records at the keys, in their order.
  found : List Str → List A
  found [] = []
  found (k ∷ keys) = with_found (lookup id r k) (found keys)

  kept_step :
      (k : Str) (keys : List Str) (v : Option A)
      → choose eq (lookup id b k) (lookup id b k) (lookup id r k) ≡ some v
      → kept (k ∷ keys) ≡ (with_found v (kept keys).0, (kept keys).1)
  unfolding merge_keys
  kept_step k keys none e = rw e refl
  kept_step k keys (some a) e = rw e refl

  kept-eq : (keys : List Str) → kept keys ≡ (found keys, [])
  unfolding merge_keys found
  kept-eq [] = refl
  kept-eq (k ∷ keys) =
      kept_step k keys (lookup id r k) (choose_kept eq decides (lookup id b k) (lookup id r k))
      ∙ (λ i. (with_found (lookup id r k) (kept-eq keys i).0, (kept-eq keys i).1))

  found_iff :
      (keys : List Str) (a : A)
      → Memᴰ a (found keys) ↔ ((k : Str) × Memᴰ k keys × (lookup id r k ≡ some a))
  unfolding found
  found_iff [] a = (λ m. absurd (Memᴰ.not-nil m), λ (k, m, e). absurd (Memᴰ.not-nil m))
  found_iff (key ∷ keys) a =
      let (to, of) = found_iff keys a in
      elim (Option-cases (lookup id r key)) [
        | inl e ↦ rw e (
          λ m. let (k, l, f) = to m in (k, Memᴰ.tail l, f),
          λ (k, m, f). elim (Memᴰ.cases_cons m) [
            | inl q ↦ absurd (cc (ap (lookup id r) q, e, f))
            | inr n ↦ of (k, n, f)
          ],
        )
        | inr (c, e) ↦ rw e (
          λ m. elim (Memᴰ.cases_cons m) [
            | inl q ↦ (key, Memᴰ.head refl, e ∙ ap some (sym q))
            | inr n ↦ let (k, l, f) = to n in (k, Memᴰ.tail l, f)
          ],
          λ (k, m, f). elim (Memᴰ.cases_cons m) [
            | inl q ↦ Memᴰ.head (cc (ap (lookup id r) q, e, f))
            | inr n ↦ Memᴰ.tail (of (k, n, f))
          ],
        )
      ]

  found_above :
      (k : Str) (keys : List Str)
      → All (λ s. str_ltb k s ≡ true) keys
      → All (λ a. str_ltb k (id a) ≡ true) (found keys)
  unfolding found
  found_above k [] h = tt
  found_above k (key ∷ keys) (p, h) = elim (Option-cases (lookup id r key)) [
    | inl e ↦ rw e (found_above k keys h)
    | inr (a, e) ↦ rw e (
      subst (λ s. str_ltb k s ≡ true) (sym ((lookup-eq-some id r key a e).1)) p,
      found_above k keys h,
    )
  ]

  found-IsStrict : (keys : List Str) → IsStrict (λ s. s) keys → IsStrict id (found keys)
  unfolding found
  found-IsStrict [] s = tt
  found-IsStrict (key ∷ keys) (new, s) = elim (Option-cases (lookup id r key)) [
    | inl e ↦ rw e (found-IsStrict keys s)
    | inr (a, e) ↦ rw e (
      subst (λ k. All (λ c. str_ltb k (id c) ≡ true) (found keys))
          (sym ((lookup-eq-some id r key a e).1)) (found_above key keys new),
      found-IsStrict keys s,
    )
  ]

  -- Where the left side is the base, the records are the right side's.
  records_kept : IsStrict id r → Distinct (map id r) → records eq id kind b b r ≡ (r, [])
  unfolding records
  records_kept s d =
      let keys = all_keys id b b r in
      let of_key = found_iff keys in
      let same : found keys ≡ r =
        strict_eq id (found keys) r (found-IsStrict keys (all_keys-IsStrict id b b r)) s
          (λ a m. let (k, l, e) = (of_key a).0 m in (lookup-eq-some id r k a e).0)
          (λ a m. (of_key a).1 (
            id a,
            (all_keys_iff id b b r (id a)).1 (inr (inr (Memᴰ.map id m))),
            lookup_at id r a d m,
          )) in
      kept-eq keys ∙ ap (λ xs. (xs, [])) same

root_kept : (field b r : Str) → root field b b r ≡ (r, [])
unfolding root
root_kept field b r = rw (choose_kept str_eq str_eq_iff (some b) (some r), root) refl

combine_kept : (b r : Model) → b.version ≡ r.version → IsNormal r → combine b b r ≡ (r, [])
unfolding combine
combine_kept b r same n =
    let i₁ = root_kept (str "id") b.id r.id in
    let i₂ = root_kept (str "initial") b.initial r.initial in
    let i₃ =
      records_kept state_eq state_eq_iff (λ s. s.id) (str "state") b.states r.states n.states
        n.ids.states in
    let i₄ =
      records_kept requirement_eq requirement_eq_iff (λ q. q.id) (str "requirement") b.requirements
        r.requirements n.requirements n.ids.requirements in
    let i₅ =
      records_kept guard_eq guard_eq_iff (λ g. g.id) (str "guard") b.guards r.guards n.guards
        n.ids.guards in
    let i₆ =
      records_kept transition_eq transition_eq_iff (λ t. t.id) (str "transition") b.transitions
        r.transitions n.transitions n.ids.transitions in
    λ i. (
      record {
        version = same i;
        id = (i₁ i).0;
        initial = (i₂ i).0;
        states = (i₃ i).0;
        requirements = (i₄ i).0;
        guards = (i₅ i).0;
        transitions = (i₆ i).0;
      },
      (i₁ i).1 ++ ((i₂ i).1 ++ ((i₃ i).1 ++ ((i₄ i).1 ++ ((i₅ i).1 ++ (i₆ i).1)))),
    )

module _ (sha256_hex : Str → Str) (encodes : Model → Bool) where
  conclude_normal :
      (bd rd : Str) {r : Model}
      → prepare sha256_hex encodes r ≡ ok (r, rd)
      → conclude sha256_hex encodes bd bd rd (r, [])
        ≡ merge_result bd bd rd merged (some rd) (some r) []
  unfolding conclude
  conclude_normal bd rd h = rw (h, conclude) refl

  -- If base and left have the same normal form and right is prepared too, the merge succeeds,
  -- without conflicts, and its candidate is the normal form of the right side, with the right
  -- side's digest.
  pub merge_kept :
      (base left right : Model) {b r : Model} {bd rd : Str}
      → prepare sha256_hex encodes base ≡ ok (b, bd)
      → prepare sha256_hex encodes left ≡ ok (b, bd)
      → prepare sha256_hex encodes right ≡ ok (r, rd)
      → merge sha256_hex encodes base left right
        ≡ ok (merge_result bd bd rd merged (some rd) (some r) [])
  unfolding merge
  merge_kept base left right {b} {r} {bd} {rd} e f g =
      let (b_normal, _, _) = prepare-eq-ok sha256_hex encodes base b bd e in
      let (r_normal, _, _) = prepare-eq-ok sha256_hex encodes right r rd g in
      let versions = normalize-version base b b_normal ∙ sym (normalize-version right r r_normal) in
      let combined = combine_kept b r versions (IsNormal-of right r r_normal) in
      rw (e, f, g)
        (ap ok (
          ap (conclude sha256_hex encodes bd bd rd) combined
          ∙ conclude_normal bd rd (prepare_idem sha256_hex encodes right r rd g)))
