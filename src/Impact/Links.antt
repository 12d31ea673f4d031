-- ===== src/Impact/Links.antt =====
-- `links` of impact/compare.go: which transitions are listed, and with which causes.
use mathlib.Core.List.Memᴰ
use clanker_foundry.Prelude.{
  ◌≡◌, refl, sym, ap, ◌∙◌, subst, ◌≢◌, ◌↔◌, ◌⊎◌, inl, inr, Bool, true, false, not, ◌&&◌, arith,
  Bool-cases, List-cases, List, [], ◌∷◌, ◌++◌, Memᴰ,
}
use clanker_foundry.Text.{Str, contains}
use clanker_foundry.Text.Laws.{contains_iff}
use clanker_foundry.Sort.{sort_strings}
use clanker_foundry.Sort.Laws.{Memᴰ-sort_by, Memᴰ_of_sort_by}
use clanker_foundry.Model.{Guard, Transition}
use clanker_foundry.Impact.{
  Change, LinkedTransition, ElementKey, is_changed, link_keys, causes_of, links,
}

-- The text of a cause.
abbrev pub cause_of : ElementKey → Str
cause_of k = k.0 ++ b':' ∷ k.1

module _ (changes : List Change) where
  abbrev pub Causes : List ElementKey → Str → Type 0
  Causes keys c = (k : ElementKey) × Memᴰ k keys × (is_changed changes k ≡ true) × (c ≡ cause_of k)

  causes_skip :
      (k : ElementKey) (keys : List ElementKey)
      → (is_changed changes k && not (contains (causes_of changes keys) (cause_of k))) ≡ false
      → causes_of changes (k ∷ keys) ≡ causes_of changes keys
  unfolding causes_of
  causes_skip k keys e = rw e refl

  causes_add :
      (k : ElementKey) (keys : List ElementKey)
      → (is_changed changes k && not (contains (causes_of changes keys) (cause_of k))) ≡ true
      → causes_of changes (k ∷ keys) ≡ cause_of k ∷ causes_of changes keys
  unfolding causes_of
  causes_add k keys e = rw e refl

  causes_of_iff :
      (keys : List ElementKey) (c : Str) → Memᴰ c (causes_of changes keys) ↔ Causes keys c
  unfolding causes_of
  causes_of_iff [] c = (λ m. absurd (Memᴰ.not-nil m), λ (k, m, e, q). absurd (Memᴰ.not-nil m))
  causes_of_iff (key ∷ keys) c =
      let (to, of) = causes_of_iff keys c in
      elim (Bool-cases
        (is_changed changes key && not (contains (causes_of changes keys) (cause_of key)))) [
          | inl e ↦
              subst (λ xs. Memᴰ c xs ↔ Causes (key ∷ keys) c) (sym (causes_add key keys e))
                (
                  λ m. elim (Memᴰ.cases_cons m) [
                    | inl q ↦ (key, Memᴰ.head refl, (clanker_foundry.Prelude.and_split _ _ e).0, q)
                    | inr n ↦ let (k, l, d, q) = to n in (k, Memᴰ.tail l, d, q)
                  ],
                  λ (k, m, d, q). elim (Memᴰ.cases_cons m) [
                    | inl p ↦ Memᴰ.head (q ∙ ap cause_of p)
                    | inr n ↦ Memᴰ.tail (of (k, n, d, q))
                  ],
                )
          | inr e ↦
              subst (λ xs. Memᴰ c xs ↔ Causes (key ∷ keys) c) (sym (causes_skip key keys e))
                (
                  λ m. let (k, l, d, q) = to m in (k, Memᴰ.tail l, d, q),
                  λ (k, m, d, q). elim (Memᴰ.cases_cons m) [
                    | inl p ↦ Memᴰ.cast (q ∙ ap cause_of p) (
                        (contains_iff (causes_of changes keys) (cause_of key)).0
                          (known _ _ e (ap (is_changed changes) (sym p) ∙ d)))
                    | inr n ↦ of (k, n, d, q)
                  ],
                )
        ]
    where
      known : (a b : Bool) → (a && not b) ≡ false → a ≡ true → b ≡ true
      known a b e d = ground arith

  module _ (side : Str) (guards : List Guard) where
    abbrev linked : Transition → LinkedTransition
    linked t = record {
      side = side;
      id = t.id;
      causes = sort_strings (causes_of changes (link_keys guards t));
    }

    links_skip :
        (t : Transition) (ts : List Transition)
        → causes_of changes (link_keys guards t) ≡ []
        → links side changes guards (t ∷ ts) ≡ links side changes guards ts
    unfolding links
    links_skip t ts e = rw e refl

    links_add :
        (t : Transition) (ts : List Transition) {c : Str} {cs : List Str}
        → causes_of changes (link_keys guards t) ≡ c ∷ cs
        → links side changes guards (t ∷ ts) ≡ linked t ∷ links side changes guards ts
    unfolding links
    links_add t ts e = rw e refl

    links_all :
        (ts : List Transition) (l : LinkedTransition)
        → Memᴰ l (links side changes guards ts) ↔ (
            (t : Transition) × Memᴰ t ts
            × (causes_of changes (link_keys guards t) ≢ [])
            × (l ≡ linked t))
    unfolding links
    links_all [] l = (λ m. absurd (Memᴰ.not-nil m), λ (t, m, e, q). absurd (Memᴰ.not-nil m))
    links_all (u ∷ ts) l =
        let (to, of) = links_all ts l in
        elim (List-cases (causes_of changes (link_keys guards u))) [
          | inl e ↦
              subst
                (λ xs. Memᴰ l xs ↔ (
                  (t : Transition) × Memᴰ t (u ∷ ts)
                  × (causes_of changes (link_keys guards t) ≢ [])
                  × (l ≡ linked t)))
                (sym (links_skip u ts e))
                (
                  λ m. let (t, n, d, q) = to m in (t, Memᴰ.tail n, d, q),
                  λ (t, m, d, q). elim (Memᴰ.cases_cons m) [
                    | inl p ↦ absurd (d (ap (λ x. causes_of changes (link_keys guards x)) p ∙ e))
                    | inr n ↦ of (t, n, d, q)
                  ],
                )
          | inr (c, cs, e) ↦
              subst
                (λ xs. Memᴰ l xs ↔ (
                  (t : Transition) × Memᴰ t (u ∷ ts)
                  × (causes_of changes (link_keys guards t) ≢ [])
                  × (l ≡ linked t)))
                (sym (links_add u ts e))
                (
                  λ m. elim (Memᴰ.cases_cons m) [
                    | inl q ↦ (u, Memᴰ.head refl, (λ h. cc (h, e)), q)
                    | inr n ↦ let (t, k, d, q) = to n in (t, Memᴰ.tail k, d, q)
                  ],
                  λ (t, m, d, q). elim (Memᴰ.cases_cons m) [
                    | inl p ↦ Memᴰ.head (q ∙ ap linked p)
                    | inr n ↦ Memᴰ.tail (of (t, n, d, q))
                  ],
                )
        ]

    links_complete :
        (ts : List Transition) (t : Transition) (k : ElementKey)
        → Memᴰ t ts
        → Memᴰ k (link_keys guards t)
        → is_changed changes k ≡ true
        → (l : LinkedTransition) × Memᴰ l (links side changes guards ts)
          × (l.side ≡ side)
          × (l.id ≡ t.id)
          × Memᴰ (cause_of k) l.causes
    unfolding sort_strings
    links_complete ts t k m n e =
        let caused = (causes_of_iff (link_keys guards t) (cause_of k)).1 (k, n, e, refl) in
        (
          linked t,
          (links_all ts (linked t)).1
              (t, m, (λ h. Memᴰ.not-nil (subst (Memᴰ (cause_of k)) h caused)), refl),
          refl,
          refl,
          Memᴰ-sort_by (λ s. s) (cause_of k) (causes_of changes (link_keys guards t)) caused,
        )

    links_sound :
        (ts : List Transition) (l : LinkedTransition)
        → Memᴰ l (links side changes guards ts)
        → (t : Transition) × Memᴰ t ts
          × (l.id ≡ t.id)
          × ((c : Str) → Memᴰ c l.causes → Causes (link_keys guards t) c)
    unfolding sort_strings
    links_sound ts l m =
        let (t, n, d, q) = (links_all ts l).0 m in
        (
          t,
          n,
          ap (λ x. x.id) q,
          λ c k. (causes_of_iff (link_keys guards t) c).0 (
              Memᴰ_of_sort_by (λ s. s) c (causes_of changes (link_keys guards t))
                (subst (λ x. Memᴰ c x.causes) q k)),
        )

    pub links_side :
        (ts : List Transition) (l : LinkedTransition)
        → Memᴰ l (links side changes guards ts)
        → l.side ≡ side
    links_side ts l m = let (t, n, d, q) = (links_all ts l).0 m in ap (λ x. x.side) q

    pub links_iff :
        (ts : List Transition) (id c : Str)
        → ((l : LinkedTransition) × Memᴰ l (links side changes guards ts)
            × (l.side ≡ side)
            × (l.id ≡ id)
            × Memᴰ c l.causes)
          ↔ ((t : Transition) × Memᴰ t ts × (t.id ≡ id) × Causes (link_keys guards t) c)
    links_iff ts id c = (
      λ (l, m, _, e, n).
          let (t, k, same, all) = links_sound ts l m in (t, k, sym same ∙ e, all c n),
      λ (t, n, e, (k, l, changed, q)).
          let (x, m, s, i, named) = links_complete ts t k n l changed in
          (x, m, s, i ∙ e, subst (λ y. Memᴰ y x.causes) (sym q) named),
    )
