-- ===== src/Traceability/Build/Links.antt =====
-- Which requirements the trace of an element lists.
use clanker_foundry.Prelude.{
  ◌≡◌, ◌↔◌, ◌⊎◌, refl, sym, subst, ap, ◌∙◌, true, false, List, [], ◌∷◌, ◌++◌, Memᴰ, Bool-cases, inl,
  inr,
}
use mathlib.Core.List.Memᴰ
use clanker_foundry.Text.{Str, str_eq}
use clanker_foundry.Text.Laws.{str_eq_iff}
use clanker_foundry.Sort.{sort_strings, sort_by}
use clanker_foundry.Sort.Laws.{Memᴰ-sort_by, Memᴰ_of_sort_by}
use clanker_foundry.Traceability.{
  ModelLink, LinkedRequirement, Element, AcceptanceCase, uniq, drop_repeats,
}
use clanker_foundry.Traceability.Tracing.{
  Lists, Traced, append_to, trace_link, trace_links, trace_cases, trace_all,
}

drop_repeats-mem : (x : Str) (xs : List Str) → Memᴰ x (drop_repeats xs) ↔ Memᴰ x xs
unfolding drop_repeats
drop_repeats-mem x [] = (λ m. m, λ m. m)
drop_repeats-mem x (s ∷ []) = (λ m. m, λ m. m)
drop_repeats-mem x (s ∷ t ∷ ss) =
    let rest = drop_repeats-mem x (t ∷ ss) in
    elim (Bool-cases (str_eq s t)) [
      | inl e ↦
          let same = (str_eq_iff s t).0 e in
          rw e (λ m. Memᴰ.tail (rest.0 m), λ m. rest.1 (head_or same m))
      | inr e ↦ rw e (λ m. keep (λ k. rest.0 k) m, λ m. keep (λ k. rest.1 k) m)
    ]
  where
    head_or : s ≡ t → Memᴰ x (s ∷ t ∷ ss) → Memᴰ x (t ∷ ss)
    head_or same (Memᴰ.head e) = Memᴰ.head (e ∙ same)
    head_or same (Memᴰ.tail m) = m

    keep : {us vs : List Str} → (Memᴰ x us → Memᴰ x vs) → Memᴰ x (s ∷ us) → Memᴰ x (s ∷ vs)
    keep f (Memᴰ.head e) = Memᴰ.head e
    keep f (Memᴰ.tail m) = Memᴰ.tail (f m)

pub uniq-mem : (x : Str) (xs : List Str) → Memᴰ x (uniq xs) ↔ Memᴰ x xs
unfolding uniq sort_strings
uniq-mem x xs =
    let here = drop_repeats-mem x (sort_by (λ s. s) xs) in
    (λ m. Memᴰ_of_sort_by (λ s. s) x xs (here.0 m), λ m. here.1 (Memᴰ-sort_by (λ s. s) x xs m))

append_one-mem : (x v : Str) (xs : List Str) → Memᴰ x (xs ++ v ∷ []) ↔ (Memᴰ x xs ⊎ (x ≡ v))
append_one-mem x v [] = (λ m. to m, λ h. of h)
  where
    to : Memᴰ x (v ∷ []) → Memᴰ x [] ⊎ (x ≡ v)
    to (Memᴰ.head e) = inr e
    to (Memᴰ.tail m) = inl m

    of : Memᴰ x [] ⊎ (x ≡ v) → Memᴰ x (v ∷ [])
    of (inl m) = Memᴰ.tail m
    of (inr e) = Memᴰ.head e
append_one-mem x v (y ∷ xs) =
    let rest = append_one-mem x v xs in (λ m. to rest.0 m, λ h. of rest.1 h)
  where
    to :
        (Memᴰ x (xs ++ v ∷ []) → Memᴰ x xs ⊎ (x ≡ v))
        → Memᴰ x (y ∷ xs ++ v ∷ [])
        → Memᴰ x (y ∷ xs) ⊎ (x ≡ v)
    to f (Memᴰ.head e) = inl (Memᴰ.head e)
    to f (Memᴰ.tail m) = elim (f m) [ inl k ↦ inl (Memᴰ.tail k) | inr e ↦ inr e ]

    of :
        (Memᴰ x xs ⊎ (x ≡ v) → Memᴰ x (xs ++ v ∷ []))
        → Memᴰ x (y ∷ xs) ⊎ (x ≡ v)
        → Memᴰ x (y ∷ xs ++ v ∷ [])
    of f (inl (Memᴰ.head e)) = Memᴰ.head e
    of f (inl (Memᴰ.tail m)) = Memᴰ.tail (f (inl m))
    of f (inr e) = Memᴰ.tail (f (inr e))

pub append_to-mem :
    (key v k x : Str) (lists : Lists)
    → Memᴰ x (append_to key v lists k) ↔ (Memᴰ x (lists k) ⊎ ((k ≡ key) × (x ≡ v)))
unfolding append_to
append_to-mem key v k x lists = elim (Bool-cases (str_eq k key)) [
  | inl e ↦
      let same = (str_eq_iff k key).0 e in
      let one = append_one-mem x v (lists k) in
      rw e (
        λ m. elim (one.0 m) [ inl n ↦ inl n | inr q ↦ inr (same, q) ],
        λ h. one.1 (elim h [ inl n ↦ inl n | inr p ↦ inr p.1 ]),
      )
  | inr e ↦ rw e (λ m. inl m, λ h. elim h [ inl n ↦ n | inr p ↦ absurd (other e p.0) ])
]
  where
    other : str_eq k key ≡ false → ¬ (k ≡ key)
    other e p = clash (sym e ∙ (str_eq_iff k key).1 p)
      where
        clash : ¬ (false ≡ true)
        clash h = cc h

-- A list of the maps, and the links that add to it.
module _ (els : List Element) (cases : List AcceptanceCase) (f : Traced → List Str)
    (Hit : ModelLink → Type 0)
    (step : (id x : Str) (l : ModelLink) (t : Traced)
      → Memᴰ x (f (trace_link els id l t)) ↔ (Memᴰ x (f t) ⊎ (Hit l × (x ≡ id))))
    (keep : (id c : Str) (t : Traced) → f (trace_cases cases id (c ∷ []) t) ≡ f t) where
  abbrev pub LinkHits : List ModelLink → Type 0
  LinkHits ls = (l : ModelLink) × Memᴰ l ls × Hit l

  links_mem :
      (id x : Str) (ls : List ModelLink) (t : Traced)
      → Memᴰ x (f (trace_links els id ls t)) ↔ (Memᴰ x (f t) ⊎ (LinkHits ls × (x ≡ id)))
  unfolding trace_links
  links_mem id x [] t =
      (λ m. inl m, λ h. elim h [ inl m ↦ m | inr p ↦ absurd (Memᴰ.not-nil p.0.1) ])
  links_mem id x (l ∷ ls) t =
      let one = step id x l t in
      let rest = links_mem id x ls (trace_link els id l t) in
      (
        λ m. elim (rest.0 m) [
          | inl k ↦ elim (one.0 k) [ inl n ↦ inl n | inr p ↦ inr ((l, Memᴰ.head refl, p.0), p.1) ]
          | inr p ↦ inr ((p.0.0, Memᴰ.tail p.0.1, p.0.2), p.1)
        ],
        λ h. elim h [
          | inl n ↦ rest.1 (inl (one.1 (inl n)))
          | inr p ↦ elim (first p.0) [
            | inl hit ↦ rest.1 (inl (one.1 (inr (hit, p.1))))
            | inr later ↦ rest.1 (inr (later, p.1))
          ]
        ],
      )
    where
      first : LinkHits (l ∷ ls) → Hit l ⊎ LinkHits ls
      first (u, Memᴰ.head e, hit) = inl (subst Hit e hit)
      first (u, Memᴰ.tail m, hit) = inr (u, m, hit)

  cases_keep : (id : Str) (cs : List Str) (t : Traced) → f (trace_cases cases id cs t) ≡ f t
  unfolding trace_cases
  cases_keep id [] t = refl
  cases_keep id (c ∷ cs) t = cases_keep id cs _ ∙ keep id c t

  abbrev pub Hits : List LinkedRequirement → Str → Type 0
  Hits rs x = (r : LinkedRequirement) × Memᴰ r rs × (r.id ≡ x) × LinkHits r.model_links

  pub all_mem :
      (x : Str) (rs : List LinkedRequirement) (t : Traced)
      → Memᴰ x (f (trace_all els cases rs t)) ↔ (Memᴰ x (f t) ⊎ Hits rs x)
  unfolding trace_all
  all_mem x [] t = (λ m. inl m, λ h. elim h [ inl m ↦ m | inr p ↦ absurd (Memᴰ.not-nil p.1) ])
  all_mem x (r ∷ rs) t =
      let linked = trace_links els r.id r.model_links t in
      let rest = all_mem x rs (trace_cases cases r.id r.acceptance_links linked) in
      let same = cases_keep r.id r.acceptance_links linked in
      let one = links_mem r.id x r.model_links t in
      (
        λ m. elim (rest.0 m) [
          | inl k ↦ elim (one.0 (subst (λ l. Memᴰ x l) same k)) [
            | inl n ↦ inl n
            | inr p ↦ inr (r, Memᴰ.head refl, sym p.1, p.0)
          ]
          | inr p ↦ inr (p.0, Memᴰ.tail p.1, p.2, p.3)
        ],
        λ h. elim h [
          | inl n ↦ rest.1 (inl (subst (λ l. Memᴰ x l) (sym same) (one.1 (inl n))))
          | inr p ↦ elim (first p) [
            | inl q ↦ rest.1 (inl (subst (λ l. Memᴰ x l) (sym same) (one.1 (inr (q.1, sym q.0)))))
            | inr later ↦ rest.1 (inr later)
          ]
        ],
      )
    where
      first : Hits (r ∷ rs) x → ((r.id ≡ x) × LinkHits r.model_links) ⊎ Hits rs x
      first (u, Memᴰ.head e, q, hit) =
          inl (ap (λ w. w.id) (sym e) ∙ q, subst (λ w. LinkHits w.model_links) e hit)
      first (u, Memᴰ.tail m, q, hit) = inr (u, m, q, hit)
