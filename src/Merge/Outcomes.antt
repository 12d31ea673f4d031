-- ===== src/Merge/Outcomes.antt =====
-- What a result of `Merge` says of its candidate.
use mathlib.Core.List.Memᴰ
use clanker_foundry.Prelude.{
  Memᴰ, ◌≡◌, refl, sym, ap, ◌∙◌, subst, ◌≢◌, ◌⊎◌, inl, inr, Bool, true, none, some, arith, List, [],
  ◌∷◌, ok, Result-cases, Bool-cases,
}
use clanker_foundry.Text.{Str}
use clanker_foundry.Sort.Less.{Memᴰ-sort_less}
use clanker_foundry.Model.{Model}
use clanker_foundry.Model.Validate.{validate}
use clanker_foundry.Model.Normalize.{normalize}
use clanker_foundry.Model.Normalize.Laws.{normalize_idem}
use clanker_foundry.Canonical.{digest}
use clanker_foundry.Merge.{
  Merge, Conflict, combine, merge, prepare, conclude, merged, conflicted, invalid_combination,
  sort_conflicts, conflict_ltb,
}

module _ (sha256_hex : Str → Str) (encodes : Model → Bool) where
  -- What `prepare` accepts, and what it returns.
  pub prepare-eq-ok :
      (m n : Model) (d : Str)
      → prepare sha256_hex encodes m ≡ ok (n, d)
      → (normalize m ≡ ok n) × (encodes n ≡ true) × (digest sha256_hex n ≡ ok d)
  unfolding prepare
  prepare-eq-ok m n d h = elim (Result-cases (normalize m)) [
    | inr (x, e) ↦ ground (arith, e)
    | inl (n', e) ↦ elim (Bool-cases (encodes n')) [
      | inr f ↦ ground (arith, e, f)
      | inl f ↦ elim (Result-cases (digest sha256_hex n')) [
        | inr (x, g) ↦ ground (arith, e, f, g)
        | inl (d', g) ↦
            let both = rw (e, f, g) at h in
            let same : n' ≡ n = cc both in
            let same' : d' ≡ d = cc both in
            (
              e ∙ ap ok same,
              subst (λ x. encodes x ≡ true) same f,
              subst (λ x. digest sha256_hex x ≡ ok d) same (g ∙ ap ok same'),
            )
      ]
    ]
  ]

  -- `prepare` accepts what it returned.
  pub prepare_idem :
      (m n : Model) (d : Str)
      → prepare sha256_hex encodes m ≡ ok (n, d)
      → prepare sha256_hex encodes n ≡ ok (n, d)
  unfolding prepare
  prepare_idem m n d h =
      let (e, f, g) = prepare-eq-ok m n d h in rw ((normalize_idem m n e).1, f, g) refl

  pub merge-eq-ok :
      (base left right : Model) (result : Merge)
      → merge sha256_hex encodes base left right ≡ ok result
      → (b : Model × Str) × (l : Model × Str) × (r : Model × Str) × (prepare sha256_hex encodes base
          ≡ ok b)
        × (prepare sha256_hex encodes left ≡ ok l)
        × (prepare sha256_hex encodes right ≡ ok r)
        × (result ≡ conclude sha256_hex encodes (b.1) (l.1) (r.1) (combine (b.0) (l.0) (r.0)))
  unfolding merge
  merge-eq-ok base left right result h = elim (Result-cases (prepare sha256_hex encodes base)) [
    | inr (x, e) ↦ ground (arith, e)
    | inl (b, e) ↦ elim (Result-cases (prepare sha256_hex encodes left)) [
      | inr (x, f) ↦ ground (arith, e, f)
      | inl (l, f) ↦ elim (Result-cases (prepare sha256_hex encodes right)) [
        | inr (x, g) ↦ ground (arith, e, f, g)
        | inl (r, g) ↦ (b, l, r, e, f, g, cc (rw (e, f, g) at h))
      ]
    ]
  ]

  -- The result has a candidate with its digest, and no conflicts; or it has conflicts; or it has
  -- neither.
  abbrev pub IsSound : Merge → Type 0
  IsSound m =
      ((n : Model) × (d : Str) × (m.status ≡ merged)
        × (m.candidate ≡ some n)
        × (m.candidate_digest ≡ some d)
        × (m.conflicts ≡ [])
        × (validate n ≡ ok tt)
        × (normalize n ≡ ok n)
        × (digest sha256_hex n ≡ ok d)
        × (encodes n ≡ true))
      ⊎ ((m.status ≡ conflicted)
          × (m.candidate ≡ none)
          × (m.candidate_digest ≡ none)
          × (m.conflicts ≢ []))
      ⊎ ((m.status ≡ invalid_combination)
          × (m.candidate ≡ none)
          × (m.candidate_digest ≡ none)
          × (m.conflicts ≡ []))

  sorted_ne : (c : Conflict) (cs : List Conflict) → sort_conflicts (c ∷ cs) ≢ []
  unfolding sort_conflicts
  sorted_ne c cs h =
      Memᴰ.not-nil (subst (Memᴰ c) h ((Memᴰ-sort_less conflict_ltb (c ∷ cs) c).1 (Memᴰ.head refl)))

  conclude-IsSound :
      (bd ld rd : Str) (candidate : Model) (conflicts : List Conflict)
      → IsSound (conclude sha256_hex encodes bd ld rd (candidate, conflicts))
  unfolding conclude
  conclude-IsSound bd ld rd candidate (c ∷ cs) = inr (inl (refl, refl, refl, sorted_ne c cs))
  conclude-IsSound bd ld rd candidate [] =
      elim (Result-cases (prepare sha256_hex encodes candidate)) [
        | inr (x, e) ↦ inr (inr (rw (e, conclude) (refl, refl, refl, refl)))
        | inl ((n, d), e) ↦
            let (f, g, h) = prepare-eq-ok candidate n d e in
            let (valid, normal) = normalize_idem candidate n f in
            inl (rw (e, conclude) (n, d, refl, refl, refl, refl, valid, normal, h, g))
      ]

  -- A merge that returns a result offers a candidate only if there are no conflicts, and then an
  -- accepted model in its normal form, with its digest; a conflicted result lists its conflicts,
  -- and an invalid combination has neither.
  pub merge-IsSound :
      (base left right : Model) (result : Merge)
      → merge sha256_hex encodes base left right ≡ ok result
      → IsSound result
  merge-IsSound base left right result h =
      let (b, l, r, e, f, g, same) = merge-eq-ok base left right result h in
      let (candidate, conflicts) = combine (b.0) (l.0) (r.0) in
      subst IsSound (sym same) (conclude-IsSound (b.1) (l.1) (r.1) candidate conflicts)
