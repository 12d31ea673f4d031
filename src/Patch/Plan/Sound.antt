-- ===== src/Patch/Plan/Sound.antt =====
-- What a proposal of `Plan` is.
use clanker_foundry.Prelude.{
  ◌≡◌, sym, ap, ◌∙◌, subst, ◌↔◌, inl, inr, Bool, true, Option, none, some, List, [], map, ok, ◌>>=◌,
  ◌>>◌, check, or_error, Result-cases, Option-cases, Bool-cases, arith,
}
use clanker_foundry.Text.{Str, str_eq}
use clanker_foundry.Text.Laws.{str_eq_iff}
use clanker_foundry.Distinct.{Distinct}
use clanker_foundry.Model.{Model}
use clanker_foundry.Model.Validate.{validate}
use clanker_foundry.Model.Normalize.{normalize}
use clanker_foundry.Model.Normalize.Laws.{normalize_idem}
use clanker_foundry.Canonical.{digest}
use clanker_foundry.Impact.{compare}
use clanker_foundry.Impact.Reports.{compare-changed_iff}
use clanker_foundry.Patch.{Operation, Patch, PatchError, Proposal, invalid_patch}
use clanker_foundry.Patch.Shape.{preflight, target_of}
use clanker_foundry.Patch.Plan.{apply_all, plan, proposal, delivered}
use clanker_foundry.Patch.Plan.Targets.{preflight-ok}

module _ (sha256_hex : Str → Str) (encodes : Model → Bool)
    (result_error : Proposal → Option PatchError) where
  -- The steps of a plan that succeeds.
  pub record IsPlanned (before : Model) (p : Patch) (r : Proposal) : Type 0 where
    pub start : Model
    pub operations : List Operation
    pub working : Model
    pub normal_before : normalize before ≡ ok start
    pub checked : preflight p ≡ ok operations
    pub bound : digest sha256_hex start ≡ ok p.before_digest
    pub applied : apply_all start operations ≡ ok working
    pub normal_after : normalize working ≡ ok r.after
    pub encoded : encodes r.after ≡ true
    pub hashed : digest sha256_hex r.after ≡ ok r.after_digest
    pub reviewed : compare sha256_hex before r.after [] ≡ ok r.review
    pub same_digest : r.before_digest ≡ p.before_digest
    pub accepted : result_error r ≡ none

  delivered-ok :
      (r s : Proposal) → delivered result_error r ≡ ok s → (r ≡ s) × (result_error r ≡ none)
  delivered-ok r s h = elim (Option-cases (result_error r)) [
    | inl e ↦ (cc (rw (e, delivered) at h), e)
    | inr (x, e) ↦ absurd (ground (arith, e))
  ]

  plan-IsPlanned :
      (before : Model) (p : Patch) (r : Proposal)
      → plan sha256_hex encodes result_error before p ≡ ok r
      → IsPlanned before p r
  unfolding plan
  plan-IsPlanned before p r h = elim (Result-cases (normalize before)) [
    | inr (x, e) ↦ absurd (ground (arith, e))
    | inl (start, e) ↦ elim (Bool-cases (encodes start)) [
      | inr f ↦ absurd (ground (arith, e, f))
      | inl f ↦ elim (Result-cases (preflight p)) [
        | inr (x, g) ↦ absurd (ground (arith, e, f, g))
        | inl (operations, g) ↦ elim (Result-cases (digest sha256_hex start)) [
          | inr (x, d) ↦ absurd (ground (arith, e, f, g, d))
          | inl (bd, d) ↦ elim (Bool-cases (str_eq bd p.before_digest)) [
            | inr b ↦ absurd (ground (arith, e, f, g, d, b))
            | inl b ↦ after_edits start operations e g bd d b (rw (e, f, g, d, b) at h)
          ]
        ]
      ]
    ]
  ]
    where
      after_edits :
          (start : Model) (operations : List Operation)
          → normalize before ≡ ok start
          → preflight p ≡ ok operations
          → (bd : Str) → digest sha256_hex start ≡ ok bd
          → str_eq bd p.before_digest ≡ true
          → (apply_all start operations >>= (λ working.
              or_error (normalize working) invalid_patch >>= (λ after.
                check (encodes after) invalid_patch
                >> (or_error (digest sha256_hex after) invalid_patch >>= (λ ad.
                    or_error (compare sha256_hex before after []) invalid_patch
                    >>= (λ review. delivered result_error (proposal bd ad after review)))))))
            ≡ ok r
          → IsPlanned before p r
      after_edits start operations e g bd d b k = elim (Result-cases (apply_all start operations)) [
        | inr (x, a) ↦ absurd (ground (arith, a))
        | inl (working, a) ↦ elim (Result-cases (normalize working)) [
          | inr (x, n) ↦ absurd (ground (arith, a, n))
          | inl (after, n) ↦ elim (Bool-cases (encodes after)) [
            | inr c ↦ absurd (ground (arith, a, n, c))
            | inl c ↦ elim (Result-cases (digest sha256_hex after)) [
              | inr (x, q) ↦ absurd (ground (arith, a, n, c, q))
              | inl (ad, q) ↦ elim (Result-cases (compare sha256_hex before after [])) [
                | inr (x, v) ↦ absurd (ground (arith, a, n, c, q, v))
                | inl (review, v) ↦
                    let made = proposal bd ad after review in
                    let (same, fits) = delivered-ok made r (rw (a, n, c, q, v) at k) in
                    let known = (str_eq_iff bd p.before_digest).0 b in
                    subst (IsPlanned before p) same record {
                      start = start;
                      operations = operations;
                      working = working;
                      normal_before = e;
                      checked = g;
                      bound = d ∙ ap ok known;
                      applied = a;
                      normal_after = n;
                      encoded = c;
                      hashed = q;
                      reviewed = v;
                      same_digest = known;
                      accepted = fits;
                    }
              ]
            ]
          ]
        ]
      ]

  -- When a plan succeeds, the normal form of the model before has the digest that the patch names,
  -- and no two of its operations have the same kind and ID; its candidate is an accepted model in
  -- its normal form, with its digest, and its review lists no change exactly if the candidate is
  -- the normal form of the model before.
  pub plan_sound :
      (before : Model) (p : Patch) (r : Proposal)
      → plan sha256_hex encodes result_error before p ≡ ok r
      → ((start : Model) × (normalize before ≡ ok start)
          × (digest sha256_hex start ≡ ok p.before_digest))
        × ((operations : List Operation) × (p.operations ≡ some operations)
            × Distinct (map target_of operations))
        × (validate r.after ≡ ok tt)
        × (normalize r.after ≡ ok r.after)
        × (digest sha256_hex r.after ≡ ok r.after_digest)
        × ((r.review.changes ≡ []) ↔ (normalize before ≡ ok r.after))
  plan_sound before p r h =
      let q = plan-IsPlanned before p r h in
      let (valid, normal) = normalize_idem q.working r.after q.normal_after in
      let (given, distinct, _, _, _) = preflight-ok p q.operations q.checked in
      let (_, (to, of)) = compare-changed_iff sha256_hex before r.after [] r.review q.reviewed in
      (
        (q.start, q.normal_before, q.bound),
        (q.operations, given, distinct),
        valid,
        normal,
        q.hashed,
        (λ e. to e ∙ normal, λ e. of (e ∙ sym normal)),
      )
