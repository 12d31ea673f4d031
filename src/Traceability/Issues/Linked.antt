-- ===== src/Traceability/Issues/Linked.antt =====
-- What a requirement without issues is.
use clanker_foundry.Prelude.{
  ◌≤◌, ◌≡◌, ◌↔◌, refl, sym, subst, Bool, true, false, not, List, [], ◌∷◌, ◌++◌, if◌then◌else◌,
  length, map, All, Memᴰ, arith, Bool-cases, inl, inr,
}
use mathlib.Core.List.Memᴰ
use clanker_foundry.Text.{Str, str, contains}
use clanker_foundry.Distinct.{Distinct}
use clanker_foundry.Traceability.{
  LinkedRequirement, Element, AcceptanceCase, Issue, requirement_id, valid_line, max_links,
}
use clanker_foundry.Traceability.Issues.{
  issue_if, target_text, link_issues, case_issues, too_many_links, requirement_issues,
  each_requirement, duplicate_ids,
}
use clanker_foundry.Traceability.Issues.Accepts.{
  append-nil_iff, issue_if-nil, Fresh, Fresh-iff, not-false, link_issues-nil, case_issues-nil,
  not_both, Resolves, IsKnown,
}

-- A requirement whose texts are valid and whose links name elements and cases, none of them twice.
pub record IsLinked (els : List Element) (cases : List AcceptanceCase) (r : LinkedRequirement)
    : Type 0 where
  pub id : requirement_id r.id ≡ true
  pub title : valid_line r.title 120 ≡ true
  pub statement : valid_line r.statement 1024 ≡ true
  pub few_model_links : length r.model_links ≤ max_links
  pub few_acceptance_links : length r.acceptance_links ≤ max_links
  pub resolved : All (Resolves els) r.model_links
  pub distinct_targets : Distinct (map target_text r.model_links)
  pub known : All (IsKnown cases) r.acceptance_links
  pub distinct_cases : Distinct r.acceptance_links

pub too_many_iff :
    (r : LinkedRequirement)
    → (too_many_links r ≡ false)
      ↔ ((length r.model_links ≤ max_links) × (length r.acceptance_links ≤ max_links))
unfolding too_many_links
too_many_iff r = (λ h. ground arith, λ h. ground arith)

pub nothing_seen : (ts : List Str) → All (λ t. ¬ Memᴰ t []) ts
nothing_seen [] = tt
nothing_seen (t ∷ ts) = (λ m. Memᴰ.not-nil m, nothing_seen ts)

-- The issues of the links of a requirement.
abbrev links_part : List Element → List AcceptanceCase → LinkedRequirement → Bool → List Issue
links_part els cases r many =
    if many
    then issue_if true (str "too-many-links") r.id []
    else link_issues els r.id [] r.model_links ++ case_issues cases r.id [] r.acceptance_links

pub requirement_IsLinked :
    (els : List Element) (cases : List AcceptanceCase) (r : LinkedRequirement)
    → requirement_issues els cases r ≡ []
    → IsLinked els cases r
unfolding requirement_issues
requirement_IsLinked els cases r h =
    let (a, h₁) =
      (append-nil_iff (issue_if (not (requirement_id r.id)) (str "invalid-requirement-id") r.id [])
          _).0
        h in
    let (b, h₂) =
      (append-nil_iff (issue_if (not (valid_line r.title 120)) (str "invalid-title") r.id []) _).0
        h₁ in
    let (d, h₃) =
      (append-nil_iff
          (issue_if (not (valid_line r.statement 1024)) (str "invalid-statement") r.id [])
          (links_part els cases r (too_many_links r))).0
        h₂ in
    elim (Bool-cases (too_many_links r)) [
      | inl many ↦ absurd (
          not_both refl (
            (issue_if-nil true (str "too-many-links") r.id []).0
              (subst (λ w. links_part els cases r w ≡ []) many h₃)))
      | inr few ↦
          let (f, g) =
            (append-nil_iff (link_issues els r.id [] r.model_links) _).0
              (subst (λ w. links_part els cases r w ≡ []) few h₃) in
          let (resolved, fresh) = (link_issues-nil els r.id [] r.model_links).0 f in
          let (known, fresh') = (case_issues-nil cases r.id [] r.acceptance_links).0 g in
          let (p, q) = (too_many_iff r).0 few in
          record {
            id = (not-false _).0 ((issue_if-nil (not (requirement_id r.id)) _ r.id []).0 a);
            title = (not-false _).0 ((issue_if-nil (not (valid_line r.title 120)) _ r.id []).0 b);
            statement =
                (not-false _).0 ((issue_if-nil (not (valid_line r.statement 1024)) _ r.id []).0 d);
            few_model_links = p;
            few_acceptance_links = q;
            resolved = resolved;
            distinct_targets = ((Fresh-iff [] (map target_text r.model_links)).0 fresh).0;
            known = known;
            distinct_cases = ((Fresh-iff [] r.acceptance_links).0 fresh').0;
          }
    ]

pub no_issues_of_IsLinked :
    (els : List Element) (cases : List AcceptanceCase) (r : LinkedRequirement)
    → IsLinked els cases r
    → requirement_issues els cases r ≡ []
unfolding requirement_issues
no_issues_of_IsLinked els cases r v =
    let few = (too_many_iff r).1 (v.few_model_links, v.few_acceptance_links) in
    let links =
      (link_issues-nil els r.id [] r.model_links).1
        (v.resolved, (Fresh-iff [] _).1 (v.distinct_targets, nothing_seen _)) in
    let tested =
      (case_issues-nil cases r.id [] r.acceptance_links).1
        (v.known, (Fresh-iff [] _).1 (v.distinct_cases, nothing_seen _)) in
    let part : links_part els cases r (too_many_links r) ≡ [] =
      subst (λ w. links_part els cases r w ≡ []) (sym few)
        ((append-nil_iff _ _).1 (links, tested)) in
    (append-nil_iff _ _).1 (
      (issue_if-nil _ _ _ _).1 ((not-false _).1 v.id),
      (append-nil_iff _ _).1 (
        (issue_if-nil _ _ _ _).1 ((not-false _).1 v.title),
        (append-nil_iff _ _).1 ((issue_if-nil _ _ _ _).1 ((not-false _).1 v.statement), part),
      ),
    )

pub each_requirement-nil :
    (els : List Element) (cases : List AcceptanceCase) (rs : List LinkedRequirement)
    → (each_requirement els cases rs ≡ []) ↔ All (IsLinked els cases) rs
unfolding each_requirement
each_requirement-nil els cases [] = (λ h. tt, λ h. refl)
each_requirement-nil els cases (r ∷ rs) =
    let both = append-nil_iff (requirement_issues els cases r) _ in
    let rest = each_requirement-nil els cases rs in
    (
      λ h. let (a, b) = both.0 h in (requirement_IsLinked els cases r a, rest.0 b),
      λ h. both.1 (no_issues_of_IsLinked els cases r h.0, rest.1 h.1),
    )

pub duplicate_ids-nil :
    (seen : List Str) (rs : List LinkedRequirement)
    → (duplicate_ids seen rs ≡ []) ↔ Fresh seen (map (λ r. r.id) rs)
unfolding duplicate_ids
duplicate_ids-nil seen [] = (λ h. tt, λ h. refl)
duplicate_ids-nil seen (r ∷ rs) =
    let both =
      append-nil_iff (issue_if (contains seen r.id) (str "duplicate-requirement-id") r.id []) _ in
    let one = issue_if-nil (contains seen r.id) (str "duplicate-requirement-id") r.id [] in
    let rest = duplicate_ids-nil (r.id ∷ seen) rs in
    (λ h. let (a, b) = both.0 h in (one.0 a, rest.0 b), λ h. both.1 (one.1 h.0, rest.1 h.1))
