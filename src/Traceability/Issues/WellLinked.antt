-- ===== src/Traceability/Issues/WellLinked.antt =====
-- `validate` finds no issue exactly in documents that are well linked.
use clanker_foundry.Prelude.{
  ◌≤◌, ◌≡◌, ◌↔◌, refl, sym, ◌∙◌, true, not, List, [], ◌++◌, ltb, ◌==◌, length, map, All, All_at,
  arith, Bool-cases, inl, inr,
}
use clanker_foundry.Text.{Str, str, str_eq}
use clanker_foundry.Text.Laws.{str_eq_iff}
use clanker_foundry.Distinct.{Distinct}
use clanker_foundry.Model.{Model}
use clanker_foundry.Traceability.{
  Document, Element, AcceptanceCase, Issue, requirements_format, catalog_schema, max_requirements,
}
use clanker_foundry.Traceability.Issues.{
  issue_if, sort_issues, each_requirement, duplicate_ids, document_issues, validate_document,
  ambiguous,
}
use clanker_foundry.Traceability.Issues.Statements.{IsUnambiguous, AllValid, ambiguous-nil}
use clanker_foundry.Traceability.Issues.Accepts.{
  append-nil_iff, issue_if-nil, sort_issues-nil, Fresh-iff, not-false,
}
use clanker_foundry.Traceability.Issues.Linked.{
  IsLinked, each_requirement-nil, duplicate_ids-nil, nothing_seen,
}

-- A document that is written for the model and the catalog, whose requirements have different IDs,
-- statements of different keys and only links that resolve.
pub record IsWellLinked (to_lower : Str → Str) (doc : Document) (m : Model) (els : List Element)
    (cases : List AcceptanceCase) : Type 0 where
  pub format_version : doc.format_version ≡ requirements_format
  pub model_id : doc.model_id ≡ m.id
  pub catalog : doc.acceptance_catalog ≡ catalog_schema
  pub some_requirements : 1 ≤ length doc.requirements
  pub few_requirements : length doc.requirements ≤ max_requirements
  pub linked : All (IsLinked els cases) doc.requirements
  pub distinct : Distinct (map (λ r. r.id) doc.requirements)
  pub unambiguous : IsUnambiguous to_lower doc.requirements

module _ (to_lower : Str → Str) (doc : Document) (m : Model) where
  abbrev Headed : Type 0
  Headed =
      (doc.format_version ≡ requirements_format)
      × (doc.model_id ≡ m.id)
      × (doc.acceptance_catalog ≡ catalog_schema)
      × (1 ≤ length doc.requirements)
      × (length doc.requirements ≤ max_requirements)

  abbrev same_if : Str → Str → Str → List Issue
  same_if a b code = issue_if (not (str_eq a b)) code [] []

  same_if-nil : (a b code : Str) → (same_if a b code ≡ []) ↔ (a ≡ b)
  same_if-nil a b code =
      let one = issue_if-nil (not (str_eq a b)) code [] [] in
      let two = not-false (str_eq a b) in
      (λ h. (str_eq_iff a b).0 (two.0 (one.0 h)), λ h. one.1 (two.1 ((str_eq_iff a b).1 h)))

  document_issues-nil : (document_issues doc m ≡ []) ↔ Headed
  unfolding document_issues
  document_issues-nil =
      let a =
        same_if-nil doc.format_version requirements_format (str "unsupported-format-version") in
      let b = same_if-nil doc.model_id m.id (str "model-id-mismatch") in
      let d = same_if-nil doc.acceptance_catalog catalog_schema (str "catalog-mismatch") in
      let e = issue_if-nil (length doc.requirements == 0) (str "no-requirements") [] [] in
      let f =
        issue_if-nil (ltb max_requirements (length doc.requirements)) (str "too-many-requirements")
          [] [] in
      let p =
        append-nil_iff
          (same_if doc.format_version requirements_format (str "unsupported-format-version")) _ in
      let q = append-nil_iff (same_if doc.model_id m.id (str "model-id-mismatch")) _ in
      let r =
        append-nil_iff (same_if doc.acceptance_catalog catalog_schema (str "catalog-mismatch")) _ in
      let s =
        append-nil_iff (issue_if (length doc.requirements == 0) (str "no-requirements") [] []) _ in
      (
        λ h.
            let (h₁, k₁) = p.0 h in
            let (h₂, k₂) = q.0 k₁ in
            let (h₃, k₃) = r.0 k₂ in
            let (h₄, k₄) = s.0 k₃ in
            (a.0 h₁, b.0 h₂, d.0 h₃, ground (arith, e.0 h₄), ground (arith, f.0 k₄)),
        λ (h : Headed).
            p.1
              (a.1 h.0, q.1 (b.1 h.1, r.1 (d.1 h.2, s.1 (e.1 (ground arith), f.1 (ground arith))))),
      )

module _ (to_lower : Str → Str) (doc : Document) (m : Model) (els : List Element)
    (cases : List AcceptanceCase) where
  abbrev all_issues : List Issue
  all_issues =
      document_issues doc m
      ++ (each_requirement els cases doc.requirements
          ++ (duplicate_ids [] doc.requirements
              ++ ambiguous to_lower doc.requirements doc.requirements))

  all_valid : All (IsLinked els cases) doc.requirements → AllValid to_lower doc.requirements
  all_valid h r k = (All_at (IsLinked els cases) doc.requirements h k).statement

  all_issues-nil : (all_issues ≡ []) ↔ IsWellLinked to_lower doc m els cases
  all_issues-nil =
      let head = document_issues-nil to_lower doc m in
      let each = each_requirement-nil els cases doc.requirements in
      let ids = duplicate_ids-nil [] doc.requirements in
      let fresh = Fresh-iff [] (map (λ r. r.id) doc.requirements) in
      let p = append-nil_iff (document_issues doc m) _ in
      let q = append-nil_iff (each_requirement els cases doc.requirements) _ in
      let r = append-nil_iff (duplicate_ids [] doc.requirements) _ in
      (
        λ h.
            let (h₁, k₁) = p.0 h in
            let (h₂, k₂) = q.0 k₁ in
            let (h₃, k₃) = r.0 k₂ in
            let (a, b, d, e, f) = head.0 h₁ in
            let linked = each.0 h₂ in
            record {
              format_version = a;
              model_id = b;
              catalog = d;
              some_requirements = e;
              few_requirements = f;
              linked = linked;
              distinct = (fresh.0 (ids.0 h₃)).0;
              unambiguous = (ambiguous-nil to_lower doc.requirements (all_valid linked)).0 k₃;
            },
        λ (h : IsWellLinked to_lower doc m els cases). p.1 (
          head.1 (h.format_version, h.model_id, h.catalog, h.some_requirements, h.few_requirements),
          q.1 (
            each.1 h.linked,
            r.1 (
              ids.1 (fresh.1 (h.distinct, nothing_seen _)),
              (ambiguous-nil to_lower doc.requirements (all_valid h.linked)).1 h.unambiguous,
            ),
          ),
        ),
      )

  -- `validate` finds no issue exactly if the document is written for the model and the catalog, has
  -- 1 to 256 requirements with different IDs, no two requirements with different IDs have statements
  -- of one key, and every requirement has a valid ID, title and statement, at most 64 links of each
  -- sort, links only to elements of the named kind and to cases, and none twice.
  pub validate_document-nil :
      (validate_document to_lower doc m els cases ≡ []) ↔ IsWellLinked to_lower doc m els cases
  unfolding validate_document
  validate_document-nil = elim (Bool-cases (ltb max_requirements (length doc.requirements))) [
    | inl many ↦
        let e : validate_document to_lower doc m els cases ≡ sort_issues (document_issues doc m) =
          rw many refl in
        let sorted = sort_issues-nil (document_issues doc m) in
        let head = document_issues-nil to_lower doc m in
        (
          λ h. absurd (too_long many (head.0 (sorted.0 (sym e ∙ h))).4),
          λ (h : IsWellLinked to_lower doc m els cases). absurd (too_long many h.few_requirements),
        )
    | inr few ↦
        let e : validate_document to_lower doc m els cases ≡ sort_issues all_issues = rw few refl in
        let sorted = sort_issues-nil all_issues in
        (λ h. all_issues-nil.0 (sorted.0 (sym e ∙ h)), λ h. e ∙ sorted.1 (all_issues-nil.1 h))
  ]
    where
      too_long :
          ltb max_requirements (length doc.requirements) ≡ true
          → ¬ (length doc.requirements ≤ max_requirements)
      too_long many few = ground arith
