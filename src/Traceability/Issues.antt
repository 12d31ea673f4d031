-- ===== src/Traceability/Issues.antt =====
-- `validate` of traceability/trace.go: every issue of a document, sorted. `to_lower` is
-- `strings.ToLower`, which reads the case tables of Unicode; nothing is assumed of it.
pub mod Accepts
pub mod Statements
pub mod Linked
pub mod WellLinked
use clanker_foundry.Prelude.{
  ℕ, ◌+◌, Bool, true, false, not, ◌&&◌, ◌||◌, Option, none, some, List, [], ◌∷◌, ◌++◌, leb, ltb,
  ◌==◌, if◌then◌else◌, length, map,
}
use clanker_foundry.Text.{Str, str, str_eq, str_ltb, contains, fields, join_words}
use clanker_foundry.Sort.{sort_less, sort_strings}
use clanker_foundry.Model.{Model}
use clanker_foundry.Traceability.{
  ModelLink, LinkedRequirement, Document, Element, AcceptanceCase, Issue, requirement_id,
  valid_line, find_element, find_case, valid_kind, requirements_format, catalog_schema,
  max_requirements, max_links,
}

-- `add`, if the test holds.
unfoldable pub issue_if : Bool → Str → Str → Str → List Issue
issue_if true code requirement target =
    record { code = code; requirement = requirement; target = target } ∷ []
issue_if false code requirement target = []

unfoldable pub issue_less : Issue → Issue → Bool
issue_less a b =
    if not (str_eq a.requirement b.requirement)
    then str_ltb a.requirement b.requirement
    else if not (str_eq a.code b.code)
    then str_ltb a.code b.code
    else str_ltb a.target b.target

unfoldable pub issue_eq : Issue → Issue → Bool
issue_eq a b =
    str_eq a.code b.code && (str_eq a.requirement b.requirement && str_eq a.target b.target)

unfoldable pub drop_repeated : List Issue → List Issue
unfolding issue_eq
drop_repeated [] = []
drop_repeated (a ∷ []) = a ∷ []
drop_repeated (a ∷ b ∷ xs) =
    let rest = drop_repeated (b ∷ xs) in if issue_eq a b then rest else a ∷ rest

unfoldable pub sort_issues : List Issue → List Issue
unfolding drop_repeated issue_less
sort_issues xs = drop_repeated (sort_less issue_less xs)

-- The map's key of a link.
unfoldable pub target_text : ModelLink → Str
target_text l = l.kind ++ b':' ∷ l.id

-- What is wrong with the target of a link, if anything: the cases of the switch.
unfoldable pub link_issue : List Element → Str → ModelLink → List Issue
unfolding issue_if target_text
link_issue els id l =
    if not (valid_kind l.kind)
    then issue_if true (str "unknown-link-kind") id (target_text l)
    else (elim (find_element els l.id) [
      | none ↦ issue_if true (str "dangling-model-link") id (target_text l)
      | some el ↦
          issue_if (not (str_eq el.kind l.kind)) (str "link-kind-mismatch") id (target_text l)
    ])

unfoldable pub link_issues : List Element → Str → List Str → List ModelLink → List Issue
unfolding link_issue
link_issues els id seen [] = []
link_issues els id seen (l ∷ ls) =
    link_issue els id l
    ++ (issue_if (contains seen (target_text l)) (str "duplicate-model-link") id (target_text l)
        ++ link_issues els id (target_text l ∷ seen) ls)

is_missing : Option AcceptanceCase → Bool
is_missing none = true
is_missing (some c) = false

unfoldable pub case_issues : List AcceptanceCase → Str → List Str → List Str → List Issue
unfolding is_missing
case_issues cases id seen [] = []
case_issues cases id seen (c ∷ cs) =
    issue_if (is_missing (find_case cases c)) (str "dangling-acceptance-link") id c
    ++ (issue_if (contains seen c) (str "duplicate-acceptance-link") id c
        ++ case_issues cases id (c ∷ seen) cs)

unfoldable pub too_many_links : LinkedRequirement → Bool
too_many_links r = ltb max_links (length r.model_links) || ltb max_links (length r.acceptance_links)

-- The issues of one requirement.
unfoldable pub requirement_issues :
    List Element → List AcceptanceCase → LinkedRequirement → List Issue
unfolding link_issues case_issues too_many_links
requirement_issues els cases r =
    issue_if (not (requirement_id r.id)) (str "invalid-requirement-id") r.id []
    ++ (issue_if (not (valid_line r.title 120)) (str "invalid-title") r.id []
        ++ (issue_if (not (valid_line r.statement 1024)) (str "invalid-statement") r.id []
            ++ (if too_many_links r
                then issue_if true (str "too-many-links") r.id []
                else link_issues els r.id [] r.model_links
                  ++ case_issues cases r.id [] r.acceptance_links)))

unfoldable pub each_requirement :
    List Element → List AcceptanceCase → List LinkedRequirement → List Issue
unfolding requirement_issues
each_requirement els cases [] = []
each_requirement els cases (r ∷ rs) =
    requirement_issues els cases r ++ each_requirement els cases rs

-- An issue for each ID that an earlier requirement has; repeats are dropped in the end.
unfoldable pub duplicate_ids : List Str → List LinkedRequirement → List Issue
duplicate_ids seen [] = []
duplicate_ids seen (r ∷ rs) =
    issue_if (contains seen r.id) (str "duplicate-requirement-id") r.id []
    ++ duplicate_ids (r.id ∷ seen) rs

unfoldable pub ambiguous_with : Str → List Str → List Issue
ambiguous_with first [] = []
ambiguous_with first (id ∷ ids) =
    issue_if (not (str_eq id first)) (str "ambiguous-statement") id first
    ++ ambiguous_with first ids

-- The issues of the IDs of one statement, in order: those after the first that are not the first.
unfoldable pub ambiguous_in : List Str → List Issue
unfolding ambiguous_with
ambiguous_in [] = []
ambiguous_in (first ∷ ids) = ambiguous_with first ids

-- The issues of the document itself.
unfoldable pub document_issues : Document → Model → List Issue
unfolding issue_if requirements_format catalog_schema
document_issues doc m =
    issue_if (not (str_eq doc.format_version requirements_format))
      (str "unsupported-format-version") [] []
    ++ (issue_if (not (str_eq doc.model_id m.id)) (str "model-id-mismatch") [] []
        ++ (issue_if (not (str_eq doc.acceptance_catalog catalog_schema)) (str "catalog-mismatch")
              [] []
            ++ (issue_if (length doc.requirements == 0) (str "no-requirements") [] []
                ++ issue_if (ltb max_requirements (length doc.requirements))
                    (str "too-many-requirements") [] [])))

-- Lower case, and one space between words.
unfoldable pub statement_key : (Str → Str) → Str → Str
unfolding fields join_words
statement_key to_lower s = to_lower (join_words (fields s))

module _ (to_lower : Str → Str) where
  -- The IDs of the requirements with valid statements of one key.
  unfoldable pub group_of : Str → List LinkedRequirement → List Str
  group_of key [] = []
  group_of key (r ∷ rs) =
      let rest = group_of key rs in
      if valid_line r.statement 1024 && str_eq (statement_key to_lower r.statement) key
      then r.id ∷ rest
      else rest

  -- Every group, once for each of its requirements; repeats are dropped in the end.
  unfoldable pub ambiguous : List LinkedRequirement → List LinkedRequirement → List Issue
  unfolding group_of ambiguous_in
  ambiguous all [] = []
  ambiguous all (r ∷ rs) =
      (if valid_line r.statement 1024
        then ambiguous_in (sort_strings (group_of (statement_key to_lower r.statement) all))
        else [])
      ++ ambiguous all rs

  -- `validate`.
  unfoldable pub validate_document :
      Document → Model → List Element → List AcceptanceCase → List Issue
  unfolding document_issues each_requirement duplicate_ids ambiguous sort_issues
  validate_document doc m els cases =
      if ltb max_requirements (length doc.requirements)
      then sort_issues (document_issues doc m)
      else sort_issues (
          document_issues doc m
          ++ (each_requirement els cases doc.requirements
              ++ (duplicate_ids [] doc.requirements
                  ++ ambiguous doc.requirements doc.requirements)))
