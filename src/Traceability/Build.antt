-- ===== src/Traceability/Build.antt =====
-- `Build` of traceability/trace.go: the trace of a valid document.
pub mod Links
pub mod Traces
use clanker_foundry.Prelude.{
  ℕ, ◌+◌, Bool, true, false, not, ◌&&◌, ◌||◌, Option, none, some, List, [], ◌∷◌, ◌++◌, leb, ltb,
  ◌==◌, if◌then◌else◌, length, map, any_of, Result, ok, err, ◌>>=◌, ◌>>◌, check,
}
use clanker_foundry.Text.{Str, str, str_eq, str_ltb}
use clanker_foundry.Sort.{sort_by, sort_less, sort_strings}
use clanker_foundry.Json.{json_string, json_strings, json_object, join}
use clanker_foundry.Model.{Model}
use clanker_foundry.Canonical.{digest}
use clanker_foundry.Traceability.{
  ModelLink, LinkedRequirement, Document, Element, AcceptanceCase, Issue, find_element, find_case,
  elements, kind_rank, kind_guard, kind_model_requirement, uniq, requirements_format,
  catalog_schema,
}
use clanker_foundry.Traceability.Catalog.{CatalogDocument, load_catalog}
use clanker_foundry.Traceability.Issues.{validate_document}
use clanker_foundry.Traceability.Reports.{
  ElementRef, RequirementTrace, ElementTrace, CaseTrace, Summary, Inputs, TraceReport,
}
use clanker_foundry.Traceability.Tracing.{
  Lists, append_to, element_at, case_at, Traced, nothing_traced, trace_link, trace_links,
  trace_cases, trace_all,
}

unfoldable pub untraced : ElementTrace → Bool
untraced e = length e.traced_by == 0 && length e.traced_via_guard == 0

is_empty_of {ℓ} : {A : Type ℓ} → List A → Bool
is_empty_of [] = true
is_empty_of (x ∷ xs) = false

unfoldable pub is_executable : AcceptanceCase → Bool
is_executable c = str_eq c.execution_status (str "executable")

-- The gaps of a requirement, before they are sorted.
unfoldable pub gaps_of : List ElementRef → List AcceptanceCase → List Str
unfolding is_empty_of is_executable any_of
gaps_of links cases =
    (if is_empty_of links then str "no-model-link" ∷ [] else [])
    ++ (if is_empty_of cases
        then str "no-acceptance-link" ∷ []
        else if any_of is_executable cases
        then []
        else str "no-executable-acceptance" ∷ [])

unfoldable pub reference_less : ElementRef → ElementRef → Bool
reference_less a b =
    if not (str_eq a.kind b.kind)
    then ltb (kind_rank a.kind) (kind_rank b.kind)
    else str_ltb a.id b.id

unfoldable pub reference_to : List Element → ModelLink → ElementRef
unfolding element_at
reference_to els l =
    let el = element_at els l.id in record { kind = el.kind; id = el.id; detail = el.detail }

unfoldable pub status_of : List Str → Str
unfolding is_empty_of
status_of gaps = if is_empty_of gaps then str "linked" else str "incomplete"

unfoldable pub requirement_trace :
    List Element → List AcceptanceCase → LinkedRequirement → RequirementTrace
unfolding gaps_of reference_to reference_less status_of case_at
requirement_trace els cases r =
    let links = map (reference_to els) r.model_links in
    let tested = map (case_at cases) r.acceptance_links in
    let gaps = sort_strings (gaps_of links tested) in
    record {
      id = r.id;
      title = r.title;
      statement = r.statement;
      status = status_of gaps;
      gaps = gaps;
      model_links = sort_less reference_less links;
      acceptance_links = sort_by (λ c. c.case_id) tested;
    }

unfoldable pub element_less : Element → Element → Bool
element_less a b =
    if not (str_eq a.kind b.kind)
    then ltb (kind_rank a.kind) (kind_rank b.kind)
    else str_ltb a.id b.id

unfoldable pub element_trace : Traced → Element → ElementTrace
element_trace t el = record {
  kind = el.kind;
  id = el.id;
  detail = el.detail;
  traced_by = uniq (t.direct el.id);
  traced_via_guard = if str_eq el.kind kind_model_requirement then uniq (t.via_guard el.id) else [];
}

unfoldable pub case_trace : Traced → AcceptanceCase → CaseTrace
case_trace t c = record { case = c; traced_by = uniq (t.case_by c.case_id) }

-- A counter that a loop raises for the elements that pass a test.
unfoldable pub count_if {ℓ} : {A : Type ℓ} → (A → Bool) → List A → ℕ
count_if p [] = 0
count_if p (x ∷ xs) = (if p x then 1 else 0) + count_if p xs

unfoldable pub is_linked : RequirementTrace → Bool
is_linked r = str_eq r.status (str "linked")

unfoldable pub is_pending : AcceptanceCase → Bool
is_pending c = str_eq c.execution_status (str "pending")

unfoldable pub summary_of : List RequirementTrace → List ElementTrace → List CaseTrace → Summary
unfolding count_if untraced is_linked is_pending
summary_of reqs els cases = record {
  requirements = length reqs;
  linked = count_if is_linked reqs;
  incomplete = count_if (λ r. not (is_linked r)) reqs;
  model_elements = length els;
  untraced_model_elements = count_if untraced els;
  acceptance_cases = length cases;
  pending_acceptance_cases = count_if (λ c. is_pending c.case) cases;
  unlinked_acceptance_cases = count_if (λ c. length c.traced_by == 0) cases;
}

-- `json.Marshal` escapes what `SetEscapeHTML(false)` does not; in JSON these bytes stand only in
-- strings.
html_escape : Str → Str
html_escape [] = []
html_escape (c ∷ s) =
    let rest = html_escape s in
    if c == b'<'
    then 92 ∷ str "u003c" ++ rest
    else if c == b'>'
    then 92 ∷ str "u003e" ++ rest
    else if c == b'&'
    then 92 ∷ str "u0026" ++ rest
    else c ∷ rest

link_json : ElementRef → Str
link_json l = json_object ((str "kind", json_string l.kind) ∷ (str "id", json_string l.id) ∷ [])

normalized_json : RequirementTrace → Str
unfolding link_json
normalized_json r = json_object (
    (str "id", json_string r.id)
    ∷ (str "title", json_string r.title)
    ∷ (str "statement", json_string r.statement)
    ∷ (str "modelLinks", b'[' ∷ (join (map link_json r.model_links) ++ b']' ∷ []))
    ∷ (str "acceptanceLinks", json_strings (map (λ c. c.case_id) r.acceptance_links))
    ∷ [])

-- The JSON of `normalizedRequirements`.
unfoldable pub normalized_requirements : List RequirementTrace → Str
unfolding html_escape normalized_json requirements_format
normalized_requirements reqs = html_escape (
    json_object (
      (str "formatVersion", json_string requirements_format)
      ∷ (str "requirements", b'[' ∷ (join (map normalized_json reqs) ++ b']' ∷ []))
      ∷ []))

-- The report of a document that is valid, before the digests.
unfoldable pub trace_report :
    Model → List AcceptanceCase → List LinkedRequirement → Inputs → TraceReport
unfolding elements trace_all nothing_traced requirement_trace element_less element_trace case_trace
    summary_of
trace_report m cases requirements inputs =
    let els = elements m in
    let t = trace_all els cases requirements nothing_traced in
    let reqs = sort_by (λ r. r.id) (map (requirement_trace els cases) requirements) in
    let traces = map (element_trace t) (sort_less element_less els) in
    let case_traces = map (case_trace t) cases in
    record {
      inputs = inputs;
      summary = summary_of reqs traces case_traces;
      requirements = reqs;
      model_elements = traces;
      acceptance_cases = case_traces;
    }

pub data BuildError : Type 0 where
  invalid_model bad_catalog malformed_json : BuildError
  invalid_requirements : List Issue → BuildError

abbrev or_fail : {D A : Type 0} → Result D A → BuildError → Result BuildError A
or_fail (ok a) e = ok a
or_fail (err d) e = err e

abbrev given : {A : Type 0} → Option A → BuildError → Result BuildError A
given none e = err e
given (some a) e = ok a

abbrev no_issues : List Issue → Result BuildError (Unit {0})
no_issues [] = ok tt
no_issues (i ∷ is) = err (invalid_requirements (i ∷ is))

module _ (sha256_hex : Str → Str) (to_lower : Str → Str) (decode_model : Str → Option Model)
    (decode_catalog : Str → Option CatalogDocument) (decode_document : Str → Option Document) where
  unfoldable pub build : Str → Str → Str → Result BuildError TraceReport
  unfolding load_catalog validate_document trace_report requirement_trace normalized_requirements
  build model_src catalog_src requirements_src = do
    m ← given (decode_model model_src) invalid_model
    model_digest ← or_fail (digest sha256_hex m) invalid_model
    cases ← or_fail (load_catalog decode_catalog catalog_src) bad_catalog
    doc ← given (decode_document requirements_src) malformed_json
    no_issues (validate_document to_lower doc m (elements m) cases)
    let reqs = sort_by (λ r. r.id) (map (requirement_trace (elements m) cases) doc.requirements)
    ok (
        trace_report m cases doc.requirements (record {
          requirements_digest = sha256_hex (normalized_requirements reqs);
          model_id = m.id;
          model_digest = model_digest;
          catalog_sha256 = sha256_hex catalog_src;
        }))
