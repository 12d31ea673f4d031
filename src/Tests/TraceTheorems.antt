-- ===== src/Tests/TraceTheorems.antt =====
-- A document of one requirement for the small model, and the theorems about traces at it.
use clanker_foundry.Prelude.{
  ◌+◌, ◌&&◌, ◌≡◌, ◌↔◌, refl, List, [], ◌∷◌, Memᴰ, map, leb, if◌then◌else◌,
}
use clanker_foundry.Text.{Str, str, str_eq, str_ltb, valid_string, nonblank, contains}
use clanker_foundry.Sort.{sort_less, sort_strings}
use clanker_foundry.Traceability.{
  Document, AcceptanceCase, elements, requirement_id, valid_line, find_element, find_case,
  valid_kind, kind_rank, kind_guard, kind_model_requirement, uniq,
}
use clanker_foundry.Traceability.Build.{trace_report}
use clanker_foundry.Traceability.Reports.{Inputs, ElementTrace}
use clanker_foundry.Traceability.Build.Traces.{element_traces_iff, LinksTo, GuardsTo}
use clanker_foundry.Traceability.Issues.{validate_document, statement_key}
use clanker_foundry.Traceability.Issues.WellLinked.{validate_document-nil, IsWellLinked}
use clanker_foundry.Tests.Models.{small}

abbrev cases : List AcceptanceCase
cases =
    record { case_id = str "c-1"; name = str "A draft"; execution_status = str "executable" } ∷ []

abbrev linked_document : Document
linked_document = record {
  format_version = str "lifecycle-requirements-json/v1";
  model_id = str "Small";
  acceptance_catalog = str "lifecycle-semantic-oracle-v2";
  requirements =
      record {
        id = str "UR-001";
        title = str "Outcome";
        statement = str "The outcome is stated.";
        model_links = record { kind = str "guard"; id = str "G_outcome" } ∷ [];
        acceptance_links = str "c-1" ∷ [];
      }
      ∷ [];
}

abbrev lower_ascii : Str → Str
lower_ascii = map (λ a. if leb 65 a && leb a 90 then a + 32 else a)

-- Statements that differ in case and spaces only have one key; U+00A0 is a space, `é` is not.
one_key :
    (statement_key lower_ascii (str "  The  Task is DONE ")
      ≡ statement_key lower_ascii (84 ∷ 72 ∷ 69 ∷ 0xC2 ∷ 0xA0 ∷ str "task is done"))
    × (statement_key lower_ascii (0xC3 ∷ 0xA9 ∷ 32 ∷ []) ≡ 0xC3 ∷ 0xA9 ∷ [])
unfolding statement_key
one_key = (refl, refl)

abbrev inputs : Inputs
inputs = record { requirements_digest = []; model_id = []; model_digest = []; catalog_sha256 = [] }

document_passes : validate_document lower_ascii linked_document small (elements small) cases ≡ []
unfolding validate_document sort_less str_eq requirement_id valid_line valid_string nonblank
    valid_kind find_element elements contains find_case sort_strings statement_key
document_passes = refl

-- The trace of the model requirement that the guard is declared for.
abbrev outcome_trace : ElementTrace
outcome_trace = record {
  kind = str "modelRequirement";
  id = str "R_outcome";
  detail = str "The outcome is given.";
  traced_by = [];
  traced_via_guard = str "UR-001" ∷ [];
}

traced :
    Memᴰ outcome_trace (trace_report small cases linked_document.requirements inputs).model_elements
unfolding trace_report sort_less str_eq kind_rank str_ltb uniq sort_strings find_element
    kind_model_requirement kind_guard
traced = Memᴰ.tail (Memᴰ.tail (Memᴰ.tail (Memᴰ.tail (Memᴰ.tail (Memᴰ.tail (Memᴰ.head refl))))))

validate_document-nil_example :
    (validate_document lower_ascii linked_document small (elements small) cases ≡ [])
    ↔ IsWellLinked lower_ascii linked_document small (elements small) cases
validate_document-nil_example =
    validate_document-nil lower_ascii linked_document small (elements small) cases

element_traces_iff_example :
    (Memᴰ (str "UR-001") outcome_trace.traced_by
      ↔ LinksTo linked_document.requirements (str "R_outcome") (str "UR-001"))
    × (Memᴰ (str "UR-001") outcome_trace.traced_via_guard ↔ (
        (outcome_trace.kind ≡ kind_model_requirement)
        × GuardsTo (elements small) linked_document.requirements (str "R_outcome") (str "UR-001")))
element_traces_iff_example =
    element_traces_iff lower_ascii linked_document small cases inputs outcome_trace (str "UR-001")
      ((validate_document-nil lower_ascii linked_document small (elements small) cases).0
        document_passes)
      traced
