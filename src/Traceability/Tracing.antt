-- ===== src/Traceability/Tracing.antt =====
-- The loop of `Build` of traceability/trace.go over the requirements: which of them trace to an
-- element, and to a case.
use clanker_foundry.Prelude.{none, some, List, [], ◌∷◌, ◌++◌, if◌then◌else◌}
use clanker_foundry.Text.{Str, str_eq}
use clanker_foundry.Traceability.{
  ModelLink, LinkedRequirement, Element, AcceptanceCase, find_element, find_case, kind_guard,
}

-- A `map[string][]string`.
abbrev pub Lists : Type 0
Lists = Str → List Str

unfoldable pub append_to : Str → Str → Lists → Lists
append_to key value lists k = if str_eq k key then lists k ++ value ∷ [] else lists k

-- The element of a link, and the case of a link; the zero value for an unknown ID.
unfoldable pub element_at : List Element → Str → Element
element_at els id = elim (find_element els id) [
  | none ↦ record { kind = []; id = []; detail = []; guard_requirement = [] }
  | some el ↦ el
]

unfoldable pub case_at : List AcceptanceCase → Str → AcceptanceCase
case_at cases id = elim (find_case cases id) [
  | none ↦ record { case_id = []; name = []; execution_status = [] }
  | some c ↦ c
]

-- The maps that the loop over the requirements fills.
pub record Traced : Type 0 where
  pub direct : Lists
  pub via_guard : Lists
  pub case_by : Lists

unfoldable pub nothing_traced : Traced
nothing_traced = record { direct = λ k. []; via_guard = λ k. []; case_by = λ k. [] }

unfoldable pub trace_link : List Element → Str → ModelLink → Traced → Traced
unfolding append_to element_at
trace_link els id l t =
    let el = element_at els l.id in
    record t {
      direct = append_to el.id id t.direct;
      via_guard =
          if str_eq el.kind kind_guard
          then append_to el.guard_requirement id t.via_guard
          else t.via_guard;
    }

unfoldable pub trace_links : List Element → Str → List ModelLink → Traced → Traced
unfolding trace_link
trace_links els id [] t = t
trace_links els id (l ∷ ls) t = trace_links els id ls (trace_link els id l t)

unfoldable pub trace_cases : List AcceptanceCase → Str → List Str → Traced → Traced
unfolding append_to case_at
trace_cases cases id [] t = t
trace_cases cases id (c ∷ cs) t =
    trace_cases cases id cs
      (record t { case_by = append_to (case_at cases c).case_id id t.case_by })

unfoldable pub trace_all :
    List Element → List AcceptanceCase → List LinkedRequirement → Traced → Traced
unfolding trace_links trace_cases
trace_all els cases [] t = t
trace_all els cases (r ∷ rs) t =
    trace_all els cases rs
      (trace_cases cases r.id r.acceptance_links (trace_links els r.id r.model_links t))
