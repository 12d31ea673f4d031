-- ===== src/Scenarios/Encoding.antt =====
-- `encodeJSON` of scenarios/decode.go on the transport records: the fields in the order of the
-- records, and a newline. It cannot fail on them, since they hold only texts and tests.
use clanker_foundry.Prelude.{Bool, true, false, Option, none, some, List, [], ◌∷◌, ◌++◌, map}
use clanker_foundry.Text.{Str, str}
use clanker_foundry.Json.{json_string, json_strings, json_pointer, json_object, join}
use clanker_foundry.Lifecycle.{Strings}
use clanker_foundry.Scenarios.Dto.{
  TaskDto, ReviewDto, CommandDto, ExpectedDto, StepDto, CaseDto, SuiteDto, ActualDto, EntryDto,
}

unfoldable pub json_bool : Bool → Str
json_bool true = str "true"
json_bool false = str "false"

unfoldable pub json_null : Str
json_null = str "null"

-- A `[]string`.
unfoldable pub json_slice : Strings → Str
unfolding json_null
json_slice none = json_null
json_slice (some ss) = json_strings ss

unfoldable pub json_optional {ℓ} : {A : Type ℓ} → (A → Str) → Option A → Str
unfolding json_null
json_optional f none = json_null
json_optional f (some a) = f a

unfoldable pub json_list {ℓ} : {A : Type ℓ} → (A → Str) → List A → Str
json_list f xs = b'[' ∷ (join (map f xs) ++ b']' ∷ [])

unfoldable pub task_dto_json : TaskDto → Str
task_dto_json t = json_object (
    (str "id", json_string t.id)
    ∷ (str "state", json_string t.state)
    ∷ (str "revision", json_string t.revision)
    ∷ (str "outcome", json_string t.outcome)
    ∷ (str "acceptance", json_slice t.acceptance)
    ∷ (str "owner", json_pointer t.owner)
    ∷ [])

unfoldable pub review_dto_json : ReviewDto → Str
review_dto_json r = json_object (
    (str "taskId", json_string r.task_id)
    ∷ (str "taskRevision", json_string r.task_revision)
    ∷ (str "modelDigest", json_string r.model_digest)
    ∷ (str "taskDigest", json_string r.task_digest)
    ∷ (str "reviewer", json_string r.reviewer)
    ∷ (str "decision", json_string r.decision)
    ∷ [])

unfoldable pub command_dto_json : CommandDto → Str
command_dto_json c = json_object (
    (str "type", json_string c.kind)
    ∷ (str "actor", json_string c.actor)
    ∷ (str "expectedRevision", json_string c.expected_revision)
    ∷ (str "review", json_optional review_dto_json c.review)
    ∷ [])

unfoldable pub expected_dto_json : ExpectedDto → Str
expected_dto_json e = json_object (
    (str "ok", json_bool e.is_ok)
    ∷ (str "transitionId", json_string e.transition_id)
    ∷ (str "task", json_optional task_dto_json e.task)
    ∷ (str "refusals", json_slice e.refusals)
    ∷ [])

unfoldable pub step_dto_json : StepDto → Str
step_dto_json s = json_object (
    (str "id", json_string s.id)
    ∷ (str "command", command_dto_json s.command)
    ∷ (str "expected", expected_dto_json s.expected)
    ∷ [])

unfoldable pub case_dto_json : CaseDto → Str
case_dto_json c = json_object (
    (str "id", json_string c.id)
    ∷ (str "initial", task_dto_json c.initial)
    ∷ (str "steps", json_list step_dto_json c.steps)
    ∷ [])

-- The fields that the digest covers: all but the format's version.
unfoldable pub content_fields : SuiteDto → List (Str × Str)
content_fields d =
    (str "scenarioVersion", json_string d.scenario_version)
    ∷ (str "profileVersion", json_string d.profile_version)
    ∷ (str "modelDigest", json_string d.model_digest)
    ∷ (str "id", json_string d.id)
    ∷ (str "cases", json_list case_dto_json d.cases)
    ∷ []

unfoldable pub suite_dto_json : SuiteDto → Str
unfolding content_fields
suite_dto_json d =
    json_object ((str "formatVersion", json_string d.format_version) ∷ content_fields d)

unfoldable pub actual_dto_json : ActualDto → Str
actual_dto_json r = json_object (
    (str "mode", json_string r.mode)
    ∷ (str "authority", json_string r.authority)
    ∷ (str "modelDigest", json_string r.model_digest)
    ∷ (str "ok", json_bool r.is_ok)
    ∷ (str "transitionId", json_string r.transition_id)
    ∷ (str "task", json_optional task_dto_json r.task)
    ∷ (str "refusals", json_slice r.refusals)
    ∷ [])

unfoldable pub entry_dto_json : EntryDto → Str
entry_dto_json e = json_object (
    (str "caseId", json_string e.case_id)
    ∷ (str "stepId", json_string e.step_id)
    ∷ (str "input", task_dto_json e.input)
    ∷ (str "command", command_dto_json e.command)
    ∷ (str "expected", expected_dto_json e.expected)
    ∷ (str "actual", actual_dto_json e.actual)
    ∷ (str "matched", json_bool e.matched)
    ∷ (str "differences", json_slice e.differences)
    ∷ [])

-- What `json.Encoder` adds.
unfoldable pub line : Str → Str
line s = s ++ b'\n' ∷ []
