-- ===== src/Scenarios/Validate.antt =====
-- `validateFor`, `encodeFor`, `digestFor` and `decodeFor` of scenarios.
pub mod Scans
use clanker_foundry.Prelude.{
  ℕ, ◌+◌, Bool, true, false, not, ◌&&◌, ◌||◌, Option, none, some, List, [], ◌∷◌, leb, ◌==◌, length,
  Result, ok, err, ◌>>=◌, ◌>>◌, check,
}
use clanker_foundry.Text.{Str, str_eq, contains}
use clanker_foundry.Model.{identifier}
use clanker_foundry.Json.{json_object}
use clanker_foundry.Scenarios.{
  Step, Case, Suite, ScenarioError, invalid_scenario, model_binding, Binding, max_source_bytes,
  max_cases, max_steps_per_case, max_steps, max_text_bytes,
}
use clanker_foundry.Scenarios.Budget.{spend, spend_task, spend_command, spend_expected, hex_digest}
use clanker_foundry.Scenarios.Dto.{SuiteDto, suite_to_dto}
use clanker_foundry.Scenarios.Parse.{suite_of_dto}
use clanker_foundry.Scenarios.Encoding.{content_fields, suite_dto_json, line}

-- The state of the check: the IDs so far, the bytes of text and the count of steps.
pub record Scan : Type 0 where
  pub ids : List Str
  pub used : ℕ
  pub total : ℕ

-- A failed check is an invalid scenario.
abbrev pub require {ℓ} : {A : Type ℓ} → Option A → Result ScenarioError A
require none = err invalid_scenario
require (some a) = ok a

-- `id`.
unfoldable pub take_id : Str → Scan → Result ScenarioError Scan
take_id v s = do
  check (identifier v && not (contains s.ids v)) invalid_scenario
  n ← require (spend max_source_bytes v 48 s.used)
  ok record s { ids = v ∷ s.ids; used = n }

unfoldable pub scan_step : Step → Scan → Result ScenarioError Scan
unfolding take_id
scan_step step s = do
  s' ← take_id step.id s
  a ← require (spend_command max_source_bytes step.command s'.used)
  b ← require (spend_expected max_source_bytes step.expected a)
  ok record s' { used = b }

unfoldable pub scan_steps : List Step → Scan → Result ScenarioError Scan
unfolding scan_step
scan_steps [] s = ok s
scan_steps (x ∷ xs) s = scan_step x s >>= scan_steps xs

unfoldable pub scan_case : Case → Scan → Result ScenarioError Scan
unfolding take_id scan_steps
scan_case c s = do
  s' ← take_id c.id s
  check (leb 1 (length c.steps) && leb (length c.steps) max_steps_per_case) invalid_scenario
  a ← require (spend_task max_source_bytes c.initial s'.used)
  check (leb (s'.total + length c.steps) max_steps) invalid_scenario
  scan_steps c.steps (record s' { used = a; total = s'.total + length c.steps })

unfoldable pub scan_cases : List Case → Scan → Result ScenarioError Scan
unfolding scan_case
scan_cases [] s = ok s
scan_cases (c ∷ cs) s = scan_case c s >>= scan_cases cs

-- `encodeJSON(toDTO(s))`.
unfoldable pub suite_json : Suite → Str
suite_json s = line (suite_dto_json (suite_to_dto s))

unfoldable pub validate_for : Suite → Binding → Result ScenarioError (Unit {0})
unfolding take_id scan_cases suite_json
validate_for s binding = do
  check
      (s.version == 1
        && (leb 1 (length s.cases)
            && (leb (length s.cases) max_cases && hex_digest s.model_digest)))
      invalid_scenario
  a ← take_id s.id (record { ids = []; used = 0; total = 0 })
  b ← require (spend max_source_bytes s.profile_version max_text_bytes a.used)
  done ← scan_cases s.cases (record a { used = b })
  check (leb (length (suite_json s)) max_source_bytes) invalid_scenario
  check
      (str_eq s.profile_version binding.profile_version
        && str_eq s.model_digest binding.model_digest)
      model_binding

unfoldable pub encode_for : Suite → Binding → Result ScenarioError Str
unfolding validate_for suite_json
encode_for s binding = do validate_for s binding; ok (suite_json s)

-- The suite of a decoded file.
unfoldable pub decode_for : SuiteDto → Binding → Result ScenarioError Suite
unfolding validate_for suite_of_dto
decode_for d binding = do s ← suite_of_dto d; validate_for s binding; ok s

-- The newline that the encoder adds is trimmed before the hash is taken.
unfoldable pub digest_for : (Str → Str) → Suite → Binding → Result ScenarioError Str
unfolding validate_for
digest_for sha256_hex s binding = do
  validate_for s binding
  ok (sha256_hex (json_object (content_fields (suite_to_dto s))))
