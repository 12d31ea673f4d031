-- ===== src/Scenarios/Parse.antt =====
-- scenarios/decode.go: the way back from the transport records, and the check of a decoded file.
pub mod Decimals
pub mod Roundtrip
use clanker_foundry.Prelude.{
  ℕ, ◌+◌, ◌-◌, ◌*◌, ◌^◌, Bool, true, false, not, ◌&&◌, ◌||◌, Option, none, some, List, [], ◌∷◌, leb,
  ltb, ◌==◌, if◌then◌else◌, length, all_of, map, Result, ok, err, ◌>>=◌, ◌>>◌, check,
}
use clanker_foundry.Text.{Str, str, str_eq}
use clanker_foundry.Lifecycle.{Task, Review, Command, Strings}
use clanker_foundry.Scenarios.{Expected, Step, Case, Suite, ScenarioError, invalid_scenario}
use clanker_foundry.Scenarios.Dto.{
  TaskDto, ReviewDto, CommandDto, ExpectedDto, StepDto, CaseDto, SuiteDto, format_version,
  scenario_version,
}

unfoldable pub is_decimal_digit : ℕ → Bool
is_decimal_digit c = leb b'0' c && leb c b'9'

leading_zero : Str → Bool
leading_zero (c ∷ d ∷ s) = c == b'0'
leading_zero _ = false

unfoldable pub digits_value : ℕ → Str → ℕ
digits_value acc [] = acc
digits_value acc (c ∷ s) = digits_value (10 * acc + (c - b'0')) s

-- `strconv.ParseUint(s, 10, 64)` on digits: an error past the last 64-bit number.
parse_uint : Str → Result ScenarioError ℕ
unfolding digits_value
parse_uint s = let n = digits_value 0 s in if ltb n (2 ^ 64) then ok n else err invalid_scenario

-- `decimal`.
unfoldable pub parse_decimal : Str → Result ScenarioError ℕ
unfolding is_decimal_digit leading_zero parse_uint all_of
parse_decimal s = do
  check (leb 1 (length s) && leb (length s) 20 && not (leading_zero s)) invalid_scenario
  check (all_of is_decimal_digit s) invalid_scenario
  parse_uint s

unfoldable pub task_of_dto : TaskDto → Result ScenarioError Task
unfolding parse_decimal
task_of_dto d = do
  n ← parse_decimal d.revision
  ok record {
    id = d.id;
    state = d.state;
    revision = n;
    outcome = d.outcome;
    acceptance = d.acceptance;
    owner = d.owner;
  }

unfoldable pub review_of_dto : ReviewDto → Result ScenarioError Review
unfolding parse_decimal
review_of_dto r = do
  n ← parse_decimal r.task_revision
  ok record {
    task_id = r.task_id;
    task_revision = n;
    model_digest = r.model_digest;
    task_digest = r.task_digest;
    reviewer = r.reviewer;
    decision = r.decision;
  }

-- A pointer, with what it points to converted, where that succeeds.
unfoldable pub through_all :
    {A B : Type 0} → (A → Result ScenarioError B) → Option A → Result ScenarioError (Option B)
through_all f none = ok none
through_all f (some a) = do b ← f a; ok (some b)

unfoldable pub command_of_dto : CommandDto → Result ScenarioError Command
unfolding parse_decimal review_of_dto through_all
command_of_dto d = do
  n ← parse_decimal d.expected_revision
  review ← through_all review_of_dto d.review
  ok record { kind = d.kind; actor = d.actor; expected_revision = n; review = review }

unfoldable pub expected_of_dto : ExpectedDto → Result ScenarioError Expected
unfolding task_of_dto through_all
expected_of_dto d = do
  task ← through_all task_of_dto d.task
  ok record { is_ok = d.is_ok; transition_id = d.transition_id; task = task; refusals = d.refusals }

-- A loop that converts the elements in order and stops at the first error.
unfoldable pub each :
    {A B : Type 0} → (A → Result ScenarioError B) → List A → Result ScenarioError (List B)
each f [] = ok []
each f (x ∷ xs) = do y ← f x; ys ← each f xs; ok (y ∷ ys)

unfoldable pub step_of_dto : StepDto → Result ScenarioError Step
unfolding command_of_dto expected_of_dto
step_of_dto d = do
  command ← command_of_dto d.command
  expected ← expected_of_dto d.expected
  ok record { id = d.id; command = command; expected = expected }

unfoldable pub case_of_dto : CaseDto → Result ScenarioError Case
unfolding task_of_dto step_of_dto each
case_of_dto d = do
  initial ← task_of_dto d.initial
  steps ← each step_of_dto d.steps
  ok record { id = d.id; initial = initial; steps = steps }

-- `decodeFor` between the JSON and the validation.
unfoldable pub suite_of_dto : SuiteDto → Result ScenarioError Suite
unfolding format_version scenario_version case_of_dto each
suite_of_dto d = do
  check (str_eq d.format_version format_version && str_eq d.scenario_version scenario_version)
      invalid_scenario
  cases ← each case_of_dto d.cases
  ok record {
    version = 1;
    id = d.id;
    profile_version = d.profile_version;
    model_digest = d.model_digest;
    cases = cases;
  }
