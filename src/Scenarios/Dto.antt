-- ===== src/Scenarios/Dto.antt =====
-- The transport records of scenarios/decode.go, and the way to them.
use clanker_foundry.Prelude.{Bool, Option, none, some, List, map}
use clanker_foundry.Text.{Str, str, decimal}
use clanker_foundry.Lifecycle.{Task, Review, Command, Strings}
use clanker_foundry.Scenarios.{Expected, Step, Case, Suite, Entry}
use clanker_foundry.Lifecycle

pub record TaskDto : Type 0 where
  pub id : Str
  pub state : Str
  pub revision : Str
  pub outcome : Str
  pub acceptance : Strings
  pub owner : Option Str

pub record ReviewDto : Type 0 where
  pub task_id : Str
  pub task_revision : Str
  pub model_digest : Str
  pub task_digest : Str
  pub reviewer : Str
  pub decision : Str

pub record CommandDto : Type 0 where
  pub kind : Str
  pub actor : Str
  pub expected_revision : Str
  pub review : Option ReviewDto

pub record ExpectedDto : Type 0 where
  pub is_ok : Bool
  pub transition_id : Str
  pub task : Option TaskDto
  pub refusals : Strings

pub record StepDto : Type 0 where
  pub id : Str
  pub command : CommandDto
  pub expected : ExpectedDto

pub record CaseDto : Type 0 where
  pub id : Str
  pub initial : TaskDto
  pub steps : List StepDto

pub record SuiteDto : Type 0 where
  pub format_version : Str
  pub scenario_version : Str
  pub profile_version : Str
  pub model_digest : Str
  pub id : Str
  pub cases : List CaseDto

pub record ActualDto : Type 0 where
  pub mode : Str
  pub authority : Str
  pub model_digest : Str
  pub is_ok : Bool
  pub transition_id : Str
  pub task : Option TaskDto
  pub refusals : Strings

pub record EntryDto : Type 0 where
  pub case_id : Str
  pub step_id : Str
  pub input : TaskDto
  pub command : CommandDto
  pub expected : ExpectedDto
  pub actual : ActualDto
  pub matched : Bool
  pub differences : Strings

unfoldable pub format_version : Str
format_version = str "lifecycle-scenarios-json/v1"

unfoldable pub scenario_version : Str
scenario_version = str "lifecycle-scenarios/v1"

unfoldable pub task_to_dto : Task → TaskDto
unfolding decimal
task_to_dto t = record {
  id = t.id;
  state = t.state;
  revision = decimal t.revision;
  outcome = t.outcome;
  acceptance = t.acceptance;
  owner = t.owner;
}

unfoldable pub review_to_dto : Review → ReviewDto
unfolding decimal
review_to_dto r = record {
  task_id = r.task_id;
  task_revision = decimal r.task_revision;
  model_digest = r.model_digest;
  task_digest = r.task_digest;
  reviewer = r.reviewer;
  decision = r.decision;
}

-- A pointer, with what it points to converted.
unfoldable pub through {ℓ κ} : {A : Type ℓ} {B : Type κ} → (A → B) → Option A → Option B
through f none = none
through f (some a) = some (f a)

unfoldable pub command_to_dto : Command → CommandDto
unfolding decimal review_to_dto through
command_to_dto c = record {
  kind = c.kind;
  actor = c.actor;
  expected_revision = decimal c.expected_revision;
  review = through review_to_dto c.review;
}

unfoldable pub expected_to_dto : Expected → ExpectedDto
unfolding task_to_dto through
expected_to_dto e = record {
  is_ok = e.is_ok;
  transition_id = e.transition_id;
  task = through task_to_dto e.task;
  refusals = e.refusals;
}

unfoldable pub step_to_dto : Step → StepDto
unfolding command_to_dto expected_to_dto
step_to_dto s = record {
  id = s.id;
  command = command_to_dto s.command;
  expected = expected_to_dto s.expected;
}

unfoldable pub case_to_dto : Case → CaseDto
unfolding task_to_dto step_to_dto
case_to_dto c = record {
  id = c.id;
  initial = task_to_dto c.initial;
  steps = map step_to_dto c.steps;
}

-- `toDTO`.
unfoldable pub suite_to_dto : Suite → SuiteDto
unfolding format_version scenario_version case_to_dto
suite_to_dto s = record {
  format_version = format_version;
  scenario_version = scenario_version;
  profile_version = s.profile_version;
  model_digest = s.model_digest;
  id = s.id;
  cases = map case_to_dto s.cases;
}

unfoldable pub actual_to_dto : Lifecycle.Result → ActualDto
unfolding task_to_dto through
actual_to_dto r = record {
  mode = r.mode;
  authority = r.authority;
  model_digest = r.model_digest;
  is_ok = r.is_ok;
  transition_id = r.transition_id;
  task = through task_to_dto r.task;
  refusals = r.refusals;
}

unfoldable pub entry_to_dto : Entry → EntryDto
unfolding task_to_dto command_to_dto expected_to_dto actual_to_dto
entry_to_dto e = record {
  case_id = e.case_id;
  step_id = e.step_id;
  input = task_to_dto e.input;
  command = command_to_dto e.command;
  expected = expected_to_dto e.expected;
  actual = actual_to_dto e.actual;
  matched = e.matched;
  differences = e.differences;
}
