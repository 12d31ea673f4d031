-- ===== src/Scenarios.antt =====
-- modeling/lifecycle/scenarios: suites of commands with literal expectations, and the reports of
-- running them. Copies of slices and pointers, which the source makes against later changes, are
-- the values themselves here.
use clanker_foundry.Prelude.{ℕ, ◌*◌, Bool, Option, List}
use clanker_foundry.Text.{Str, str}
use clanker_foundry.Lifecycle.{Task, Command, Strings}
use clanker_foundry.Lifecycle
pub mod Budget
pub mod Compare
pub mod Dto
pub mod Encoding
pub mod Entries
pub mod Validate
pub mod Parse
pub mod Received
pub mod Reports
pub mod Run
pub mod Runner

abbrev pub max_source_bytes : ℕ
max_source_bytes = 1_048_576

abbrev pub max_report_bytes : ℕ
max_report_bytes = 8_388_608

abbrev pub max_cases : ℕ
max_cases = 16

abbrev pub max_steps_per_case : ℕ
max_steps_per_case = 32

abbrev pub max_steps : ℕ
max_steps = 128

abbrev pub max_text_bytes : ℕ
max_text_bytes = 8192

abbrev pub max_items : ℕ
max_items = 64

unfoldable pub mode : Str
mode = str "example-only"

unfoldable pub authority : Str
authority = str "none"

pub data ScenarioError : Type 0 where
  invalid_scenario model_binding report_limit invalid_runner provider_protocol : ScenarioError

pub record Expected : Type 0 where
  pub is_ok : Bool
  pub transition_id : Str
  pub task : Option Task
  pub refusals : Strings

pub record Step : Type 0 where
  pub id : Str
  pub command : Command
  pub expected : Expected

pub record Case : Type 0 where
  pub id : Str
  pub initial : Task
  pub steps : List Step

pub record Suite : Type 0 where
  pub version : ℕ  -- int
  pub id : Str
  pub profile_version : Str
  pub model_digest : Str
  pub cases : List Case

pub record Entry : Type 0 where
  pub case_id : Str
  pub step_id : Str
  pub input : Task
  pub command : Command
  pub expected : Expected
  pub actual : Lifecycle.Result
  pub matched : Bool
  pub differences : Strings

pub record Report : Type 0 where
  pub model_digest : Str
  pub scenario_digest : Str
  pub source_digest : Option Str
  pub matched : Bool
  pub cases_completed : ℕ  -- int
  pub steps_executed : ℕ  -- int
  pub entries : List Entry

pub record Binding : Type 0 where
  pub profile_version : Str
  pub model_digest : Str

unfoldable pub profile_version : Str
profile_version = str "lifecycle/v1"

unfoldable pub default_binding : Binding
unfolding profile_version Lifecycle.model_digest
default_binding = record {
  profile_version = profile_version;
  model_digest = Lifecycle.model_digest;
}
