-- ===== src/Scenarios/Received.antt =====
-- scenarios/report_decode.go and scenarios/report_inspection.go: the check of a decoded report.
use clanker_foundry.Prelude.{
  ℕ, ◌≡◌, refl, Bool, true, false, [], ◌&&◌, Option, List, map, All, Result, ok, err, ◌>>=◌, ◌>>◌,
  check,
}
use clanker_foundry.Text.{Str, str, str_eq}
use clanker_foundry.Text.Laws.{str_eq_refl, str_eq_iff}
use clanker_foundry.Lifecycle
use clanker_foundry.Scenarios.{
  Entry, Report, Binding, ScenarioError, report_limit, mode, authority, profile_version,
}
use clanker_foundry.Scenarios.Dto.{
  ActualDto, EntryDto, task_to_dto, actual_to_dto, entry_to_dto, scenario_version,
}
use clanker_foundry.Scenarios.Parse.{
  task_of_dto, command_of_dto, expected_of_dto, through_all, each,
}
use clanker_foundry.Scenarios.Parse.Roundtrip.{
  TaskInRange, CommandInRange, ExpectedInRange, AllOf, through_all_lem, each_lem, task_of_to_dto,
  command_of_to_dto, expected_of_to_dto,
}
use clanker_foundry.Scenarios.Reports.{report_version, encode_report_for}

-- The wire form of a report. The decoders' own type has no `identitySource`, and strictjson refuses
-- a field that the type does not have; here that is a text, empty where the field is left out.
pub record ReportDto : Type 0 where
  pub format_version : Str
  pub scenario_version : Str
  pub profile_version : Str
  pub identity_source : Str
  pub mode : Str
  pub authority : Str
  pub model_digest : Str
  pub scenario_digest : Str
  pub source_digest : Option Str
  pub matched : Bool
  pub cases_completed : ℕ  -- int
  pub steps_executed : ℕ  -- int
  pub entries : List EntryDto

-- `source`.
unfoldable pub source_text : Bool → Str
source_text true = str "caller-supplied-go-binding"
source_text false = []

-- What `encodeReportFor` writes, with or without a provider.
unfoldable pub report_to_dto : Report → Binding → Bool → ReportDto
unfolding entry_to_dto report_version source_text
report_to_dto r binding provider = record {
  format_version = report_version provider;
  scenario_version = scenario_version;
  profile_version = binding.profile_version;
  identity_source = source_text provider;
  mode = mode;
  authority = authority;
  model_digest = r.model_digest;
  scenario_digest = r.scenario_digest;
  source_digest = r.source_digest;
  matched = r.matched;
  cases_completed = r.cases_completed;
  steps_executed = r.steps_executed;
  entries = map entry_to_dto r.entries;
}

unfoldable pub actual_of_dto : ActualDto → Result ScenarioError Lifecycle.Result
unfolding through_all
actual_of_dto d = do
  task ← through_all task_of_dto d.task
  ok record {
    mode = d.mode;
    authority = d.authority;
    model_digest = d.model_digest;
    is_ok = d.is_ok;
    transition_id = d.transition_id;
    task = task;
    refusals = d.refusals;
  }

unfoldable pub entry_of_dto : EntryDto → Result ScenarioError Entry
unfolding actual_of_dto
entry_of_dto d = do
  input ← task_of_dto d.input
  command ← command_of_dto d.command
  expected ← expected_of_dto d.expected
  actual ← actual_of_dto d.actual
  ok record {
    case_id = d.case_id;
    step_id = d.step_id;
    input = input;
    command = command;
    expected = expected;
    actual = actual;
    matched = d.matched;
    differences = d.differences;
  }

-- Whatever fails, the error is that of a report.
abbrev pub as_report {ℓ} : {A : Type ℓ} → Result ScenarioError A → Result ScenarioError A
as_report (ok a) = ok a
as_report (err e) = err report_limit

-- `DecodeReport`: of the package, for its own binding and no provider, and of a runner, for the
-- runner's binding and a provider.
unfoldable pub decode_report : ReportDto → Binding → Bool → Result ScenarioError Report
unfolding report_version entry_of_dto each
decode_report d binding provider = do
  check (str_eq d.identity_source []) report_limit
  check
      (str_eq d.format_version (report_version false)
        && (str_eq d.scenario_version scenario_version
            && (str_eq d.profile_version profile_version
                && (str_eq d.mode mode && str_eq d.authority authority))))
      report_limit
  entries ← as_report (each entry_of_dto d.entries)
  let r : Report = record {
    model_digest = d.model_digest;
    scenario_digest = d.scenario_digest;
    source_digest = d.source_digest;
    matched = d.matched;
    cases_completed = d.cases_completed;
    steps_executed = d.steps_executed;
    entries = entries;
  }
  text ← as_report (encode_report_for r binding provider)
  ok r

abbrev pub EntryInRange : Entry → Type 0
EntryInRange e =
    TaskInRange e.input
    × CommandInRange e.command
    × ExpectedInRange e.expected
    × AllOf TaskInRange e.actual.task

entry_of_to_dto : (e : Entry) → EntryInRange e → entry_of_dto (entry_to_dto e) ≡ ok e
unfolding entry_of_dto entry_to_dto actual_of_dto actual_to_dto
entry_of_to_dto e (a, b, d, f) =
    rw
      (
        task_of_to_dto e.input a,
        command_of_to_dto e.command b,
        expected_of_to_dto e.expected d,
        through_all_lem TaskInRange task_to_dto task_of_dto task_of_to_dto e.actual.task f,
      )
      refl

native_decoded :
    (r : Report) (binding : Binding) (provider : Bool) {text : Str}
    → binding.profile_version ≡ profile_version
    → All EntryInRange r.entries
    → encode_report_for r binding provider ≡ ok text
    → decode_report (report_to_dto r binding false) binding provider ≡ ok r
unfolding decode_report report_to_dto source_text
native_decoded r binding provider version h encoded =
    rw
      (
        str_eq_refl [],
        str_eq_refl (report_version false),
        str_eq_refl scenario_version,
        (str_eq_iff binding.profile_version profile_version).1 version,
        str_eq_refl mode,
        str_eq_refl authority,
        each_lem EntryInRange entry_to_dto entry_of_dto entry_of_to_dto r.entries h,
        encoded,
      )
      refl

bound_refused :
    (r : Report) (binding : Binding) (provider : Bool)
    → decode_report (report_to_dto r binding true) binding provider ≡ err report_limit
unfolding decode_report report_to_dto source_text str_eq
bound_refused r binding provider = refl

-- Take a binding with the lifecycle's profile version, and a report whose revisions are 64-bit
-- numbers, and that `encodeReportFor` encodes for this binding, with or without a provider. The
-- decoder with that check returns it for the wire form that is written without a provider, and
-- refuses the wire form that is written for a provider.
pub decode_report-encode :
    (r : Report) (binding : Binding) (provider : Bool) {text : Str}
    → binding.profile_version ≡ profile_version
    → All EntryInRange r.entries
    → encode_report_for r binding provider ≡ ok text
    → (decode_report (report_to_dto r binding false) binding provider ≡ ok r)
      × (decode_report (report_to_dto r binding true) binding provider ≡ err report_limit)
decode_report-encode r binding provider version h encoded =
    (native_decoded r binding provider version h encoded, bound_refused r binding provider)
