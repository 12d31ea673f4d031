-- ===== src/Tests/Suites.antt =====
-- A suite of one case with two steps, and its run.
use clanker_foundry.Prelude.{
  Bool, ℕ, ◌≡◌, refl, true, false, none, some, [], ◌∷◌, ◌==◌, if◌then◌else◌, all_of, any_of, ok,
}
use clanker_foundry.Text.{str, str_eq, valid_string, nonblank, contains, decimal, decimal_from}
use clanker_foundry.Model.{identifier}
use clanker_foundry.Model.Equal.{bool_eq, list_eq}
use clanker_foundry.Json.{json_string, json_strings, json_pointer, json_object, join}
use clanker_foundry.Lifecycle.{Task, Command}
use clanker_foundry.Lifecycle.Runs.{next_task}
use clanker_foundry.Lifecycle
use clanker_foundry.Scenarios.{
  Expected, Step, Case, Suite, Entry, Report, Binding, mode, authority, default_binding,
}
use clanker_foundry.Scenarios
use clanker_foundry.Scenarios.Budget.{
  spend, spend_all, spend_task, spend_command, spend_expected, spend_reasons, spend_optional,
  is_nil, is_present, hex_digest,
}
use clanker_foundry.Scenarios.Compare.{
  option_eq, strings_eq, task_eq, result_eq, note_unless, field_differences, expected_result,
  compare_result,
}
use clanker_foundry.Scenarios.Dto
use clanker_foundry.Scenarios.Encoding
use clanker_foundry.Scenarios.Entries.{
  spend_entry, bounded_entry, accepted_from, provider_result_valid,
}
use clanker_foundry.Scenarios.Reports.{entry_size}
use clanker_foundry.Scenarios.Run.{
  run_for, nothing_made, all_matched, run_cases, run_steps, run_step, entry_of, after_entry,
}
use clanker_foundry.Scenarios.Validate.{validate_for, digest_for}
use clanker_foundry.Scenarios.Validate
use clanker_foundry.Tests.Tasks.{hash, in_review, done, approval}

abbrev pub accept : Expected
accept = record {
  is_ok = true;
  transition_id = str "approve";
  task = some done;
  refusals = some [];
}

abbrev pub refuse : Expected
refuse = record {
  is_ok = false;
  transition_id = [];
  task = some done;
  refusals = some (str "UNKNOWN_TRANSITION" ∷ []);
}

-- A reducer that accepts its first call and refuses the others.
abbrev pub once : ℕ → Task → Command → Lifecycle.Result
once n t c = expected_result (if n == 0 then accept else refuse) default_binding.model_digest

abbrev pub suite : Suite
suite = record {
  version = 1;
  id = str "suite";
  profile_version = default_binding.profile_version;
  model_digest = default_binding.model_digest;
  cases =
      record {
        id = str "case";
        initial = in_review;
        steps =
            record { id = str "first"; command = approval; expected = accept }
            ∷ record { id = str "second"; command = approval; expected = refuse }
            ∷ [];
      }
      ∷ [];
}

abbrev pub report : Report
report = record {
  model_digest = default_binding.model_digest;
  scenario_digest = hash [];
  source_digest = none;
  matched = true;
  cases_completed = 1;
  steps_executed = 2;
  entries =
      record {
        case_id = str "case";
        step_id = str "first";
        input = in_review;
        command = approval;
        expected = accept;
        actual = expected_result accept default_binding.model_digest;
        matched = true;
        differences = some [];
      }
      ∷ record {
        case_id = str "case";
        step_id = str "second";
        input = done;
        command = approval;
        expected = refuse;
        actual = expected_result refuse default_binding.model_digest;
        matched = true;
        differences = some [];
      }
      ∷ [];
}

pub suite_is_valid : validate_for suite default_binding ≡ ok tt
unfolding validate_for hex_digest default_binding identifier contains spend valid_string str_eq
    spend_task spend_command spend_expected nonblank Encoding.line Encoding.suite_dto_json
    json_object Dto.suite_to_dto Encoding.json_list Encoding.case_dto_json join json_pointer
    json_string json_strings Lifecycle.model_digest all_of any_of is_nil is_present spend_all
    spend_optional spend_reasons Dto.case_to_dto Dto.command_to_dto Dto.expected_to_dto
    Dto.format_version Dto.review_to_dto Dto.scenario_version Dto.step_to_dto Dto.task_to_dto
    Dto.through Encoding.command_dto_json Encoding.content_fields Encoding.expected_dto_json
    Encoding.json_bool Encoding.json_null Encoding.json_optional Encoding.json_slice
    Encoding.review_dto_json Encoding.step_dto_json Encoding.task_dto_json Validate.scan_case
    Validate.scan_cases Validate.scan_step Validate.scan_steps Validate.suite_json Validate.take_id
    Scenarios.profile_version decimal decimal_from
suite_is_valid = refl

steps_run :
    (provider : Bool)
    → run_cases once default_binding provider default_binding.model_digest suite.cases nothing_made
      ≡ ok (
          all_matched
            (record { entries = report.entries; completed = 1; executed = 2; size = 6055 }))
unfolding run_cases run_steps run_step entry_of after_entry nothing_made bounded_entry spend_entry
    accepted_from provider_result_valid compare_result field_differences note_unless expected_result
    result_eq option_eq strings_eq task_eq bool_eq list_eq mode authority next_task entry_size
    Dto.entry_to_dto Dto.actual_to_dto Encoding.entry_dto_json Encoding.actual_dto_json hex_digest
    default_binding identifier contains spend valid_string str_eq spend_task spend_command
    spend_expected nonblank Encoding.line Encoding.suite_dto_json json_object Dto.suite_to_dto
    Encoding.json_list Encoding.case_dto_json join json_pointer json_string json_strings
    Lifecycle.model_digest all_of any_of is_nil is_present spend_all spend_optional spend_reasons
    Dto.case_to_dto Dto.command_to_dto Dto.expected_to_dto Dto.format_version Dto.review_to_dto
    Dto.scenario_version Dto.step_to_dto Dto.task_to_dto Dto.through Encoding.command_dto_json
    Encoding.content_fields Encoding.expected_dto_json Encoding.json_bool Encoding.json_null
    Encoding.json_optional Encoding.json_slice Encoding.review_dto_json Encoding.step_dto_json
    Encoding.task_dto_json Validate.scan_case Validate.scan_cases Validate.scan_step
    Validate.scan_steps Validate.suite_json Validate.take_id Scenarios.profile_version decimal
    decimal_from
steps_run true = refl
steps_run false = refl

pub suite_runs : (provider : Bool) → run_for once default_binding provider hash suite ≡ ok report
unfolding run_for digest_for
suite_runs provider = rw (suite_is_valid, steps_run provider) refl

pub default_profile : default_binding.profile_version ≡ Scenarios.profile_version
unfolding default_binding
default_profile = refl
