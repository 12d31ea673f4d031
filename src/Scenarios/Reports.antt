-- ===== src/Scenarios/Reports.antt =====
-- `encodeReportFor` of scenarios/run.go.
pub mod Sizes
use clanker_foundry.Prelude.{
  ℕ, ◌+◌, ◌-◌, Bool, true, false, not, ◌&&◌, ◌||◌, Option, none, some, List, [], ◌∷◌, ◌++◌, leb,
  ◌==◌, if◌then◌else◌, length, map, Result, ok, err, ◌>>=◌, ◌>>◌, check,
}
use clanker_foundry.Text.{Str, str, str_eq, contains, decimal}
use clanker_foundry.Json.{json_string, json_pointer, json_object}
use clanker_foundry.Lifecycle.{Task}
use clanker_foundry.Scenarios.{
  Entry, Report, Binding, ScenarioError, report_limit, mode, authority, max_report_bytes, max_cases,
  max_steps, max_steps_per_case,
}
use clanker_foundry.Scenarios.Budget.{hex_digest}
use clanker_foundry.Scenarios.Compare.{task_eq}
use clanker_foundry.Scenarios.Dto.{EntryDto, entry_to_dto, scenario_version}
use clanker_foundry.Scenarios.Encoding.{entry_dto_json, json_bool, json_list, line}
use clanker_foundry.Scenarios.Entries.{bounded_entry, accepted_from}

-- The state of the loop over the entries.
pub record Groups : Type 0 where
  pub last_case : Str
  pub seen : List Str
  pub groups : ℕ
  pub group_steps : ℕ
  pub size : ℕ
  pub prior : Option Entry

unfoldable pub no_groups : Groups
no_groups = record {
  last_case = [];
  seen = [];
  groups = 0;
  group_steps = 0;
  size = 4096;
  prior = none;
}

-- The task that the step after `prior` starts from; `none` for an accepted result with no task.
unfoldable pub resume : Entry → Option Task
resume prior = if prior.actual.is_ok then prior.actual.task else some prior.input

unfoldable pub is_task : Task → Option Task → Bool
unfolding task_eq
is_task t none = false
is_task t (some u) = task_eq t u

-- An entry of the same case goes on from the one before.
unfoldable pub follows : Entry → Groups → Bool
unfolding resume is_task
follows e st =
    if str_eq e.case_id st.last_case
    then (elim st.prior [ none ↦ true | some prior ↦ is_task e.input (resume prior) ])
    else true

-- The entry's case, which is the one before or a new one.
unfoldable pub enter : Str → Groups → Result ScenarioError Groups
enter id st = if str_eq id st.last_case then ok st else (do
  check (not (contains st.seen id)) report_limit
  check (leb (st.groups + 1) max_cases) report_limit
  ok record st { last_case = id; seen = id ∷ st.seen; groups = st.groups + 1; group_steps = 0 })

-- The bytes that an entry adds.
unfoldable pub entry_size : Entry → ℕ
entry_size e = length (line (entry_dto_json (entry_to_dto e))) + 1

-- The state after an entry.
unfoldable pub count_entry : Entry → Groups → Groups
unfolding entry_size
count_entry e st = record st {
  seen = e.step_id ∷ st.seen;
  group_steps = st.group_steps + 1;
  size = st.size + entry_size e;
  prior = some e;
}

module _ (binding : Binding) (provider matched : Bool) where
  unfoldable pub check_entry : Bool → Entry → Groups → Result ScenarioError Groups
  unfolding follows enter count_entry entry_size bounded_entry accepted_from
  check_entry is_last e st = do
    check (bounded_entry e binding && accepted_from provider e.actual binding) report_limit
    check (follows e st) report_limit
    st' ← enter e.case_id st
    check (leb (st'.group_steps + 1) max_steps_per_case) report_limit
    check (not (contains st'.seen e.step_id)) report_limit
    check (e.matched || not matched && is_last) report_limit
    check (leb (st'.size + entry_size e) max_report_bytes) report_limit
    ok (count_entry e st')

  unfoldable pub check_entries : List Entry → Groups → Result ScenarioError Groups
  unfolding check_entry
  check_entries [] st = ok st
  check_entries (e ∷ []) st = check_entry true e st
  check_entries (e ∷ f ∷ es) st = check_entry false e st >>= check_entries (f ∷ es)

unfoldable pub last_matched : List Entry → Bool
last_matched [] = true
last_matched (e ∷ []) = e.matched
last_matched (e ∷ f ∷ es) = last_matched (f ∷ es)

unfoldable pub hex_pointer : Option Str → Bool
hex_pointer none = true
hex_pointer (some s) = hex_digest s

unfoldable pub report_version : Bool → Str
report_version true = str "lifecycle-bound-scenario-report/v1"
report_version false = str "lifecycle-scenario-report/v1"

-- `identitySource` stands only in a provider's report.
unfoldable pub identity_field : Bool → List (Str × Str)
identity_field true = (str "identitySource", json_string (str "caller-supplied-go-binding")) ∷ []
identity_field false = []

report_head : Binding → Bool → List (Str × Str)
unfolding report_version
report_head binding provider =
    (str "formatVersion", json_string (report_version provider))
    ∷ (str "scenarioVersion", json_string scenario_version)
    ∷ (str "profileVersion", json_string binding.profile_version)
    ∷ []

report_tail : Report → List (Str × Str)
unfolding entry_to_dto
report_tail r =
    (str "mode", json_string mode)
    ∷ (str "authority", json_string authority)
    ∷ (str "modelDigest", json_string r.model_digest)
    ∷ (str "scenarioDigest", json_string r.scenario_digest)
    ∷ (str "sourceDigest", json_pointer r.source_digest)
    ∷ (str "matched", json_bool r.matched)
    ∷ (str "casesCompleted", decimal r.cases_completed)
    ∷ (str "stepsExecuted", decimal r.steps_executed)
    ∷ (str "entries", json_list (λ e. entry_dto_json (entry_to_dto e)) r.entries)
    ∷ []

unfoldable pub report_json : Report → Binding → Bool → Str
unfolding report_head report_tail identity_field
report_json r binding provider =
    json_object (report_head binding provider ++ (identity_field provider ++ report_tail r))

-- The checks before the loop.
unfoldable pub check_counts : Report → Binding → Bool
unfolding hex_digest hex_pointer
check_counts r binding =
    str_eq r.model_digest binding.model_digest
    && (hex_digest r.scenario_digest
        && (hex_pointer r.source_digest
            && (leb 1 (length r.entries)
                && (leb (length r.entries) max_steps
                    && (r.steps_executed == length r.entries
                        && (leb r.cases_completed max_cases
                            && (not r.matched || leb 1 r.cases_completed)))))))

-- `encodeReportFor`.
unfoldable pub encode_report_for : Report → Binding → Bool → Result ScenarioError Str
unfolding check_counts check_entries no_groups last_matched report_json
encode_report_for r binding provider = do
  check (check_counts r binding) report_limit
  st ← check_entries binding provider r.matched r.entries no_groups
  check (r.cases_completed == (if r.matched then st.groups else st.groups - 1)) report_limit
  check (r.matched || not (last_matched r.entries)) report_limit
  check (leb (length (line (report_json r binding provider))) max_report_bytes) report_limit
  ok (line (report_json r binding provider))
