-- ===== src/Scenarios/Run.antt =====
-- `runFor` and `executeFor` of scenarios/run.go. The reducer is a parameter: what it returns may
-- depend on how many calls came before, as a provider's callback may keep a state of its own.
pub mod Cases
pub mod Encoded
pub mod Expectations
pub mod Passes
pub mod Progress
pub mod Replay
use clanker_foundry.Prelude.{
  ℕ, ◌+◌, Bool, true, false, not, ◌&&◌, ◌||◌, Option, none, some, List, [], ◌∷◌, ◌++◌, leb,
  if◌then◌else◌, length, Result, ok, err, ◌>>=◌, ◌>>◌, check,
}
use clanker_foundry.Text.{Str, str}
use clanker_foundry.Lifecycle.{Task, Command}
use clanker_foundry.Lifecycle.Runs.{next_task}
use clanker_foundry.Lifecycle
use clanker_foundry.Scenarios.{
  Step, Case, Suite, Entry, Report, Binding, ScenarioError, report_limit, provider_protocol,
  max_report_bytes,
}
use clanker_foundry.Scenarios.Compare.{compare_result}
use clanker_foundry.Scenarios.Dto.{SuiteDto}
use clanker_foundry.Scenarios.Entries.{bounded_entry, accepted_from, is_empty_list}
use clanker_foundry.Scenarios.Reports.{entry_size}
use clanker_foundry.Scenarios.Validate.{validate_for, digest_for, decode_for}

-- What the loop has so far: the entries, the completed cases and the encoded size.
pub record Made : Type 0 where
  pub entries : List Entry
  pub completed : ℕ
  pub executed : ℕ
  pub size : ℕ

unfoldable pub nothing_made : Made
nothing_made = record { entries = []; completed = 0; executed = 0; size = 4096 }

-- After a step the loop goes on with a task, or the report is complete.
pub data Loop : Type 0 where
  go_on : Task → Made → Loop
  stop : Made → Loop

-- The outcome of all cases: all matched, or a step did not.
pub data Ending : Type 0 where
  all_matched : Made → Ending
  mismatch : Made → Ending

abbrev pub made_of : Ending → Made
made_of (all_matched p) = p
made_of (mismatch p) = p

abbrev pub matched_of : Ending → Bool
matched_of (all_matched p) = true
matched_of (mismatch p) = false

abbrev pub go_with : (Task → Made → Result ScenarioError Loop) → Loop → Result ScenarioError Loop
go_with k (go_on t p) = k t p
go_with k (stop p) = ok (stop p)

-- A case is completed when all its steps matched.
abbrev pub case_done : (Made → Result ScenarioError Ending) → Loop → Result ScenarioError Ending
case_done k (go_on t p) = k (record p { completed = p.completed + 1 })
case_done k (stop p) = ok (mismatch p)

unfoldable pub entry_of : Str → Str → Task → Step → Lifecycle.Result → Entry
unfolding is_empty_list
entry_of digest case_id current step observed =
    let differences = compare_result observed step.expected digest in
    record {
      case_id = case_id;
      step_id = step.id;
      input = current;
      command = step.command;
      expected = step.expected;
      actual = observed;
      matched = is_empty_list differences;
      differences = some differences;
    }

unfoldable pub add_entry : Entry → Made → Made
unfolding entry_size
add_entry e p = record p {
  entries = p.entries ++ e ∷ [];
  executed = p.executed + 1;
  size = p.size + entry_size e;
}

unfoldable pub after_entry : Entry → Made → Loop
unfolding add_entry next_task
after_entry e p =
    if e.matched then go_on (next_task e.input e.actual) (add_entry e p) else stop (add_entry e p)

module _ (apply : ℕ → Task → Command → Lifecycle.Result) (binding : Binding) (provider : Bool) where
  module _ (digest : Str) where
    unfoldable pub run_step : Str → Step → Task → Made → Result ScenarioError Loop
    unfolding entry_of after_entry
    run_step case_id step current p = do
      let observed = apply p.executed current step.command
      check (accepted_from provider observed binding) provider_protocol
      let e = entry_of digest case_id current step observed
      check (bounded_entry e binding) report_limit
      check (leb (p.size + entry_size e) max_report_bytes) report_limit
      ok (after_entry e p)

    unfoldable pub run_steps : Str → List Step → Task → Made → Result ScenarioError Loop
    unfolding run_step
    run_steps case_id [] current p = ok (go_on current p)
    run_steps case_id (x ∷ xs) current p =
        run_step case_id x current p >>= go_with (run_steps case_id xs)

    unfoldable pub run_cases : List Case → Made → Result ScenarioError Ending
    unfolding run_steps
    run_cases [] p = ok (all_matched p)
    run_cases (c ∷ cs) p = run_steps c.id c.steps c.initial p >>= case_done (run_cases cs)

  module _ (sha256_hex : Str → Str) where
    unfoldable pub run_for : Suite → Result ScenarioError Report
    unfolding run_cases nothing_made
    run_for s = do
      validate_for s binding
      scenario_digest ← digest_for sha256_hex s binding
      end ← run_cases s.model_digest s.cases nothing_made
      ok record {
        model_digest = s.model_digest;
        scenario_digest = scenario_digest;
        source_digest = none;
        matched = matched_of end;
        cases_completed = (made_of end).completed;
        steps_executed = (made_of end).executed;
        entries = (made_of end).entries;
      }

    -- The bytes `raw` of a file, and what they decode to.
    unfoldable pub execute_for :
        (Str → Result ScenarioError SuiteDto) → Str → Result ScenarioError Report
    unfolding run_for
    execute_for strict_decode raw = do
      d ← strict_decode raw
      s ← decode_for d binding
      r ← run_for s
      ok record r { source_digest = some (sha256_hex raw) }
