-- ===== src/Scenarios/Runner.antt =====
-- scenarios/runner.go: a runner with a binding of its own. A nil callback is `none`.
use clanker_foundry.Prelude.{ℕ, true, ◌&&◌, Option, none, some, Result, ok, err, ◌>>=◌, ◌>>◌, check}
use clanker_foundry.Text.{Str, str_eq}
use clanker_foundry.Lifecycle.{Task, Command}
use clanker_foundry.Lifecycle
use clanker_foundry.Scenarios.{
  Suite, Report, Binding, ScenarioError, invalid_runner, profile_version,
}
use clanker_foundry.Scenarios.Budget.{hex_digest}
use clanker_foundry.Scenarios.Dto.{SuiteDto}
use clanker_foundry.Scenarios.Received.{ReportDto, decode_report}
use clanker_foundry.Scenarios.Reports.{encode_report_for}
use clanker_foundry.Scenarios.Run.{run_for, execute_for}
use clanker_foundry.Scenarios.Validate.{validate_for, encode_for, decode_for, digest_for}

abbrev pub Apply : Type 0
Apply = ℕ → Task → Command → Lifecycle.Result

pub record Runner : Type 0 where
  pub binding : Binding
  pub apply : Option Apply

unfoldable pub model_binding_of : Runner → Result ScenarioError (Binding × Apply)
model_binding_of r = elim r.apply [
  | none ↦ err invalid_runner
  | some apply ↦ do
    check (str_eq r.binding.profile_version profile_version && hex_digest r.binding.model_digest)
        invalid_runner
    ok (r.binding, apply)
]

unfoldable pub new_runner : Binding → Option Apply → Result ScenarioError Runner
unfolding model_binding_of
new_runner binding apply = do
  given ← model_binding_of (record { binding = binding; apply = apply })
  ok record { binding = binding; apply = apply }

unfoldable pub runner_validate : Runner → Suite → Result ScenarioError (Unit {0})
unfolding model_binding_of
runner_validate r s = do (binding, apply) ← model_binding_of r; validate_for s binding

unfoldable pub runner_decode : Runner → SuiteDto → Result ScenarioError Suite
unfolding model_binding_of
runner_decode r d = do (binding, apply) ← model_binding_of r; decode_for d binding

unfoldable pub runner_encode : Runner → Suite → Result ScenarioError Str
unfolding model_binding_of
runner_encode r s = do (binding, apply) ← model_binding_of r; encode_for s binding

unfoldable pub runner_digest : (Str → Str) → Runner → Suite → Result ScenarioError Str
unfolding model_binding_of
runner_digest sha256_hex r s = do
  (binding, apply) ← model_binding_of r
  digest_for sha256_hex s binding

unfoldable pub runner_run : (Str → Str) → Runner → Suite → Result ScenarioError Report
unfolding model_binding_of
runner_run sha256_hex r s = do
  (binding, apply) ← model_binding_of r
  run_for apply binding true sha256_hex s

unfoldable pub runner_execute :
    (Str → Str) → (Str → Result ScenarioError SuiteDto) → Runner → Str → Result ScenarioError Report
unfolding model_binding_of
runner_execute sha256_hex strict_decode r raw = do
  (binding, apply) ← model_binding_of r
  execute_for apply binding true sha256_hex strict_decode raw

unfoldable pub runner_encode_report : Runner → Report → Result ScenarioError Str
unfolding model_binding_of
runner_encode_report r report = do
  (binding, apply) ← model_binding_of r
  encode_report_for report binding true

-- `DecodeReport` of scenarios/report_inspection.go.
unfoldable pub runner_decode_report : Runner → ReportDto → Result ScenarioError Report
unfolding model_binding_of
runner_decode_report r d = do (binding, apply) ← model_binding_of r; decode_report d binding true
