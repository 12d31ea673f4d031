-- ===== src/Scenarios/Parse/Roundtrip.antt =====
-- A suite is read back from its transport record.
use clanker_foundry.Prelude.{
  ◌^◌, ◌<◌, ◌≡◌, refl, sym, ap, Option, none, some, List, [], ◌∷◌, map, All, Result, ok,
}
use clanker_foundry.Text.Laws.{str_eq_refl}
use clanker_foundry.Lifecycle.{Task, Review, Command}
use clanker_foundry.Scenarios.{Expected, Step, Case, Suite, Binding, ScenarioError}
use clanker_foundry.Scenarios.Dto.{
  task_to_dto, review_to_dto, through, command_to_dto, expected_to_dto, step_to_dto, case_to_dto,
  suite_to_dto, format_version, scenario_version,
}
use clanker_foundry.Scenarios.Parse.{
  task_of_dto, review_of_dto, through_all, command_of_dto, expected_of_dto, each, step_of_dto,
  case_of_dto, suite_of_dto,
}
use clanker_foundry.Scenarios.Validate.{validate_for, decode_for}
use clanker_foundry.Scenarios.Validate.Scans.{validate_for-Valid}
use clanker_foundry.Scenarios.Parse.Decimals.{parse_decimal_lem}

-- What the 64-bit fields of a value hold.
abbrev pub TaskInRange : Task → Type 0
TaskInRange t = t.revision < 2 ^ 64

abbrev pub ReviewInRange : Review → Type 0
ReviewInRange r = r.task_revision < 2 ^ 64

abbrev pub AllOf {κ} : {A : Type 0} → (A → Type κ) → Option A → Type κ
AllOf P none = Unit
AllOf P (some a) = P a

abbrev pub CommandInRange : Command → Type 0
CommandInRange c = (c.expected_revision < 2 ^ 64) × AllOf ReviewInRange c.review

abbrev pub ExpectedInRange : Expected → Type 0
ExpectedInRange e = AllOf TaskInRange e.task

abbrev pub StepInRange : Step → Type 0
StepInRange s = CommandInRange s.command × ExpectedInRange s.expected

abbrev pub CaseInRange : Case → Type 0
CaseInRange c = TaskInRange c.initial × All StepInRange c.steps

pub task_of_to_dto : (t : Task) → TaskInRange t → task_of_dto (task_to_dto t) ≡ ok t
unfolding task_of_dto task_to_dto
task_of_to_dto t h = rw (parse_decimal_lem t.revision h) refl

review_of_to_dto : (r : Review) → ReviewInRange r → review_of_dto (review_to_dto r) ≡ ok r
unfolding review_of_dto review_to_dto
review_of_to_dto r h = rw (parse_decimal_lem r.task_revision h) refl

pub through_all_lem :
    {A B : Type 0} (P : A → Type 0) (f : A → B) (g : B → Result ScenarioError A)
    → ((a : A) → P a → g (f a) ≡ ok a)
    → (o : Option A) → AllOf P o
    → through_all g (through f o) ≡ ok o
unfolding through_all through
through_all_lem P f g back none h = refl
through_all_lem P f g back (some a) h = rw (back a h) refl

pub each_lem :
    {A B : Type 0} (P : A → Type 0) (f : A → B) (g : B → Result ScenarioError A)
    → ((a : A) → P a → g (f a) ≡ ok a)
    → (xs : List A) → All P xs
    → each g (map f xs) ≡ ok xs
unfolding each
each_lem P f g back [] h = refl
each_lem P f g back (x ∷ xs) h = rw (back x h.0, each_lem P f g back xs h.1) refl

pub command_of_to_dto : (c : Command) → CommandInRange c → command_of_dto (command_to_dto c) ≡ ok c
unfolding command_of_dto command_to_dto
command_of_to_dto c h =
    rw
      (
        parse_decimal_lem c.expected_revision h.0,
        through_all_lem ReviewInRange review_to_dto review_of_dto review_of_to_dto c.review h.1,
      )
      refl

pub expected_of_to_dto :
    (e : Expected) → ExpectedInRange e → expected_of_dto (expected_to_dto e) ≡ ok e
unfolding expected_of_dto expected_to_dto
expected_of_to_dto e h =
    rw (through_all_lem TaskInRange task_to_dto task_of_dto task_of_to_dto e.task h) refl

step_of_to_dto : (s : Step) → StepInRange s → step_of_dto (step_to_dto s) ≡ ok s
unfolding step_of_dto step_to_dto
step_of_to_dto s h = rw (command_of_to_dto s.command h.0, expected_of_to_dto s.expected h.1) refl

case_of_to_dto : (c : Case) → CaseInRange c → case_of_dto (case_to_dto c) ≡ ok c
unfolding case_of_dto case_to_dto
case_of_to_dto c h =
    rw
      (
        task_of_to_dto c.initial h.0,
        each_lem StepInRange step_to_dto step_of_dto step_of_to_dto c.steps h.1,
      )
      refl

pub suite_of_to_dto :
    (s : Suite) → s.version ≡ 1 → All CaseInRange s.cases → suite_of_dto (suite_to_dto s) ≡ ok s
unfolding suite_of_dto suite_to_dto
suite_of_to_dto s one h =
    rw
      (
        str_eq_refl format_version,
        str_eq_refl scenario_version,
        each_lem CaseInRange case_to_dto case_of_dto case_of_to_dto s.cases h,
      )
      (ap (λ n. ok (record s { version = n })) (sym one))

-- A suite that is valid for the binding, and whose revisions are 64-bit numbers, is what
-- `decodeFor` returns for the record that `encodeFor` writes of it.
pub decode-encode :
    (s : Suite) (binding : Binding)
    → validate_for s binding ≡ ok tt
    → All CaseInRange s.cases
    → decode_for (suite_to_dto s) binding ≡ ok s
unfolding decode_for
decode-encode s binding valid h =
    rw (suite_of_to_dto s (validate_for-Valid s binding valid).0.version h, valid) refl
