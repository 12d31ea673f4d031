-- ===== src/Scenarios/Entries/Laws.antt =====
-- What a bounded entry says of its expectation and its result.
use clanker_foundry.Prelude.{
  ℕ, ◌≡◌, refl, sym, ap, ◌∙◌, Bool, true, false, not, ◌&&◌, ◌||◌, Option, none, some, List, [], ◌∷◌,
  ◌==◌, length, arith, and_split, Bool-cases, inl, inr,
}
use clanker_foundry.Text.{Str, nonblank}
use clanker_foundry.Model.{identifier}
use clanker_foundry.Model.Equal.{bool_eq_iff}
use clanker_foundry.Lifecycle.{Task, items}
use clanker_foundry.Lifecycle.Runs.{next_task}
use clanker_foundry.Scenarios.{Expected, Entry, Binding, max_report_bytes, max_text_bytes}
use clanker_foundry.Scenarios.Budget.{
  ◌>>=◌, keep, spend, spend_reasons, spend_expected, spend_task, spend_command, is_present, is_nil,
}
use clanker_foundry.Scenarios.Compare.{expected_result}
use clanker_foundry.Scenarios.Compare.Laws.{compare-nil_iff}
use clanker_foundry.Scenarios.Entries.{is_spent, is_empty_list, spend_entry, bounded_entry}
use clanker_foundry.Scenarios.Reports.{resume}

bind-some :
    {B : Type 0} (m : Option ℕ) (f : ℕ → Option B) {b : B}
    → (m >>= f) ≡ some b
    → (n : ℕ) × (m ≡ some n) × (f n ≡ some b)
bind-some none f h = cc
bind-some (some n) f h = (n, refl, h)

keep-some : (t : Bool) (n : ℕ) {m : ℕ} → keep t n ≡ some m → t ≡ true
keep-some true n h = refl
keep-some false n h = cc

is_spent-some : (m : Option ℕ) → is_spent m ≡ true → (n : ℕ) × (m ≡ some n)
unfolding is_spent
is_spent-some none h = cc
is_spent-some (some n) h = (n, refl)

is_present-some : (o : Option Task) → is_present o ≡ true → (t : Task) × (o ≡ some t)
unfolding is_present
is_present-some none h = cc
is_present-some (some t) h = (t, refl)

pub is_empty_list-nil : (ds : List Str) → is_empty_list ds ≡ true → ds ≡ []
unfolding is_empty_list
is_empty_list-nil [] h = refl
is_empty_list-nil (d ∷ ds) h = cc

-- An expectation that passes the check and is of success has a task.
pub spend_expected_task :
    (limit : ℕ) (e : Expected) (used : ℕ) {n : ℕ}
    → spend_expected limit e used ≡ some n
    → e.is_ok ≡ true
    → (t : Task) × (e.task ≡ some t)
unfolding spend_expected
spend_expected_task limit e used h good =
    let (a, ha, h₁) = bind-some (spend limit e.transition_id max_text_bytes used) _ h in
    let (b, hb, h₂) = bind-some (keep (not (is_nil e.refusals)) a) _ h₁ in
    let (d, hd, h₃) = bind-some (spend_reasons limit e.refusals b) _ h₂ in
    let (f, hf, h₄) =
      bind-some
        (keep
          (not e.is_ok
            || is_present e.task && nonblank e.transition_id && length (items e.refusals) == 0)
          d)
        _ h₃ in
    let test =
      keep-some
        (not e.is_ok
          || is_present e.task && nonblank e.transition_id && length (items e.refusals) == 0)
        d hf in
    is_present-some e.task (ground arith)

pub bounded_entry-task :
    (e : Entry) (binding : Binding)
    → bounded_entry e binding ≡ true
    → e.expected.is_ok ≡ true
    → (t : Task) × (e.expected.task ≡ some t)
unfolding bounded_entry spend_entry
bounded_entry-task e binding h good =
    let (n, spent) = is_spent-some (spend_entry e) (and_split (is_spent (spend_entry e)) _ h).0 in
    let (a, ha, h₁) = bind-some (keep (identifier e.case_id && identifier e.step_id) 0) _ spent in
    let (b, hb, h₂) = bind-some (spend_task max_report_bytes e.input a) _ h₁ in
    let (d, hd, h₃) = bind-some (spend_command max_report_bytes e.command b) _ h₂ in
    let (f, hf, h₄) = bind-some (spend_expected max_report_bytes e.expected d) _ h₃ in
    spend_expected_task max_report_bytes e.expected d hf good

-- A bounded entry is marked as matched exactly when the result is the expected one, whole.
pub bounded_entry_matched :
    (e : Entry) (binding : Binding)
    → bounded_entry e binding ≡ true
    → e.matched ≡ true
    → e.actual ≡ expected_result e.expected binding.model_digest
unfolding bounded_entry
bounded_entry_matched e binding h m =
    let (p, q) = and_split _ _ h in
    let (u, v) = and_split _ _ q in
    let empty = sym ((bool_eq_iff e.matched _).0 v) ∙ m in
    (compare-nil_iff e.actual e.expected binding.model_digest).0 (is_empty_list-nil _ empty)

-- After a matched entry, the task that a report is checked to go on with is the task that a run
-- goes on with.
pub resume_matched :
    (e : Entry) (binding : Binding)
    → bounded_entry e binding ≡ true
    → e.matched ≡ true
    → resume e ≡ some (next_task e.input e.actual)
unfolding resume next_task expected_result
resume_matched e binding h m = elim (Bool-cases e.actual.is_ok) [
  | inr no_success ↦ rw no_success refl
  | inl success ↦
      let same = bounded_entry_matched e binding h m in
      let wanted : e.expected.is_ok ≡ true = sym (ap (λ r. r.is_ok) same) ∙ success in
      let (t, given) = bounded_entry-task e binding h wanted in
      let task : e.actual.task ≡ some t = ap (λ r. r.task) same ∙ given in rw (success, task) refl
]
