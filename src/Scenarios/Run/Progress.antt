-- ===== src/Scenarios/Run/Progress.antt =====
-- One step of a run, and one entry of a report, as equations.
use clanker_foundry.Prelude.{
  ℕ, ◌+◌, ◌≡◌, refl, subst, Bool, true, false, not, ◌&&◌, ◌||◌, ◌∷◌, leb, ok, check-ok,
}
use clanker_foundry.Text.{Str, str_eq, contains}
use clanker_foundry.Lifecycle.{Task, Command}
use clanker_foundry.Lifecycle.Runs.{next_task}
use clanker_foundry.Lifecycle
use clanker_foundry.Scenarios.{
  Step, Entry, Binding, max_report_bytes, max_steps_per_case, max_cases,
}
use clanker_foundry.Scenarios.Entries.{bounded_entry, accepted_from}
use clanker_foundry.Text.Laws.{str_eq_refl}
use clanker_foundry.Scenarios.Compare.Laws.{task_eq_iff}
use clanker_foundry.Scenarios.Entries.Laws.{resume_matched}
use clanker_foundry.Scenarios.Reports.{
  Groups, is_task, entry_size, check_entry, follows, enter, count_entry,
}
use clanker_foundry.Scenarios.Run.{Made, Loop, entry_of, after_entry, run_step}

-- What holds of the entry of a step that a run retains.
pub record Retained (binding : Binding) (provider : Bool) (p : Made) (e : Entry) : Type 0 where
  pub bounded : bounded_entry e binding ≡ true
  pub accepted : accepted_from provider e.actual binding ≡ true
  pub fits : leb (p.size + entry_size e) max_report_bytes ≡ true

module _ (apply : ℕ → Task → Command → Lifecycle.Result) (binding : Binding) (provider : Bool)
    (digest : Str) where
  pub run_step-retains :
      (case_id : Str) (step : Step) (current : Task) (p : Made) {out : Loop}
      → run_step apply binding provider digest case_id step current p ≡ ok out
      → (e : Entry) × (e
          ≡ entry_of digest case_id current step (apply p.executed current step.command))
        × Retained binding provider p e
        × (out ≡ after_entry e p)
  unfolding run_step entry_of
  run_step-retains case_id step current p h =
      let (a, h₁) = check-ok _ _ _ h in
      let (b, h₂) = check-ok _ _ _ h₁ in
      let (d, h₃) = check-ok _ _ _ h₂ in
      (_, refl, record { bounded = b; accepted = a; fits = d }, cc h₃)

module _ (binding : Binding) (provider matched : Bool) where
  pub check_entry-ok :
      (is_last : Bool) (e : Entry) (st st' : Groups) {p : Made}
      → Retained binding provider p e
      → p.size ≡ st'.size
      → follows e st ≡ true
      → enter e.case_id st ≡ ok st'
      → leb (st'.group_steps + 1) max_steps_per_case ≡ true
      → contains st'.seen e.step_id ≡ false
      → (e.matched || not matched && is_last) ≡ true
      → check_entry binding provider matched is_last e st ≡ ok (count_entry e st')
  unfolding check_entry
  check_entry-ok is_last e st st' {p} r size f n few fresh fine =
      let fits : leb (st'.size + entry_size e) max_report_bytes ≡ true =
        subst (λ w. leb (w + entry_size e) max_report_bytes ≡ true) size r.fits in
      rw (r.bounded, r.accepted, f, n, few, fresh, fine, fits) refl

-- An entry of the case `id` that starts with `current` is checked in the state `st`, which then is `st'`.
pub record Ready (id : Str) (current : Task) (st st' : Groups) : Type 0 where
  pub goes_on : (e : Entry) → e.case_id ≡ id → e.input ≡ current → follows e st ≡ true
  pub enters : enter id st ≡ ok st'

-- The first entry of a case.
abbrev pub entered : Str → Groups → Groups
entered id st = record st {
  last_case = id;
  seen = id ∷ st.seen;
  groups = st.groups + 1;
  group_steps = 0;
}

pub first-Ready :
    (id : Str) (current : Task) (st : Groups)
    → str_eq id st.last_case ≡ false
    → contains st.seen id ≡ false
    → leb (st.groups + 1) max_cases ≡ true
    → Ready id current st (entered id st)
unfolding enter follows
first-Ready id current st other new few = record {
  goes_on = λ e h k. rw (h, other) refl;
  enters = rw (other, new, few) refl;
}

-- The entries that follow it.
pub next-Ready :
    (binding : Binding) (e : Entry) (st : Groups)
    → st.last_case ≡ e.case_id
    → bounded_entry e binding ≡ true
    → e.matched ≡ true
    → Ready e.case_id (next_task e.input e.actual) (count_entry e st) (count_entry e st)
unfolding enter follows count_entry is_task
next-Ready binding e st same bounded matched = record {
  goes_on = λ f h k.
      rw (h, same, str_eq_refl e.case_id, resume_matched e binding bounded matched, k)
        ((task_eq_iff _ _).1 refl);
  enters = rw (same, str_eq_refl e.case_id) refl;
}
