-- ===== src/Scenarios/Run/Expectations.antt =====
-- What the reducer of a run has to return for a suite, and when a report says that all matched.
use clanker_foundry.Prelude.{
  ℕ, ◌+◌, ◌≡◌, ◌↔◌, sym, subst, ap, ◌∙◌, Bool, true, false, List, [], ◌∷◌, length, ok, arith,
  Bool-cases, inl, inr, bind-ok,
}
use clanker_foundry.Text.{Str}
use clanker_foundry.Lifecycle.{Task, Command}
use clanker_foundry.Lifecycle.Runs.{next_task}
use clanker_foundry.Lifecycle
use clanker_foundry.Scenarios.{Step, Case, Suite, Report, Binding}
use clanker_foundry.Scenarios.Compare.{expected_result}
use clanker_foundry.Scenarios.Compare.Laws.{compare-nil_iff}
use clanker_foundry.Scenarios.Entries.{is_empty_list}
use clanker_foundry.Scenarios.Entries.Laws.{is_empty_list-nil}
use clanker_foundry.Scenarios.Run.{
  Made, Loop, go_on, stop, Ending, all_matched, mismatch, matched_of, entry_of, add_entry,
  run_steps, run_cases, go_with, case_done, run_for, nothing_made,
}
use clanker_foundry.Scenarios.Run.Replay.{Steps-nil, Steps-cons, after_matched, after_mismatch}
use clanker_foundry.Scenarios.Validate.{validate_for, digest_for}
use clanker_foundry.Scenarios.Validate.Scans.{validate_for-Valid}

module _ (apply : ℕ → Task → Command → Lifecycle.Result) (digest : Str) where
  -- From the task `t`, with `n` calls before, the reducer returns what each step expects.
  abbrev pub StepsMeet : ℕ → Task → List Step → Type 0
  StepsMeet n t [] = Unit {0}
  StepsMeet n t (x ∷ xs) =
      (apply n t x.command ≡ expected_result x.expected digest)
      × StepsMeet (n + 1) (next_task t (apply n t x.command)) xs

  -- The same for the cases, each from its initial task.
  abbrev pub CasesMeet : ℕ → List Case → Type 0
  CasesMeet n [] = Unit {0}
  CasesMeet n (c ∷ cs) = StepsMeet n c.initial c.steps × CasesMeet (n + length c.steps) cs

entry_matched_iff :
    (digest case_id : Str) (t : Task) (x : Step) (observed : Lifecycle.Result)
    → ((entry_of digest case_id t x observed).matched ≡ true)
      ↔ (observed ≡ expected_result x.expected digest)
unfolding entry_of is_empty_list
entry_matched_iff digest case_id t x observed =
    let exact = (compare-nil_iff observed x.expected digest) in
    (λ h. exact.0 (is_empty_list-nil _ h), λ h. ap is_empty_list (exact.1 h))

module _ (apply : ℕ → Task → Command → Lifecycle.Result) (binding : Binding) (provider : Bool) where
  -- A loop over steps goes on, past all of them, or stops.
  data Judged (n : ℕ) (t : Task) (xs : List Step) (out : Loop) : Type 0 where
    met :
        (t' : Task) (p : Made)
        → out ≡ go_on t' p
        → p.executed ≡ n + length xs
        → StepsMeet apply binding.model_digest n t xs
        → Judged n t xs out
    not_met :
        (p : Made)
        → out ≡ stop p
        → ¬ StepsMeet apply binding.model_digest n t xs
        → Judged n t xs out

  cons-Judged :
      (n : ℕ) (t : Task) (x : Step) (xs : List Step) (out : Loop)
      → apply n t x.command ≡ expected_result x.expected binding.model_digest
      → Judged (n + 1) (next_task t (apply n t x.command)) xs out
      → Judged n t (x ∷ xs) out
  cons-Judged n t x xs out one (met t' p o k rest) = met t' p o (omega (arith, k)) (one, rest)
  cons-Judged n t x xs out one (not_met p o fails) = not_met p o (λ h. fails h.1)

  steps-Judged :
      (id : Str) (xs : List Step) (t : Task) (p : Made) (out : Loop)
      → run_steps apply binding provider binding.model_digest id xs t p ≡ ok out
      → Judged p.executed t xs out
  unfolding add_entry entry_of
  steps-Judged id [] t p out h =
      met t p (Steps-nil apply binding provider [] id t p h) (omega arith) tt
  steps-Judged id (x ∷ xs) t p out h =
      let (e, is, kept, after) = Steps-cons apply binding provider [] id x xs t p h in
      let iff = entry_matched_iff binding.model_digest id t x (apply p.executed t x.command) in
      let rest = run_steps apply binding provider binding.model_digest id xs in
      elim (Bool-cases e.matched) [
        | inl same ↦
            let later : rest (next_task e.input e.actual) (add_entry e p) ≡ ok out =
              subst (λ w. go_with rest w ≡ ok out)
                (after_matched apply binding provider [] id e p same) after in
            let next : next_task e.input e.actual ≡ next_task t (apply p.executed t x.command) =
              ap (λ w. next_task w.input w.actual) is in
            cons-Judged p.executed t x xs out (iff.0 (sym (ap (λ w. w.matched) is) ∙ same)) (
              steps-Judged id xs (next_task t (apply p.executed t x.command)) (add_entry e p) out
                (subst (λ w. rest w (add_entry e p) ≡ ok out) next later))
        | inr differs ↦
            let o =
              subst (λ w. go_with rest w ≡ ok out)
                (after_mismatch apply binding provider [] id e p differs) after in
            not_met (add_entry e p) (sym (cc o))
              (λ h. clash (sym differs ∙ (ap (λ w. w.matched) is ∙ iff.1 h.0)))
      ]
    where
      clash : ¬ (false ≡ true)
      clash h = cc h

  abbrev Judge : List Case → Ending → Made → Type 0
  Judge cs end p =
      run_cases apply binding provider binding.model_digest cs p ≡ ok end
      → (matched_of end ≡ true) ↔ CasesMeet apply binding.model_digest p.executed cs

  case-Judged :
      (c : Case) (cs : List Case) (p : Made) (out : Loop) (end : Ending)
      → Judged p.executed c.initial c.steps out
      → case_done (run_cases apply binding provider binding.model_digest cs) out ≡ ok end
      → ((p' : Made) → Judge cs end p')
      → (matched_of end ≡ true) ↔ CasesMeet apply binding.model_digest p.executed (c ∷ cs)
  case-Judged c cs p out end (met t p₁ o k all) done later =
      let rest = run_cases apply binding provider binding.model_digest cs in
      let p₂ = record p₁ { completed = p₁.completed + 1 } in
      let iff = later p₂ (subst (λ w. case_done rest w ≡ ok end) o done) in
      let here =
        subst (λ n. (matched_of end ≡ true) ↔ CasesMeet apply binding.model_digest n cs) k iff in
      (λ h. (all, here.0 h), λ h. here.1 h.1)
  case-Judged c cs p out end (not_met p₁ o fails) done later =
      let rest = run_cases apply binding provider binding.model_digest cs in
      let e : mismatch p₁ ≡ end = cc (subst (λ w. case_done rest w ≡ ok end) o done) in
      (λ h. absurd (clash (ap (λ w. matched_of w) e ∙ h)), λ h. absurd (fails h.0))
    where
      clash : ¬ (false ≡ true)
      clash h = cc h

  cases-Judged : (cs : List Case) (p : Made) (end : Ending) → Judge cs end p
  unfolding run_cases
  cases-Judged [] p end h =
      let e : all_matched p ≡ end = cc h in (λ k. tt, λ k. ap (λ w. matched_of w) (sym e))
  cases-Judged (c ∷ cs) p end h =
      let (out, steps, done) =
        bind-ok (run_steps apply binding provider binding.model_digest c.id c.steps c.initial p) _
          h in
      case-Judged c cs p out end (steps-Judged c.id c.steps c.initial p out steps) done
        (λ p'. cases-Judged cs p' end)

  -- A run that returns a report says that all matched exactly when the reducer, called in order,
  -- returns the whole result that each step of each case expects, every case from its initial task
  -- and every step from the task of the last accepted result.
  pub run_matched_iff :
      (sha256_hex : Str → Str) (s : Suite) (r : Report)
      → run_for apply binding provider sha256_hex s ≡ ok r
      → (r.matched ≡ true) ↔ CasesMeet apply s.model_digest 0 s.cases
  unfolding run_for nothing_made
  run_matched_iff sha256_hex s r h =
      let (u, valid, h₁) = bind-ok (validate_for s binding) _ h in
      let (digest, hashed, h₂) = bind-ok (digest_for sha256_hex s binding) _ h₁ in
      let (end, ran, h₃) =
        bind-ok (run_cases apply binding provider s.model_digest s.cases nothing_made) _ h₂ in
      let (v, profile, same) = validate_for-Valid s binding valid in
      let made : matched_of end ≡ r.matched = cc h₃ in
      let iff =
        cases-Judged s.cases nothing_made end (
          subst (λ d. run_cases apply binding provider d s.cases nothing_made ≡ ok end) same ran) in
      subst (λ d. (r.matched ≡ true) ↔ CasesMeet apply d 0 s.cases) (sym same)
        (subst (λ b. (b ≡ true) ↔ CasesMeet apply binding.model_digest 0 s.cases) made iff)
