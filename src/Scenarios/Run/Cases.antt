-- ===== src/Scenarios/Run/Cases.antt =====
-- The cases of a run: the entries that it makes pass the check of a report.
use clanker_foundry.Prelude.{
  ℕ, ◌+◌, ◌≤◌, ◌≡◌, ◌⊎◌, refl, sym, subst, ap, ◌∙◌, Bool, true, false, List, [], ◌∷◌, ◌++◌, leb,
  length, any_of, ◌<◌, ok, arith, Bool-cases, inl, inr, length-append, bind-ok,
}
use clanker_foundry.Text.{Str, str_eq, contains}
use clanker_foundry.Text.Laws.{str_eq_refl, str_eq_iff}
use clanker_foundry.Model.{identifier}
use clanker_foundry.Lifecycle.{Task, Command}
use clanker_foundry.Lifecycle
use clanker_foundry.Scenarios.{Case, Entry, Binding, max_cases, max_steps}
use clanker_foundry.Scenarios.Reports.{Groups, check_entries, last_matched}
use clanker_foundry.Scenarios.Run.{
  Made, Loop, Ending, all_matched, mismatch, run_steps, run_cases, case_done,
}
use clanker_foundry.Scenarios.Run.Passes.{
  Moved, none-Moved, append-Moved, completed-Moved, completed-Track, last_matched-append, Track,
  Passes, Passes-append, Played, advanced, stopped,
}
use clanker_foundry.Scenarios.Run.Progress.{first-Ready, entered}
use clanker_foundry.Scenarios.Run.Replay.{start-Played, fresh_of_Track}
use clanker_foundry.Scenarios.Validate.{Scan, scan_case, scan_cases}
use clanker_foundry.Scenarios.Validate.Scans.{
  scan_case-Checked, Checked, scan_case_total, scan_steps_total, scan_cases_total,
}

-- The last case is one of those seen, or there is none.
abbrev pub Known : Groups → Type 0
Known st = (st.last_case ≡ []) ⊎ (contains st.seen st.last_case ≡ true)

-- A new case is not the last one.
new_case :
    (id : Str) (st : Groups)
    → Known st
    → identifier id ≡ true
    → contains st.seen id ≡ false
    → str_eq id st.last_case ≡ false
unfolding identifier
new_case id st known named new = elim (Bool-cases (str_eq id st.last_case)) [
  | inr other ↦ other
  | inl same ↦
      let e = (str_eq_iff id st.last_case).0 same in
      elim known [
        | inl h ↦ absurd (empty (subst (λ w. identifier w ≡ true) (e ∙ h) named))
        | inr h ↦ absurd (clash (sym new ∙ (ap (contains st.seen) e ∙ h)))
      ]
]
  where
    empty : ¬ (identifier [] ≡ true)
    empty h = cc h

    clash : ¬ (false ≡ true)
    clash h = cc

module _ (binding : Binding) (provider : Bool) where
  -- What a run of the cases made, beside the check of the entries.
  pub data Ran (p : Made) (st : Groups) (scan scan' : Scan) (cases : ℕ) (end : Ending)
      : Type 0 where
    ran_all :
        (p' : Made) (es : List Entry) (st' : Groups)
        → end ≡ all_matched p'
        → Moved p p' es
        → p'.completed ≡ p.completed + cases
        → scan.total + length es ≡ scan'.total
        → cases ≤ length es
        → Passes binding provider es st st'
        → st'.groups ≡ p'.completed
        → Ran p st scan scan' cases end
    ran_part :
        (p' : Made) (es : List Entry) (st' : Groups)
        → end ≡ mismatch p'
        → Moved p p' es
        → p'.completed < p.completed + cases
        → scan.total + length es ≤ scan'.total
        → check_entries binding provider false es st ≡ ok st'
        → last_matched es ≡ false
        → st'.groups ≡ p'.completed + 1
        → Ran p st scan scan' cases end

contains-head : (x : Str) (xs : List Str) → contains (x ∷ xs) x ≡ true
unfolding contains any_of
contains-head x xs = rw (str_eq_refl x) refl

module _ (apply : ℕ → Task → Command → Lifecycle.Result) (binding : Binding) (provider : Bool)
    (suite_id : Str) where
  pub case-Played :
      (c : Case) (p : Made) (scan scan' : Scan) (st : Groups) (out : Loop)
      → run_steps apply binding provider binding.model_digest c.id c.steps c.initial p ≡ ok out
      → Checked c scan scan'
      → Track suite_id scan p st
      → Known st
      → leb (st.groups + 1) max_cases ≡ true
      → Played binding provider suite_id c.id (st.groups + 1) (length c.steps) scan' p st out
  case-Played c p scan scan' st out run checked track known few =
      let new = fresh_of_Track suite_id c.id scan p st track checked.new in
      let ready =
        first-Ready c.id c.initial st (new_case c.id st known checked.named new) new few in
      let track' : Track suite_id checked.start p (entered c.id st) = record {
        ids = checked.ids ∙ ap (λ w. c.id ∷ w) track.ids;
        size = track.size;
      } in
      start-Played apply binding provider suite_id c.id c.steps c.initial p checked.start scan' st
        (entered c.id st) out checked.some_steps run checked.steps ready track' refl
        (contains-head c.id st.seen) (ground arith)

  none-Ran :
      (p : Made) (st : Groups) (scan : Scan)
      → st.groups ≡ p.completed
      → Ran binding provider p st scan scan 0 (all_matched p)
  none-Ran p st scan g =
      ran_all p [] st refl (none-Moved p) (omega arith) (omega arith) (omega arith) (λ m rest. refl)
        g

  -- A case before the others.
  cons-Ran :
      (p p₁ : Made) (es : List Entry) (st st₁ : Groups) (scan scan₁ scan' : Scan) (cases : ℕ)
      (end : Ending)
      → Moved p p₁ es
      → p₁.completed ≡ p.completed + 1
      → scan₁.total ≡ scan.total + length es
      → 1 ≤ length es
      → Passes binding provider es st st₁
      → Ran binding provider p₁ st₁ scan₁ scan' cases end
      → Ran binding provider p st scan scan' (cases + 1) end
  cons-Ran p p₁ es st st₁ scan scan₁ scan' cases end v d t one h
        (ran_all p' fs st' e w d' t' k h' g) =
      ran_all p' (es ++ fs) st' e (append-Moved p p₁ p' es fs v w) (omega (arith, d, d'))
        (omega (arith, t, t', length-append es fs)) (omega (arith, one, k, length-append es fs))
        (Passes-append binding provider es fs st st₁ st' h h') g
  cons-Ran p p₁ es st st₁ scan scan₁ scan' cases end v d t one h
        (ran_part p' fs st' e w d' t' k m g) =
      ran_part p' (es ++ fs) st' e (append-Moved p p₁ p' es fs v w) (omega (arith, d, d'))
        (omega (arith, t, t', length-append es fs)) (h false fs ∙ k) (last_matched-append es fs m) g

  -- A case that stops the run.
  stop-Ran :
      (p p' : Made) (es : List Entry) (st st' : Groups) (scan scan₁ scan' : Scan) (n cases : ℕ)
      (end : Ending)
      → end ≡ mismatch p'
      → Moved p p' es
      → p'.completed ≡ p.completed
      → scan₁.total ≡ scan.total + n
      → scan₁.total ≤ scan'.total
      → length es ≤ n
      → check_entries binding provider false es st ≡ ok st'
      → last_matched es ≡ false
      → st.groups ≡ p.completed
      → st'.groups ≡ st.groups + 1
      → Ran binding provider p st scan scan' (cases + 1) end
  stop-Ran p p' es st st' scan scan₁ scan' n cases end e v d t t' k h m g g' =
      ran_part p' es st' e v (omega (arith, d)) (omega (arith, t, t', k)) h m
        (omega (arith, g, g', d))

  abbrev pub Cases : List Case → Made → Ending → Type 0
  Cases cs p end = run_cases apply binding provider binding.model_digest cs p ≡ ok end

  -- What holds of the cases that follow a first one.
  abbrev Later : List Case → Type 0
  Later cs =
      (p : Made) (scan scan' : Scan) (st : Groups) (end : Ending)
      → Cases cs p end
      → scan_cases cs scan ≡ ok scan'
      → scan.total ≤ max_steps
      → Track suite_id scan p st
      → Known st
      → st.groups ≡ p.completed
      → leb (st.groups + length cs) max_cases ≡ true
      → Ran binding provider p st scan scan' (length cs) end

  case-Ran :
      (c : Case) (cs : List Case)
      → Later cs
      → (p : Made) (scan scan₁ scan' : Scan) (st : Groups) (out : Loop) (end : Ending)
      → Checked c scan scan₁
      → scan_cases cs scan₁ ≡ ok scan'
      → case_done (run_cases apply binding provider binding.model_digest cs) out ≡ ok end
      → st.groups ≡ p.completed
      → leb (st.groups + length (c ∷ cs)) max_cases ≡ true
      → Played binding provider suite_id c.id (st.groups + 1) (length c.steps) scan₁ p st out
      → Ran binding provider p st scan scan' (length cs + 1) end
  case-Ran c cs later p scan scan₁ scan' st out end checked rest done g few
        (advanced t p₁ es st₁ o v d k h track g' last seen) =
      let n = p₁.completed + 1 in
      let p₂ = record p₁ { completed = n } in
      let total = scan_case_total c scan scan₁ checked in
      let bound = scan_steps_total c.steps checked.start checked.steps in
      let run : Cases cs p₂ end =
        subst (λ w. case_done (run_cases apply binding provider binding.model_digest cs) w ≡ ok end)
          o done in
      cons-Ran p p₂ es st st₁ scan scan₁ scan' (length cs) end (completed-Moved n p p₁ es v)
        (omega (arith, d)) (omega (arith, total, k)) (ground (arith, checked.some_steps)) h
        (later p₂ scan₁ scan' st₁ end run rest (omega (arith, bound, checked.bounded))
          (completed-Track n suite_id scan₁ p₁ st₁ track)
          (inr (subst (λ w. contains st₁.seen w ≡ true) (sym last) seen)) (omega (arith, g, g', d))
          (ground arith))
  case-Ran c cs later p scan scan₁ scan' st out end checked rest done g few
        (stopped p₁ es st₁ o v d k h m g') =
      let total = scan_case_total c scan scan₁ checked in
      let bound = scan_steps_total c.steps checked.start checked.steps in
      let (grows, most) = scan_cases_total cs scan₁ rest (omega (arith, bound, checked.bounded)) in
      stop-Ran p p₁ es st st₁ scan scan₁ scan' (length c.steps) (length cs) end
        (cc (
          subst
            (λ w. case_done (run_cases apply binding provider binding.model_digest cs) w ≡ ok end) o
            done))
        v d total grows k h m g g'

  pub cases-Ran : (cs : List Case) → Later cs
  unfolding run_cases scan_cases
  cases-Ran [] p scan scan' st end run checked small track known g few =
      let e : all_matched p ≡ end = cc run in
      let same : scan ≡ scan' = cc checked in
      subst (λ w. Ran binding provider p st scan w 0 end) same
        (subst (λ w. Ran binding provider p st scan scan 0 w) e (none-Ran p st scan g))
  cases-Ran (c ∷ cs) p scan scan' st end run checked small track known g few =
      let (out, steps, done) =
        bind-ok (run_steps apply binding provider binding.model_digest c.id c.steps c.initial p) _
          run in
      let (scan₁, one, rest) = bind-ok (scan_case c scan) _ checked in
      let k = scan_case-Checked c scan one in
      subst (λ w. Ran binding provider p st scan scan' w end) (omega arith)
        (case-Ran c cs (cases-Ran cs) p scan scan₁ scan' st out end k rest done g few
          (case-Played c p scan scan₁ st out steps k track known (ground arith)))
