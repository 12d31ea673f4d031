-- ===== src/Scenarios/Run/Replay.antt =====
-- The steps of a case: what they make is what the check of a report accepts.
use clanker_foundry.Prelude.{
  ℕ, ◌+◌, ◌≡◌, refl, sym, subst, ap, ◌∙◌, Bool, true, false, not, ◌&&◌, ◌||◌, List, [], ◌∷◌, ◌++◌,
  leb, length, any_of, ok, arith, Bool-cases, inl, inr, bind-ok,
}
use clanker_foundry.Text.{Str, contains}
use clanker_foundry.Lifecycle.{Task, Command}
use clanker_foundry.Lifecycle.Runs.{next_task}
use clanker_foundry.Lifecycle
use clanker_foundry.Scenarios.{Step, Entry, Binding, max_steps_per_case}
use clanker_foundry.Scenarios.Reports.{
  Groups, entry_size, check_entry, check_entries, count_entry, last_matched,
}
use clanker_foundry.Scenarios.Run.{
  Made, Loop, go_on, stop, entry_of, add_entry, after_entry, run_step, run_steps, go_with,
}
use clanker_foundry.Scenarios.Run.Passes.{
  Track, one-Passes, Played, advanced, stopped, cons-Played, one-Moved, none-Moved,
}
use clanker_foundry.Scenarios.Run.Progress.{
  Retained, run_step-retains, check_entry-ok, Ready, next-Ready,
}
use clanker_foundry.Scenarios.Validate.{Scan, scan_step, scan_steps}
use clanker_foundry.Scenarios.Validate.Scans.{scan_step_lem}

contains_of_append :
    (xs ys : List Str) (s : Str) → contains (xs ++ ys) s ≡ false → contains xs s ≡ false
unfolding contains any_of
contains_of_append [] ys s h = refl
contains_of_append (x ∷ xs) ys s h = ground (arith, contains_of_append xs ys s)

pub contains-tail :
    (x : Str) (xs : List Str) (s : Str) → contains xs s ≡ true → contains (x ∷ xs) s ≡ true
unfolding contains any_of
contains-tail x xs s h = ground arith

-- A step is new to the report when it is new to the suite.
pub fresh_of_Track :
    (suite_id id : Str) (scan : Scan) (p : Made) (st : Groups)
    → Track suite_id scan p st
    → contains scan.ids id ≡ false
    → contains st.seen id ≡ false
fresh_of_Track suite_id id scan p st track h =
    contains_of_append st.seen (suite_id ∷ []) id (subst (λ w. contains w id ≡ false) track.ids h)

-- The state of both loops after an entry.
pub count-Track :
    (suite_id : Str) (scan scan' : Scan) (p : Made) (st : Groups) (e : Entry)
    → Track suite_id scan p st
    → scan'.ids ≡ e.step_id ∷ scan.ids
    → Track suite_id scan' (add_entry e p) (count_entry e st)
unfolding add_entry count_entry
count-Track suite_id scan scan' p st e track h = record {
  ids = h ∙ ap (λ w. e.step_id ∷ w) track.ids;
  size = ap (λ w. w + entry_size e) track.size;
}

module _ (apply : ℕ → Task → Command → Lifecycle.Result) (binding : Binding) (provider : Bool)
    (suite_id id : Str) where
  abbrev pub Steps : List Step → Task → Made → Loop → Type 0
  Steps xs current p out =
      run_steps apply binding provider binding.model_digest id xs current p ≡ ok out

  pub Steps-nil :
      (current : Task) (p : Made) {out : Loop} → Steps [] current p out → out ≡ go_on current p
  unfolding run_steps
  Steps-nil current p h = cc

  pub Steps-cons :
      (x : Step) (xs : List Step) (current : Task) (p : Made) {out : Loop}
      → Steps (x ∷ xs) current p out
      → (e : Entry) × (e
          ≡ entry_of binding.model_digest id current x (apply p.executed current x.command))
        × Retained binding provider p e
        × (go_with (run_steps apply binding provider binding.model_digest id xs) (after_entry e p)
            ≡ ok out)
  unfolding run_steps
  Steps-cons x xs current p {out} h =
      let (mid, made, rest) =
        bind-ok (run_step apply binding provider binding.model_digest id x current p) _ h in
      let (e, is, kept, o) =
        run_step-retains apply binding provider binding.model_digest id x current p made in
      (
        e,
        is,
        kept,
        subst
            (λ w. go_with (run_steps apply binding provider binding.model_digest id xs) w ≡ ok out)
            o rest,
      )

  pub after_matched :
      (e : Entry) (p : Made)
      → e.matched ≡ true
      → after_entry e p ≡ go_on (next_task e.input e.actual) (add_entry e p)
  unfolding after_entry
  after_matched e p h = rw h refl

  pub after_mismatch :
      (e : Entry) (p : Made) → e.matched ≡ false → after_entry e p ≡ stop (add_entry e p)
  unfolding after_entry
  after_mismatch e p h = rw h refl

  -- The rest of the steps, when a first one is made.
  abbrev Rest : List Step → Type 0
  Rest xs =
      (current : Task) (p : Made) (scan scan' : Scan) (st : Groups) (out : Loop)
      → Steps xs current p out
      → scan_steps xs scan ≡ ok scan'
      → Ready id current st st
      → Track suite_id scan p st
      → st.last_case ≡ id
      → contains st.seen id ≡ true
      → leb (st.group_steps + length xs) max_steps_per_case ≡ true
      → Played binding provider suite_id id st.groups (length xs) scan' p st out

  pub step-Played :
      (x : Step) (xs : List Step)
      → Rest xs
      → (current : Task) (p : Made) (scan scan' : Scan) (st st' : Groups) {out : Loop}
      → Steps (x ∷ xs) current p out
      → scan_steps (x ∷ xs) scan ≡ ok scan'
      → Ready id current st st'
      → Track suite_id scan p st'
      → st'.last_case ≡ id
      → contains st'.seen id ≡ true
      → leb (st'.group_steps + length (x ∷ xs)) max_steps_per_case ≡ true
      → Played binding provider suite_id id st'.groups (length xs + 1) scan' p st out
  unfolding scan_steps count_entry entry_of check_entries last_matched add_entry
  step-Played x xs rest current p scan scan' st st' {out} run checked ready track last seen few =
      let (scan₁, one, more) = bind-ok (scan_step x scan) _ checked in
      let (new, ids, total) = scan_step_lem x scan one in
      let (e, is, kept, after) = Steps-cons x xs current p run in
      let case_id : e.case_id ≡ id = ap (λ w. w.case_id) is in
      let step_id : e.step_id ≡ x.id = ap (λ w. w.step_id) is in
      let input : e.input ≡ current = ap (λ w. w.input) is in
      let fresh : contains st'.seen e.step_id ≡ false =
        rw step_id (fresh_of_Track suite_id x.id scan p st' track new) in
      let count : leb (st'.group_steps + 1) max_steps_per_case ≡ true = ground arith in
      let entry : (m is_last : Bool)
          → (e.matched || not m && is_last) ≡ true
          → check_entry binding provider m is_last e st ≡ ok (count_entry e st') =
        λ m is_last fine.
          check_entry-ok binding provider m is_last e st st' kept track.size
            (ready.goes_on e case_id input) (rw case_id ready.enters) count fresh fine in
      let track' = count-Track suite_id scan scan₁ p st' e track (rw step_id ids) in
      elim (Bool-cases e.matched) [
        | inl same ↦
            let st'' = count_entry e st' in
            let later =
              subst
                (λ w.
                  go_with (run_steps apply binding provider binding.model_digest id xs) w ≡ ok out)
                (after_matched e p same) after in
            let ready' =
              subst (λ w. Ready w (next_task e.input e.actual) st'' st'') case_id
                (next-Ready binding e st' (last ∙ sym case_id) kept.bounded same) in
            cons-Played binding provider suite_id id st'.groups (length xs) scan' p st st'' out e
              kept.fits
              (one-Passes binding provider e st st'' (λ m is_last. entry m is_last (rw same refl)))
              (rest (next_task e.input e.actual) (add_entry e p) scan₁ scan' st'' out later more
                ready' track' last (contains-tail e.step_id st'.seen id seen) (ground arith))
        | inr differs ↦
            let o =
              subst
                (λ w.
                  go_with (run_steps apply binding provider binding.model_digest id xs) w ≡ ok out)
                (after_mismatch e p differs) after in
            stopped (add_entry e p) (e ∷ []) (count_entry e st') (cc o) (one-Moved e p kept.fits)
              refl (omega arith) (entry false true (rw differs refl)) differs refl
      ]

  pub steps-Played : (xs : List Step) → Rest xs
  unfolding scan_steps
  steps-Played [] current p scan scan' st out run checked ready track last seen few =
      let o = Steps-nil current p run in
      let same : scan ≡ scan' = cc checked in
      advanced current p [] st o (none-Moved p) refl refl (λ m rest. refl)
        (subst (λ w. Track suite_id w p st) same track) refl last seen
  steps-Played (x ∷ xs) current p scan scan' st out run checked ready track last seen few =
      subst (λ n. Played binding provider suite_id id st.groups n scan' p st out) (omega arith)
        (step-Played x xs (steps-Played xs) current p scan scan' st st run checked ready track last
          seen few)

  -- At least one step, the first of which is in the state `st'`.
  pub start-Played :
      (xs : List Step) (current : Task) (p : Made) (scan scan' : Scan) (st st' : Groups)
      (out : Loop)
      → leb 1 (length xs) ≡ true
      → Steps xs current p out
      → scan_steps xs scan ≡ ok scan'
      → Ready id current st st'
      → Track suite_id scan p st'
      → st'.last_case ≡ id
      → contains st'.seen id ≡ true
      → leb (st'.group_steps + length xs) max_steps_per_case ≡ true
      → Played binding provider suite_id id st'.groups (length xs) scan' p st out
  start-Played [] current p scan scan' st st' out some_steps run checked ready track last seen few =
      cc some_steps
  start-Played (x ∷ xs) current p scan scan' st st' out some_steps run checked ready track last seen
        few =
      subst (λ n. Played binding provider suite_id id st'.groups n scan' p st out) (omega arith)
        (step-Played x xs (steps-Played xs) current p scan scan' st st' run checked ready track last
          seen few)
