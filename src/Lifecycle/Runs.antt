-- ===== src/Lifecycle/Runs.antt =====
-- Sequences of commands to `Transition`: a task is replaced when a command is accepted, and kept
-- otherwise, as the loop of scenarios/run.go does with a step whose result is the expected one.
use clanker_foundry.Prelude.{
  ℕ, suc, ◌+◌, ◌^◌, ◌<◌, ◌≡◌, refl, sym, ap, ◌∙◌, subst, ◌≢◌, ◌⊎◌, inl, inr, true, false, none,
  some, List, [], ◌∷◌, ◌++◌, arith, Bool-cases, if◌then◌else◌,
}
use clanker_foundry.Text.{Str, str, str_eq}
use clanker_foundry.Text.Laws.{str_eq_iff}
use clanker_foundry.Lifecycle.{Task, Command, Result}
use clanker_foundry.Lifecycle.Reducer.{
  Move, approve, prepare, request_changes, request_review, start, transition, current_digest,
  owner_or,
}
use clanker_foundry.Lifecycle.Effects.{Advances, owner_after, source, transition-Advances}
use clanker_foundry.Lifecycle.Approval.{IsApproval, done_needs-IsApproval}

-- The task after a call.
unfoldable pub next_task : Task → Result → Task
next_task t r = if r.is_ok then (elim r.task [ none ↦ t | some t' ↦ t' ]) else t

-- The count of accepted calls, which the code does not keep.
abbrev count_ok : Result → ℕ → ℕ
count_ok r n = if r.is_ok then suc n else n

module _ (sha256_hex : Str → Str) where
  -- What a caller does that goes from one accepted result to the next command.
  unfoldable pub run_commands : Task → List Command → Task
  run_commands t [] = t
  run_commands t (c ∷ cs) = run_commands (next_task t (transition sha256_hex t c)) cs

  unfoldable pub accepted : Task → List Command → ℕ
  accepted t [] = 0
  accepted t (c ∷ cs) =
      let r = transition sha256_hex t c in count_ok r (accepted (next_task t r) cs)

  accepted_refused :
      (t : Task) (c : Command) (cs : List Command)
      → (transition sha256_hex t c).is_ok ≡ false
      → accepted t (c ∷ cs) ≡ accepted (next_task t (transition sha256_hex t c)) cs
  unfolding accepted
  accepted_refused t c cs e = rw e refl

  accepted_given :
      (t : Task) (c : Command) (cs : List Command)
      → (transition sha256_hex t c).is_ok ≡ true
      → accepted t (c ∷ cs) ≡ suc (accepted (next_task t (transition sha256_hex t c)) cs)
  unfolding accepted
  accepted_given t c cs e = rw e refl

  -- One call: the task stays, or it moves along an edge.
  next_cases :
      (t : Task) (c : Command)
      → t.revision < 2 ^ 64
      → ((transition sha256_hex t c).is_ok ≡ false) × (next_task t (transition sha256_hex t c) ≡ t)
        ⊎ ((transition sha256_hex t c).is_ok ≡ true)
          × ((transition sha256_hex t c).task ≡ some (next_task t (transition sha256_hex t c)))
          × ((move : Move) × Advances move t c (next_task t (transition sha256_hex t c)))
  unfolding next_task
  next_cases t c small = elim (Bool-cases (transition sha256_hex t c).is_ok) [
    | inr e ↦ inl (e, rw e)
    | inl e ↦
        let (move, t', given, id, moved) = transition-Advances sha256_hex t c small e in
        inr (e, rw (e, given) refl, (move, rw (e, given) moved))
  ]

  accepted_start : (t : Task) → t.revision ≡ t.revision + accepted t []
  unfolding accepted
  accepted_start t = omega arith

  -- From a revision below 2 ^ 64, a run of commands raises the revision by one for each that is
  -- accepted, and it stays below 2 ^ 64.
  pub run-revision :
      (t : Task) (cs : List Command)
      → t.revision < 2 ^ 64
      → ((run_commands t cs).revision ≡ t.revision + accepted t cs)
        × ((run_commands t cs).revision < 2 ^ 64)
  unfolding run_commands
  run-revision t [] small = (accepted_start t, small)
  run-revision t (c ∷ cs) small =
      let t' = next_task t (transition sha256_hex t c) in
      elim (next_cases t c small) [
        | inl (e, same) ↦
            let kept = ap (λ u. u.revision) same in
            let (sum, bound) = run-revision t' cs (omega (arith, kept, small)) in
            (omega (arith, sum, kept, accepted_refused t c cs e), bound)
        | inr (e, given, (move, moved)) ↦
            let (sum, bound) = run-revision t' cs moved.bounded in
            (omega (arith, sum, moved.revision, accepted_given t c cs e), bound)
      ]

  done_refuses :
      (t : Task) (c : Command)
      → t.state ≡ str "Done"
      → t.revision < 2 ^ 64
      → next_task t (transition sha256_hex t c) ≡ t
  done_refuses t c done small = elim (next_cases t c small) [
    | inl (e, same) ↦ same
    | inr (e, given, (move, moved)) ↦ absurd (not_source move (sym moved.from ∙ done))
  ]
    where
      not_source : (move : Move) → source move ≢ str "Done"
      not_source approve h = cc
      not_source prepare h = cc
      not_source request_changes h = cc
      not_source request_review h = cc
      not_source start h = cc

  -- No commands change a task that is Done.
  run_of_done :
      (t : Task) (cs : List Command)
      → t.state ≡ str "Done"
      → t.revision < 2 ^ 64
      → run_commands t cs ≡ t
  unfolding run_commands
  run_of_done t [] done small = refl
  run_of_done t (c ∷ cs) done small =
      let same = done_refuses t c done small in
      ap (λ u. run_commands u cs) same ∙ run_of_done t cs done small

  owner_stays :
      (move : Move) (t : Task) (c : Command) {o : Str}
      → t.owner ≡ some o
      → owner_after move t c ≡ some o
  owner_stays approve t c h = h
  owner_stays prepare t c h = h
  owner_stays request_changes t c h = h
  owner_stays request_review t c h = h
  owner_stays start t c h = ap (λ v. owner_or v c.actor) h

  run_keeps :
      (t : Task) (cs : List Command) {o : Str}
      → t.owner ≡ some o
      → t.revision < 2 ^ 64
      → ((run_commands t cs).owner ≡ some o)
        × ((run_commands t cs).id ≡ t.id)
        × ((run_commands t cs).outcome ≡ t.outcome)
        × ((run_commands t cs).acceptance ≡ t.acceptance)
  unfolding run_commands
  run_keeps t [] owned small = (owned, refl, refl, refl)
  run_keeps t (c ∷ cs) {o} owned small =
      let t' = next_task t (transition sha256_hex t c) in
      elim (next_cases t c small) [
        | inl (e, same) ↦
            subst
              (λ u.
                ((run_commands u cs).owner ≡ some o)
                × ((run_commands u cs).id ≡ t.id)
                × ((run_commands u cs).outcome ≡ t.outcome)
                × ((run_commands u cs).acceptance ≡ t.acceptance))
              (sym same) (run_keeps t cs owned small)
        | inr (e, given, (move, moved)) ↦
            let (a, b, d, f) =
              run_keeps t' cs (moved.owner ∙ owner_stays move t c owned) moved.bounded in
            (a, b ∙ moved.id, d ∙ moved.outcome, f ∙ moved.acceptance)
      ]

  -- A run from a task that has an owner and a revision below 2 ^ 64 keeps the owner, the ID, the
  -- outcome and the acceptance criteria, and it changes nothing of a task that is Done.
  pub run-final :
      (t : Task) (cs : List Command) {o : Str}
      → t.owner ≡ some o
      → t.revision < 2 ^ 64
      → ((run_commands t cs).owner ≡ some o)
        × ((run_commands t cs).id ≡ t.id)
        × ((run_commands t cs).outcome ≡ t.outcome)
        × ((run_commands t cs).acceptance ≡ t.acceptance)
        × ((run_commands t cs ≡ t) ⊎ (t.state ≢ str "Done"))
  run-final t cs owned small =
      let (a, b, c, d) = run_keeps t cs owned small in
      let done : (run_commands t cs ≡ t) ⊎ (t.state ≢ str "Done") =
        elim (Bool-cases (str_eq t.state (str "Done"))) [
          | inl e ↦ inl (run_of_done t cs ((str_eq_iff t.state (str "Done")).0 e) small)
          | inr e ↦ inr (λ q. cc (e, (str_eq_iff t.state (str "Done")).1 q))
        ] in
      (a, b, c, d, done)

  -- If a run makes a task Done that was not and had a revision below 2 ^ 64, then the run has a
  -- command that approves the task as the commands before it have left it: with a review by the
  -- actor, who is not the owner, of that task at its revision and content and of the model; and the
  -- owner of that task stays the owner to the end.
  pub run_done_approved :
      (t : Task) (cs : List Command)
      → t.revision < 2 ^ 64
      → t.state ≢ str "Done"
      → (run_commands t cs).state ≡ str "Done"
      → (before : List Command) × (c : Command) × (after : List Command) × (cs
          ≡ before ++ c ∷ after)
        × (c.kind ≡ str "approve")
        × IsApproval (run_commands t before) c (current_digest sha256_hex (run_commands t before))
        × ((run_commands t cs).owner ≡ (run_commands t before).owner)
  unfolding run_commands
  run_done_approved t [] small open_at done = absurd (open_at done)
  run_done_approved t (c ∷ cs) small open_at done =
      let t' = next_task t (transition sha256_hex t c) in
      elim (Bool-cases (str_eq t'.state (str "Done"))) [
        | inl is_done ↦
            let reached = (str_eq_iff t'.state (str "Done")).0 is_done in
            elim (next_cases t c small) [
              | inl (e, same) ↦ absurd (open_at (ap (λ u. u.state) (sym same) ∙ reached))
              | inr (e, given, (move, moved)) ↦
                  let (kind, approval) = done_needs-IsApproval sha256_hex t c e given reached in
                  (
                    [],
                    c,
                    cs,
                    refl,
                    kind,
                    approval,
                    ap (λ v. v.owner) (run_of_done t' cs reached moved.bounded)
                        ∙ (moved.owner
                            ∙ (owner_stays move t c approval.owned ∙ sym approval.owned)),
                  )
            ]
        | inr not_done ↦
            let bounded : t'.revision < 2 ^ 64 = elim (next_cases t c small) [
              | inl (e, same) ↦ subst (λ (u : Task). u.revision < 2 ^ 64) (sym same) small
              | inr (e, given, (move, moved)) ↦ moved.bounded
            ] in
            let (before, d, after, split, kind, approval, owner) =
              run_done_approved t' cs bounded
                (λ q. cc (not_done, (str_eq_iff t'.state (str "Done")).1 q)) done in
            (c ∷ before, d, after, ap (λ l. c ∷ l) split, kind, approval, owner)
      ]
