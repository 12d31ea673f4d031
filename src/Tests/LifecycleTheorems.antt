-- ===== src/Tests/LifecycleTheorems.antt =====
-- The theorems about tasks at the approval of a task in review.
use clanker_foundry.Prelude.{
  ◌++◌, ◌-◌, ◌≡◌, ◌≢◌, ◌<◌, ◌^◌, ◌+◌, ◌↔◌, ◌⊎◌, refl, true, false, ◌&&◌, none, some, List, [], ◌∷◌,
  arith,
}
use clanker_foundry.Text.{str, str_eq}
use clanker_foundry.Lifecycle.{Task, Command, items, valid_task, valid_command}
use clanker_foundry.Lifecycle.Reducer.{Move, transition, transition_id, current_digest}
use clanker_foundry.Lifecycle.Accepts.{transition-ok_iff}
use clanker_foundry.Lifecycle.Conditions.{IsReady, Needs}
use clanker_foundry.Lifecycle.Outcomes.{transition_refusal}
use clanker_foundry.Lifecycle.Effects.{
  source, trigger, Advances, transition-Advances, transition_keeps_valid,
}
use clanker_foundry.Lifecycle.Approval.{IsApproval, done_needs-IsApproval}
use clanker_foundry.Lifecycle.Runs.{
  run_commands, accepted, next_task, run-revision, run-final, run_done_approved,
}
use clanker_foundry.Tests.Tasks.{
  hash, in_review, done, approval, own_approval, approval_result, own_approval_result,
}

transition-ok_iff_example : ((transition hash in_review approval).is_ok ≡ true) ↔ (
    (valid_task in_review ≡ true)
    × (valid_command approval ≡ true)
    × (in_review.revision ≢ 2 ^ 64 - 1)
    × IsReady in_review approval
    × ((move : Move) × (in_review.state ≡ source move)
        × (approval.kind ≡ trigger move)
        × Needs move in_review approval (current_digest hash in_review)))
transition-ok_iff_example = transition-ok_iff hash in_review approval

transition_refusal_example :
    (items (transition hash in_review own_approval).refusals ≢ [])
    × (((transition hash in_review own_approval).task ≡ some in_review)
        ⊎ ((transition hash in_review own_approval).task ≡ none)
          × ((valid_task in_review && valid_command own_approval) ≡ false))
transition_refusal_example = transition_refusal hash in_review own_approval own_approval_result

transition-Advances_example :
    (move : Move) × (t' : Task) × ((transition hash in_review approval).task ≡ some t')
    × ((transition hash in_review approval).transition_id ≡ transition_id move)
    × Advances move in_review approval t'
transition-Advances_example =
    transition-Advances hash in_review approval (omega arith) (approval_result.0)

transition_keeps_valid_example : valid_task done ≡ true
transition_keeps_valid_example =
    transition_keeps_valid hash in_review approval (approval_result.0) (approval_result.1)

done_needs-IsApproval_example :
    (approval.kind ≡ str "approve") × IsApproval in_review approval (current_digest hash in_review)
done_needs-IsApproval_example =
    done_needs-IsApproval hash in_review approval (approval_result.0) (approval_result.1) refl

abbrev both : List Command
both = own_approval ∷ approval ∷ []

run-revision_example :
    ((run_commands hash in_review both).revision ≡ 3 + accepted hash in_review both)
    × ((run_commands hash in_review both).revision < 2 ^ 64)
run-revision_example = run-revision hash in_review both (omega arith)

run-final_example :
    ((run_commands hash done both).owner ≡ some (str "ann"))
    × ((run_commands hash done both).id ≡ done.id)
    × ((run_commands hash done both).outcome ≡ done.outcome)
    × ((run_commands hash done both).acceptance ≡ done.acceptance)
    × ((run_commands hash done both ≡ done) ⊎ (done.state ≢ str "Done"))
run-final_example = run-final hash done both refl (omega arith)

-- The second command makes the task Done.
both_done : (run_commands hash in_review both).state ≡ str "Done"
unfolding run_commands next_task
both_done = rw (own_approval_result, approval_result.0, approval_result.1) refl

in_review_open : in_review.state ≢ str "Done"
unfolding str_eq
in_review_open h = cc

run_done_approved_example :
    (before : List Command) × (c : Command) × (after : List Command) × (both ≡ before ++ c ∷ after)
    × (c.kind ≡ str "approve")
    × IsApproval
        (run_commands hash in_review before)
        c
        (current_digest hash (run_commands hash in_review before))
    × ((run_commands hash in_review both).owner ≡ (run_commands hash in_review before).owner)
run_done_approved_example =
    run_done_approved hash in_review both (omega arith) in_review_open both_done
