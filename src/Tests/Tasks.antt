-- ===== src/Tests/Tasks.antt =====
-- A task, its approval and the outcome of the call.
use clanker_foundry.Prelude.{ℕ, ◌≡◌, refl, true, false, Option, some, [], ◌∷◌, all_of}
use clanker_foundry.Text.{Str, str, str_eq, valid_string, nonblank}
use clanker_foundry.Lifecycle.{
  Task, Command, Review, Result, equal_string, not_equal_string, equal_uint, nonempty, ref_string,
  ref_uint, model_digest, valid_text, known_state, known_command, valid_owner, valid_review,
  valid_task, valid_command, digest_string,
}
use clanker_foundry.Lifecycle.Guards
use clanker_foundry.Lifecycle.Reducer.{transition, current_digest, task_digest}

-- A hash that tells no two texts apart.
abbrev pub hash : Str → Str
hash s = str "0123456789abcdef0123456789abcdef0123456789abcdef0123456789abcdef"

abbrev pub task_in : Str → ℕ → Option Str → Task
task_in state revision owner = record {
  id = str "T-1";
  state = state;
  revision = revision;
  outcome = str "A report";
  acceptance = some (str "It is read" ∷ []);
  owner = owner;
}

abbrev pub in_review : Task
in_review = task_in (str "InReview") 3 (some (str "ann"))

abbrev pub done : Task
done = task_in (str "Done") 4 (some (str "ann"))

abbrev pub approval : Command
approval = record {
  kind = str "approve";
  actor = str "bob";
  expected_revision = 3;
  review = some (record {
    task_id = str "T-1";
    task_revision = 3;
    model_digest = str "948630cb7857199443b59b92d9b1ab0fadf2bf7a5bf8125f7a7e767db83958ed";
    task_digest = hash [];
    reviewer = str "bob";
    decision = str "approved";
  });
}

-- The owner reviews their own work.
abbrev pub own_approval : Command
own_approval = record approval {
  actor = str "ann";
  review = some (record {
    task_id = str "T-1";
    task_revision = 3;
    model_digest = str "948630cb7857199443b59b92d9b1ab0fadf2bf7a5bf8125f7a7e767db83958ed";
    task_digest = hash [];
    reviewer = str "ann";
    decision = str "approved";
  });
}

pub approval_result :
    ((transition hash in_review approval).is_ok ≡ true)
    × ((transition hash in_review approval).task ≡ some done)
unfolding transition current_digest task_digest equal_string not_equal_string equal_uint nonempty
    ref_string ref_uint model_digest valid_text known_state known_command valid_owner valid_review
    valid_task valid_command digest_string str_eq valid_string nonblank all_of
    clanker_foundry.Lifecycle.Guards.guard_acceptance
    clanker_foundry.Lifecycle.Guards.guard_approved
    clanker_foundry.Lifecycle.Guards.guard_independent
    clanker_foundry.Lifecycle.Guards.guard_outcome clanker_foundry.Lifecycle.Guards.guard_owner
    clanker_foundry.Lifecycle.Guards.guard_review_actor
    clanker_foundry.Lifecycle.Guards.guard_review_content
    clanker_foundry.Lifecycle.Guards.guard_review_model
    clanker_foundry.Lifecycle.Guards.guard_review_revision
    clanker_foundry.Lifecycle.Guards.guard_review_task
    clanker_foundry.Lifecycle.Guards.guard_reviewer clanker_foundry.Lifecycle.Guards.guard_revision
approval_result = (refl, refl)

pub own_approval_result : (transition hash in_review own_approval).is_ok ≡ false
unfolding transition current_digest task_digest equal_string not_equal_string equal_uint nonempty
    ref_string ref_uint model_digest valid_text known_state known_command valid_owner valid_review
    valid_task valid_command digest_string str_eq valid_string nonblank all_of
    clanker_foundry.Lifecycle.Guards.guard_acceptance
    clanker_foundry.Lifecycle.Guards.guard_approved
    clanker_foundry.Lifecycle.Guards.guard_independent
    clanker_foundry.Lifecycle.Guards.guard_outcome clanker_foundry.Lifecycle.Guards.guard_owner
    clanker_foundry.Lifecycle.Guards.guard_review_actor
    clanker_foundry.Lifecycle.Guards.guard_review_content
    clanker_foundry.Lifecycle.Guards.guard_review_model
    clanker_foundry.Lifecycle.Guards.guard_review_revision
    clanker_foundry.Lifecycle.Guards.guard_review_task
    clanker_foundry.Lifecycle.Guards.guard_reviewer clanker_foundry.Lifecycle.Guards.guard_revision
own_approval_result = refl
