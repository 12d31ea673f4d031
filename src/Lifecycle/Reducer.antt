-- ===== src/Lifecycle/Reducer.antt =====
-- `TaskDigest` and `Transition` of generated/lifecycle.go.
use clanker_foundry.Prelude.{
  ℕ, ◌+◌, ◌-◌, ◌%◌, ◌^◌, Bool, true, false, not, ◌&&◌, Option, none, some, List, [], ◌∷◌, ◌++◌,
  ◌==◌, if◌then◌else◌,
}
use clanker_foundry.Text.{Str, str, str_eq}
use clanker_foundry.Lifecycle.{
  Task, Command, Result, valid_task, valid_command, envelope, refused, task_json,
}
use clanker_foundry.Lifecycle.Guards.{
  guard_acceptance, guard_actor, guard_approved, guard_changes_requested, guard_independent,
  guard_outcome, guard_owner, guard_owner_actor, guard_owner_compatible, guard_review_actor,
  guard_review_content, guard_review_model, guard_review_revision, guard_review_task,
  guard_reviewer, guard_revision,
}

-- `failed`, after a test for each of the guards.
unfoldable pub failures : List (Bool × Str) → List Str → List Str
failures [] failed = failed
failures ((passed, name) ∷ tests) failed =
    failures tests (if passed then failed else failed ++ name ∷ [])

abbrev pub max_uint64 : ℕ
max_uint64 = 2 ^ 64 - 1

-- `next.Revision++`.
unfoldable pub increment : ℕ → ℕ
increment r = (r + 1) % 2 ^ 64

-- The cases of the `switch`: the transition and its guards, in the order of the source.
pub data Move : Type 0 where
  approve prepare request_changes request_review start : Move

pub data Chosen : Type 0 where
  chosen : Move → Chosen
  illegal : Chosen

unfoldable pub choose_move : Str → Str → Chosen
choose_move state kind =
    if str_eq state (str "InReview") && str_eq kind (str "approve")
    then chosen approve
    else if str_eq state (str "Draft") && str_eq kind (str "prepare")
    then chosen prepare
    else if str_eq state (str "InReview") && str_eq kind (str "requestChanges")
    then chosen request_changes
    else if str_eq state (str "InProgress") && str_eq kind (str "requestReview")
    then chosen request_review
    else if str_eq state (str "Ready") && str_eq kind (str "start")
    then chosen start
    else illegal

unfoldable pub transition_id : Move → Str
transition_id approve = str "T_approve"
transition_id prepare = str "T_prepare"
transition_id request_changes = str "T_requestChanges"
transition_id request_review = str "T_requestReview"
transition_id start = str "T_start"

unfoldable pub guards_of : Move → Task → Command → Str → List (Bool × Str)
guards_of approve t c d =
    (guard_acceptance t c d, str "G_acceptance")
    ∷ (guard_approved t c d, str "G_approved")
    ∷ (guard_independent t c d, str "G_independent")
    ∷ (guard_outcome t c d, str "G_outcome")
    ∷ (guard_owner t c d, str "G_owner")
    ∷ (guard_review_actor t c d, str "G_reviewActor")
    ∷ (guard_review_content t c d, str "G_reviewContent")
    ∷ (guard_review_model t c d, str "G_reviewModel")
    ∷ (guard_review_revision t c d, str "G_reviewRevision")
    ∷ (guard_review_task t c d, str "G_reviewTask")
    ∷ (guard_reviewer t c d, str "G_reviewer")
    ∷ (guard_revision t c d, str "G_revision")
    ∷ []
guards_of prepare t c d =
    (guard_acceptance t c d, str "G_acceptance")
    ∷ (guard_outcome t c d, str "G_outcome")
    ∷ (guard_revision t c d, str "G_revision")
    ∷ []
guards_of request_changes t c d =
    (guard_acceptance t c d, str "G_acceptance")
    ∷ (guard_changes_requested t c d, str "G_changesRequested")
    ∷ (guard_independent t c d, str "G_independent")
    ∷ (guard_outcome t c d, str "G_outcome")
    ∷ (guard_owner t c d, str "G_owner")
    ∷ (guard_review_actor t c d, str "G_reviewActor")
    ∷ (guard_review_content t c d, str "G_reviewContent")
    ∷ (guard_review_model t c d, str "G_reviewModel")
    ∷ (guard_review_revision t c d, str "G_reviewRevision")
    ∷ (guard_review_task t c d, str "G_reviewTask")
    ∷ (guard_reviewer t c d, str "G_reviewer")
    ∷ (guard_revision t c d, str "G_revision")
    ∷ []
guards_of request_review t c d =
    (guard_acceptance t c d, str "G_acceptance")
    ∷ (guard_outcome t c d, str "G_outcome")
    ∷ (guard_owner t c d, str "G_owner")
    ∷ (guard_owner_actor t c d, str "G_ownerActor")
    ∷ (guard_revision t c d, str "G_revision")
    ∷ []
guards_of start t c d =
    (guard_acceptance t c d, str "G_acceptance")
    ∷ (guard_actor t c d, str "G_actor")
    ∷ (guard_outcome t c d, str "G_outcome")
    ∷ (guard_owner_compatible t c d, str "G_ownerCompatible")
    ∷ (guard_revision t c d, str "G_revision")
    ∷ []

abbrev pub owner_or : Option Str → Str → Option Str
owner_or none actor = some actor
owner_or (some o) actor = some o

-- The effects on a copy of the task.
unfoldable pub apply_move : Move → Task → Command → Task
unfolding increment
apply_move approve t c = record t { state = str "Done"; revision = increment t.revision }
apply_move prepare t c = record t { state = str "Ready"; revision = increment t.revision }
apply_move request_changes t c = record t {
  state = str "InProgress";
  revision = increment t.revision;
}
apply_move request_review t c = record t { state = str "InReview"; revision = increment t.revision }
apply_move start t c = record t {
  state = str "InProgress";
  revision = increment t.revision;
  owner = owner_or t.owner c.actor;
}

-- What follows the `switch`.
unfoldable pub finish : Move → List Str → Task → Command → Result
unfolding refused apply_move transition_id
finish move [] t c =
    if t.revision == max_uint64
    then refused t (transition_id move) (str "REVISION_LIMIT" ∷ [])
    else envelope true (transition_id move) (some (apply_move move t c)) (some [])
finish move (g ∷ failed) t c = refused t (transition_id move) (g ∷ failed)

module _ (sha256_hex : Str → Str) where
  -- The digest that `TaskDigest` returns for a valid task.
  unfoldable pub task_digest : Task → Option Str
  unfolding valid_task task_json
  task_digest t = if valid_task t then some (sha256_hex (task_json t)) else none

  -- `currentDigest, _ := TaskDigest(task)`.
  unfoldable pub current_digest : Task → Str
  unfolding task_digest
  current_digest t = elim (task_digest t) [ none ↦ [] | some d ↦ d ]

  unfoldable pub transition : Task → Command → Result
  unfolding choose_move failures guards_of finish refused
  transition t c =
      if not (valid_task t && valid_command c)
      then envelope false [] none (some (str "INVALID_INPUT" ∷ []))
      else elim (choose_move t.state c.kind) [
        | illegal ↦ refused t [] (str "ILLEGAL_TRANSITION" ∷ [])
        | chosen move ↦ finish move (failures (guards_of move t c (current_digest t)) []) t c
      ]
