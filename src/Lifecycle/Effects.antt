-- ===== src/Lifecycle/Effects.antt =====
-- What an accepted command changes: the state along a declared edge, the revision by one, and the
-- owner only where `start` finds none.
use clanker_foundry.Prelude.{
  ℕ, ◌+◌, ◌^◌, ◌<◌, ◌≡◌, refl, ap, subst, ◌≢◌, inl, inr, true, Option, none, some, arith,
}
use clanker_foundry.Text.{Str, str, str_eq}
use clanker_foundry.Text.Laws.{str_eq_iff}
use clanker_foundry.Lifecycle.{
  Task, Command, valid_task, valid_command, known_state, valid_owner, valid_text,
}
use clanker_foundry.Lifecycle.Reducer.{
  Move, approve, prepare, request_changes, request_review, start, chosen, choose_move,
  transition_id, apply_move, increment, max_uint64, transition, owner_or,
}
use clanker_foundry.Lifecycle.Outcomes.{transition_cases}

-- The edges of the lifecycle.
abbrev pub source : Move → Str
source approve = str "InReview"
source prepare = str "Draft"
source request_changes = str "InReview"
source request_review = str "InProgress"
source start = str "Ready"

abbrev pub trigger : Move → Str
trigger approve = str "approve"
trigger prepare = str "prepare"
trigger request_changes = str "requestChanges"
trigger request_review = str "requestReview"
trigger start = str "start"

abbrev pub target : Move → Str
target approve = str "Done"
target prepare = str "Ready"
target request_changes = str "InProgress"
target request_review = str "InReview"
target start = str "InProgress"

pub choose_move-chosen :
    (state kind : Str) (move : Move)
    → choose_move state kind ≡ chosen move
    → (state ≡ source move) × (kind ≡ trigger move)
unfolding choose_move
choose_move-chosen state kind move h = ground (
  arith,
  str_eq_iff state (str "InReview"),
  str_eq_iff state (str "Draft"),
  str_eq_iff state (str "InProgress"),
  str_eq_iff state (str "Ready"),
  str_eq_iff kind (str "approve"),
  str_eq_iff kind (str "prepare"),
  str_eq_iff kind (str "requestChanges"),
  str_eq_iff kind (str "requestReview"),
  str_eq_iff kind (str "start"),
)

-- The owner that an accepted command leaves.
abbrev pub owner_after : Move → Task → Command → Option Str
owner_after start t c = owner_or t.owner c.actor
owner_after _ t c = t.owner

pub record Advances (move : Move) (t : Task) (c : Command) (t' : Task) : Type 0 where
  pub from : t.state ≡ source move
  pub by : c.kind ≡ trigger move
  pub to : t'.state ≡ target move
  pub revision : t'.revision ≡ t.revision + 1
  pub bounded : t'.revision < 2 ^ 64
  pub id : t'.id ≡ t.id
  pub outcome : t'.outcome ≡ t.outcome
  pub acceptance : t'.acceptance ≡ t.acceptance
  pub owner : t'.owner ≡ owner_after move t c

apply_move-Advances :
    (move : Move) (t : Task) (c : Command)
    → t.revision < 2 ^ 64
    → t.revision ≢ max_uint64
    → (t.state ≡ source move) × (c.kind ≡ trigger move)
    → Advances move t c (apply_move move t c)
unfolding apply_move increment
apply_move-Advances approve t c h r e = ground arith
apply_move-Advances prepare t c h r e = ground arith
apply_move-Advances request_changes t c h r e = ground arith
apply_move-Advances request_review t c h r e = ground arith
apply_move-Advances start t c h r e = ground arith

-- A valid task stays valid under another known state, another revision and another valid owner.
valid_task_with :
    (t : Task) (s : Str) (r : ℕ) (o : Option Str)
    → valid_task t ≡ true
    → known_state s ≡ true
    → valid_owner o ≡ true
    → valid_task (record t { state = s; revision = r; owner = o }) ≡ true
unfolding valid_task
valid_task_with t s r o h k l = ground arith

valid_owner_of : (t : Task) → valid_task t ≡ true → valid_owner t.owner ≡ true
unfolding valid_task
valid_owner_of t h = ground arith

valid_actor_of : (c : Command) → valid_command c ≡ true → valid_text c.actor 256 ≡ true
unfolding valid_command
valid_actor_of c h = ground arith

valid_owner_or :
    (o : Option Str) (a : Str)
    → valid_owner o ≡ true
    → valid_text a 256 ≡ true
    → valid_owner (owner_or o a) ≡ true
unfolding valid_owner
valid_owner_or none a h k = k
valid_owner_or (some o) a h k = h

apply_move-valid :
    (move : Move) (t : Task) (c : Command)
    → valid_task t ≡ true
    → valid_command c ≡ true
    → valid_task (apply_move move t c) ≡ true
unfolding apply_move known_state str_eq
apply_move-valid approve t c h k =
    valid_task_with t _ (increment t.revision) t.owner h refl (valid_owner_of t h)
apply_move-valid prepare t c h k =
    valid_task_with t _ (increment t.revision) t.owner h refl (valid_owner_of t h)
apply_move-valid request_changes t c h k =
    valid_task_with t _ (increment t.revision) t.owner h refl (valid_owner_of t h)
apply_move-valid request_review t c h k =
    valid_task_with t _ (increment t.revision) t.owner h refl (valid_owner_of t h)
apply_move-valid start t c h k =
    valid_task_with t _ (increment t.revision) (owner_or t.owner c.actor) h refl
      (valid_owner_or t.owner c.actor (valid_owner_of t h) (valid_actor_of c k))

module _ (sha256_hex : Str → Str) where
  -- An accepted command moves a task whose revision is below 2 ^ 64 along a declared edge of the
  -- lifecycle, raises its revision by one without overflow, and keeps its ID, outcome and
  -- acceptance; the owner stays too, but for `start`, which makes the actor the owner of a task
  -- that has none. The result names the transition.
  pub transition-Advances :
      (t : Task) (c : Command)
      → t.revision < 2 ^ 64
      → (transition sha256_hex t c).is_ok ≡ true
      → (move : Move) × (t' : Task) × ((transition sha256_hex t c).task ≡ some t')
        × ((transition sha256_hex t c).transition_id ≡ transition_id move)
        × Advances move t c t'
  transition-Advances t c small h = elim (transition_cases sha256_hex t c) [
    | inl r ↦ cc (r.0)
    | inr (inl (e, r)) ↦ cc (r, h)
    | inr (inr (l, r)) ↦ (
      l.move,
      apply_move l.move t c,
      ap (λ x. x.task) r,
      ap (λ x. x.transition_id) r,
      apply_move-Advances l.move t c small l.room
          (choose_move-chosen t.state c.kind l.move l.choice),
    )
  ]

  -- A task that `Transition` returns with an accepted command is valid.
  pub transition_keeps_valid :
      (t : Task) (c : Command) {t' : Task}
      → (transition sha256_hex t c).is_ok ≡ true
      → (transition sha256_hex t c).task ≡ some t'
      → valid_task t' ≡ true
  transition_keeps_valid t c {t'} h e = elim (transition_cases sha256_hex t c) [
    | inl r ↦ cc (r.0)
    | inr (inl (d, r)) ↦ cc (r, h)
    | inr (inr (l, r)) ↦
        let same : apply_move l.move t c ≡ t' = cc (ap (λ x. x.task) r, e) in
        subst (λ x. valid_task x ≡ true) same
          (apply_move-valid l.move t c l.task_valid l.command_valid)
  ]
