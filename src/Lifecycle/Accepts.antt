-- ===== src/Lifecycle/Accepts.antt =====
-- When `Transition` of generated/lifecycle.go accepts a command, in terms of task and command.
use clanker_foundry.Prelude.{◌≡◌, ◌≢◌, ◌↔◌, ◌^◌, ◌-◌, true, refl, All}
use clanker_foundry.Text.{Str, str_eq, str}
use clanker_foundry.Lifecycle.{Task, Command, valid_task, valid_command}
use clanker_foundry.Lifecycle.Reducer.{
  Move, approve, prepare, request_changes, request_review, start, chosen, choose_move, transition,
  current_digest, guards_of,
}
use clanker_foundry.Lifecycle.Outcomes.{transition-ok_IsLegal}
use clanker_foundry.Lifecycle.Effects.{source, trigger, choose_move-chosen}
use clanker_foundry.Lifecycle.Conditions.{
  IsReady, Needs, actor_iff, owner_actor_iff, owner_compatible_iff, ready, ready_of, owner_iff,
}
use clanker_foundry.Lifecycle.Guards.{guard_approved, guard_changes_requested}
use clanker_foundry.Lifecycle.Steps.{Passed}
use clanker_foundry.Lifecycle.Reviews.{IsReviewed-of_guards, guards_of_IsReviewed}

module _ (t : Task) (c : Command) (d : Str) where
  -- A transition's guards hold exactly if the command meets the transition's needs.
  guards_of_iff :
      (move : Move) → All Passed (guards_of move t c d) ↔ (IsReady t c × Needs move t c d)
  unfolding guards_of guard_approved guard_changes_requested
  guards_of_iff approve = (
    λ (a, (w, (i, (o, (own, (x, (y, (m, (r, (k, (n, (e, _)))))))))))). (
      ready t c d a o e,
      IsReviewed-of_guards t c d (str "approved") (w, i, own, x, y, m, r, k, n),
    ),
    λ (p, q).
        let (w, i, own, x, y, m, r, k, n) = guards_of_IsReviewed t c d (str "approved") q in
        let (a, o, e) = ready_of t c d p in
        (a, (w, (i, (o, (own, (x, (y, (m, (r, (k, (n, (e, tt)))))))))))),
  )
  guards_of_iff request_changes = (
    λ (a, (w, (i, (o, (own, (x, (y, (m, (r, (k, (n, (e, _)))))))))))). (
      ready t c d a o e,
      IsReviewed-of_guards t c d (str "changesRequested") (w, i, own, x, y, m, r, k, n),
    ),
    λ (p, q).
        let (w, i, own, x, y, m, r, k, n) = guards_of_IsReviewed t c d (str "changesRequested") q in
        let (a, o, e) = ready_of t c d p in
        (a, (w, (i, (o, (own, (x, (y, (m, (r, (k, (n, (e, tt)))))))))))),
  )
  guards_of_iff prepare = (
    λ (a, (o, (e, _))). (ready t c d a o e, tt),
    λ (p, _). let (a, o, e) = ready_of t c d p in (a, (o, (e, tt))),
  )
  guards_of_iff request_review = (
    λ (a, (o, (w, (x, (e, _))))). (
      ready t c d a o e,
      ((owner_actor_iff t c d).0 x, (owner_iff t c d ((owner_actor_iff t c d).0 x)).0 w),
    ),
    λ (p, (x, f)).
        let (a, o, e) = ready_of t c d p in
        (a, (o, ((owner_iff t c d x).1 f, ((owner_actor_iff t c d).1 x, (e, tt))))),
  )
  guards_of_iff start = (
    λ (a, (f, (o, (w, (e, _))))).
        (ready t c d a o e, ((actor_iff t c d).0 f, (owner_compatible_iff t c d).0 w)),
    λ (p, (f, w)).
        let (a, o, e) = ready_of t c d p in
        (a, ((actor_iff t c d).1 f, (o, ((owner_compatible_iff t c d).1 w, (e, tt))))),
  )

choose_move_at :
    (move : Move) (state kind : Str)
    → state ≡ source move
    → kind ≡ trigger move
    → choose_move state kind ≡ chosen move
unfolding choose_move str_eq
choose_move_at approve state kind p q = rw (p, q) refl
choose_move_at prepare state kind p q = rw (p, q) refl
choose_move_at request_changes state kind p q = rw (p, q) refl
choose_move_at request_review state kind p q = rw (p, q) refl
choose_move_at start state kind p q = rw (p, q) refl

module _ (sha256_hex : Str → Str) where
  -- `Transition` accepts a command exactly if task and command are valid, the revision is not the
  -- greatest `uint64`, the task has an outcome, acceptance criteria and the expected revision, and
  -- for one of the five edges, the task is in its source state, the command is its trigger, and
  -- its needs are met: for approve and requestChanges a review with that decision, of this task at
  -- its revision and content and of the model, by the actor, who is named and is not the named
  -- owner; for requestReview a named actor who is the owner; for start a named actor who is the
  -- owner if there is one; for prepare nothing more.
  pub transition-ok_iff :
      (t : Task) (c : Command)
      → ((transition sha256_hex t c).is_ok ≡ true) ↔ (
          (valid_task t ≡ true)
          × (valid_command c ≡ true)
          × (t.revision ≢ 2 ^ 64 - 1)
          × IsReady t c
          × ((move : Move) × (t.state ≡ source move)
              × (c.kind ≡ trigger move)
              × Needs move t c (current_digest sha256_hex t)))
  transition-ok_iff t c =
      let d = current_digest sha256_hex t in
      let (to, of) = transition-ok_IsLegal sha256_hex t c in
      (
        λ h.
            let l = to h in
            let (from, by) = choose_move-chosen t.state c.kind l.move l.choice in
            let (is_ready, needs) = (guards_of_iff t c d l.move).0 l.passed in
            (l.task_valid, l.command_valid, l.room, is_ready, (l.move, from, by, needs)),
        λ (task_valid, command_valid, room, is_ready, (move, from, by, needs)). of (record {
          task_valid = task_valid;
          command_valid = command_valid;
          move = move;
          choice = choose_move_at move t.state c.kind from by;
          passed = (guards_of_iff t c d move).1 (is_ready, needs);
          room = room;
        }),
      )
