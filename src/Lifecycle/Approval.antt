-- ===== src/Lifecycle/Approval.antt =====
-- A task becomes Done only by the approval of an independent reviewer.
use clanker_foundry.Prelude.{◌≡◌, refl, sym, ap, ◌∙◌, subst, ◌≢◌, inl, inr, true, some, All}
use clanker_foundry.Text.{Str, str}
use clanker_foundry.Lifecycle.{Task, Command, Review, model_digest}
use clanker_foundry.Lifecycle.Guards.{
  guard_approved, guard_independent, guard_review_actor, guard_review_content, guard_review_model,
  guard_review_revision, guard_review_task, guard_revision,
}
use clanker_foundry.Lifecycle.Reducer.{
  Move, approve, prepare, request_changes, request_review, start, apply_move, guards_of,
  current_digest, transition,
}
use clanker_foundry.Lifecycle.Steps.{Passed}
use clanker_foundry.Lifecycle.Outcomes.{transition_cases}
use clanker_foundry.Lifecycle.Effects.{trigger, choose_move-chosen}
use clanker_foundry.Lifecycle.Reads.{
  reads, equal_to, differs, field_of, equal_at, uint_equal_at, review_of, revision_of, expected_of,
}

-- The review that an approval rests on: it is bound to the task as it is, to the model and to the
-- actor, who is not the owner.
pub record IsApproval (t : Task) (c : Command) (digest : Str) : Type 0 where
  pub review : Review
  pub owner : Str
  pub given : c.review ≡ some review
  pub owned : t.owner ≡ some owner
  pub decision : review.decision ≡ str "approved"
  pub independent : review.reviewer ≢ owner
  pub by_actor : review.reviewer ≡ c.actor
  pub of_task : review.task_id ≡ t.id
  pub of_revision : review.task_revision ≡ t.revision
  pub of_model : review.model_digest ≡ model_digest
  pub of_content : review.task_digest ≡ digest
  pub current : c.expected_revision ≡ t.revision

-- Only `approve` leads to Done.
approve_of :
    (move : Move) (t : Task) (c : Command)
    → (apply_move move t c).state ≡ str "Done"
    → move ≡ approve
unfolding apply_move
approve_of approve t c h = refl
approve_of prepare t c h = cc
approve_of request_changes t c h = cc
approve_of request_review t c h = cc
approve_of start t c h = cc

module _ (t : Task) (c : Command) (d : Str) where
  -- The guards of `approve`, decoded.
  IsApproval-of_guards : All Passed (guards_of approve t c d) → IsApproval t c d
  unfolding guards_of guard_approved guard_independent guard_review_actor guard_review_content
      guard_review_model guard_review_revision guard_review_task guard_revision
  IsApproval-of_guards
        (
          _,
          (
            approved,
            (
              independent,
              (_, (_, (actor, (content, (model, (revision, (task, (_, (current, _))))))))),
            ),
          ),
        ) =
      let said = sym (reads t c d).decision ∙ equal_to _ (str "approved") approved in
      let (r, given, decision) = review_of (λ r. r.decision) c.review said in
      let (x, y, p, q, apart) = differs _ _ independent in
      record {
        review = r;
        owner = y;
        given = given;
        owned = sym (reads t c d).owner ∙ q;
        decision = decision;
        independent = λ e. apart (
            sym (field_of (λ v. v.reviewer) c.review r given (sym (reads t c d).reviewer ∙ p)) ∙ e);
        by_actor =
            field_of (λ v. v.reviewer) c.review r given
              (sym (reads t c d).reviewer ∙ equal_at _ _ actor (reads t c d).actor);
        of_task =
            field_of (λ v. v.task_id) c.review r given
              (sym (reads t c d).task_id ∙ equal_at _ _ task (reads t c d).id);
        of_revision =
            revision_of c.review r given (
              sym (reads t c d).review_revision
              ∙ uint_equal_at _ _ revision (reads t c d).revision);
        of_model =
            field_of (λ v. v.model_digest) c.review r given
              (sym (reads t c d).model ∙ equal_at _ _ model (reads t c d).model_own);
        of_content =
            field_of (λ v. v.task_digest) c.review r given
              (sym (reads t c d).content ∙ equal_at _ _ content (reads t c d).digest);
        current =
            expected_of
              (sym (reads t c d).revision ∙ uint_equal_at _ _ current (reads t c d).expected);
      }

module _ (sha256_hex : Str → Str) where
  -- An accepted command that makes a task Done is an approval: it carries a review that approves
  -- this very task, at its revision, its content and the model, by the acting reviewer, who is not
  -- the owner.
  pub done_needs-IsApproval :
      (t : Task) (c : Command) {t' : Task}
      → (transition sha256_hex t c).is_ok ≡ true
      → (transition sha256_hex t c).task ≡ some t'
      → t'.state ≡ str "Done"
      → (c.kind ≡ str "approve") × IsApproval t c (current_digest sha256_hex t)
  done_needs-IsApproval t c {t'} h e done = elim (transition_cases sha256_hex t c) [
    | inl r ↦ cc (r.0)
    | inr (inl (d, r)) ↦ cc (r, h)
    | inr (inr (l, r)) ↦
        let same : apply_move l.move t c ≡ t' = cc (ap (λ x. x.task) r, e) in
        let is_approve = approve_of l.move t c (ap (λ x. x.state) same ∙ done) in
        (
          (choose_move-chosen t.state c.kind l.move l.choice).1 ∙ ap trigger is_approve,
          IsApproval-of_guards t c (current_digest sha256_hex t) (
              subst (λ v. All Passed (guards_of v t c (current_digest sha256_hex t))) is_approve
                l.passed),
        )
  ]
