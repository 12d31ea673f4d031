-- ===== src/Lifecycle/Reviews.antt =====
-- The guards of generated/lifecycle.go on a command's review, and `IsReviewed`.
use clanker_foundry.Prelude.{◌≡◌, refl, sym, ap, ◌∙◌, subst, true, some}
use clanker_foundry.Text.{Str, str}
use clanker_foundry.Lifecycle.{Task, Command, Review, ref_string, equal_string}
use clanker_foundry.Lifecycle.Guards.{
  guard_independent, guard_owner, guard_review_actor, guard_review_content, guard_review_model,
  guard_review_revision, guard_review_task, guard_reviewer,
}
use clanker_foundry.Lifecycle.Reads.{
  reads, review_field, revision_field, equal_to, differs, field_of, equal_at, uint_equal_at,
  review_of, revision_of, IsFilled, equal_of, uint_equal_of, differs_of, IsFilled-of, of_filled,
  some_same,
}
use clanker_foundry.Lifecycle.Conditions.{IsReviewed}

module _ (t : Task) (c : Command) (d : Str) where
  -- The guards on the review and on the owner, with the decision that one of them asks for.
  abbrev pub Guarded : Str → Type 0
  Guarded w =
      (equal_string (ref_string (str "review.decision") t c d) (some w) ≡ true)
      × (guard_independent t c d ≡ true)
      × (guard_owner t c d ≡ true)
      × (guard_review_actor t c d ≡ true)
      × (guard_review_content t c d ≡ true)
      × (guard_review_model t c d ≡ true)
      × (guard_review_revision t c d ≡ true)
      × (guard_review_task t c d ≡ true)
      × (guard_reviewer t c d ≡ true)

  pub IsReviewed-of_guards : (w : Str) → Guarded w → IsReviewed w t c d
  unfolding guard_independent guard_owner guard_review_actor guard_review_content guard_review_model
      guard_review_revision guard_review_task guard_reviewer
  IsReviewed-of_guards w
        (decided, independent, owned, actor, content, model, revision, task, reviewer) =
      let v = reads t c d in
      let (r, given, decision) =
        review_of (λ r. r.decision) c.review (sym v.decision ∙ equal_to _ w decided) in
      let (x, y, p, q, apart) = differs _ _ independent in
      let (o, owner_read, owner_named) = IsFilled-of _ owned in
      let (n, name_read, named) = IsFilled-of _ reviewer in
      record {
        review = r;
        owner = o;
        given = given;
        owned = sym v.owner ∙ owner_read;
        owner_named = owner_named;
        reviewer_named =
            subst IsFilled
              (sym (field_of (λ u. u.reviewer) c.review r given (sym v.reviewer ∙ name_read)))
              named;
        decided = decision;
        independent = λ e. apart (
            sym (field_of (λ u. u.reviewer) c.review r given (sym v.reviewer ∙ p))
            ∙ (e ∙ some_same (sym owner_read ∙ q)));
        by_actor =
            field_of (λ u. u.reviewer) c.review r given
              (sym v.reviewer ∙ equal_at _ _ actor v.actor);
        of_task =
            field_of (λ u. u.task_id) c.review r given (sym v.task_id ∙ equal_at _ _ task v.id);
        of_revision =
            revision_of c.review r given
              (sym v.review_revision ∙ uint_equal_at _ _ revision v.revision);
        of_model =
            field_of (λ u. u.model_digest) c.review r given
              (sym v.model ∙ equal_at _ _ model v.model_own);
        of_content =
            field_of (λ u. u.task_digest) c.review r given
              (sym v.content ∙ equal_at _ _ content v.digest);
      }

  pub guards_of_IsReviewed : (w : Str) → IsReviewed w t c d → Guarded w
  unfolding guard_independent guard_owner guard_review_actor guard_review_content guard_review_model
      guard_review_revision guard_review_task guard_reviewer
  guards_of_IsReviewed w h =
      let v = reads t c d in
      let at : (f : Review → Str) → review_field f c.review ≡ some (f h.review) =
        (λ f. ap (review_field f) h.given) in
      let name = v.reviewer ∙ at (λ u. u.reviewer) in
      (
        equal_of (v.decision ∙ (at (λ u. u.decision) ∙ ap some h.decided)) refl,
        differs_of name (v.owner ∙ h.owned) h.independent,
        of_filled (v.owner ∙ h.owned) h.owner_named,
        equal_of (name ∙ ap some h.by_actor) v.actor,
        equal_of (v.content ∙ (at (λ u. u.task_digest) ∙ ap some h.of_content)) v.digest,
        equal_of (v.model ∙ (at (λ u. u.model_digest) ∙ ap some h.of_model)) v.model_own,
        uint_equal_of (v.review_revision ∙ (ap revision_field h.given ∙ ap some h.of_revision))
            v.revision,
        equal_of (v.task_id ∙ (at (λ u. u.task_id) ∙ ap some h.of_task)) v.id,
        of_filled name h.reviewer_named,
      )
