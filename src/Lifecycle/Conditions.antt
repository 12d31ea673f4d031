-- ===== src/Lifecycle/Conditions.antt =====
-- What the commands of generated/lifecycle.go need, said of the fields of task and command, and the
-- guards on the fields other than the review.
use clanker_foundry.Prelude.{
  ◌≡◌, refl, sym, ap, ◌∙◌, subst, ◌≢◌, ◌↔◌, ◌⊎◌, inl, inr, true, none, some, List, [], ◌∷◌, arith,
  length, ltb, Option-cases,
}
use clanker_foundry.Text.{Str, str}
use clanker_foundry.Lifecycle.{Task, Command, Review, items, model_digest}
use clanker_foundry.Lifecycle.Guards.{
  guard_acceptance, guard_actor, guard_outcome, guard_owner, guard_owner_actor,
  guard_owner_compatible, guard_revision,
}
use clanker_foundry.Lifecycle.Reads.{
  reads, equal_at, uint_equal_at, expected_of, IsFilled, equal_of, uint_equal_of, IsFilled-of,
  of_filled, some_same,
}
use clanker_foundry.Lifecycle.Reducer.{
  Move, approve, prepare, request_changes, request_review, start,
}

-- What every command needs: an outcome, acceptance criteria, and the revision that it was made for.
pub record IsReady (t : Task) (c : Command) : Type 0 where
  pub acceptance : items t.acceptance ≢ []
  pub outcome : IsFilled t.outcome
  pub current : c.expected_revision ≡ t.revision

-- A review with this decision, bound to the task as it is, to the model and to the actor, who is
-- not the owner; reviewer and owner have names.
pub record IsReviewed (decision : Str) (t : Task) (c : Command) (digest : Str) : Type 0 where
  pub review : Review
  pub owner : Str
  pub given : c.review ≡ some review
  pub owned : t.owner ≡ some owner
  pub owner_named : IsFilled owner
  pub reviewer_named : IsFilled review.reviewer
  pub decided : review.decision ≡ decision
  pub independent : review.reviewer ≢ owner
  pub by_actor : review.reviewer ≡ c.actor
  pub of_task : review.task_id ≡ t.id
  pub of_revision : review.task_revision ≡ t.revision
  pub of_model : review.model_digest ≡ model_digest
  pub of_content : review.task_digest ≡ digest

-- What a transition needs besides.
abbrev pub Needs : Move → Task → Command → Str → Type 0
Needs approve t c d = IsReviewed (str "approved") t c d
Needs request_changes t c d = IsReviewed (str "changesRequested") t c d
Needs prepare t c d = Unit
Needs request_review t c d = (t.owner ≡ some c.actor) × IsFilled c.actor
Needs start t c d = IsFilled c.actor × ((t.owner ≡ none) ⊎ (t.owner ≡ some c.actor))

module _ (t : Task) (c : Command) (d : Str) where
  acceptance_iff : (guard_acceptance t c d ≡ true) ↔ (items t.acceptance ≢ [])
  unfolding guard_acceptance
  acceptance_iff = (some_of (items t.acceptance), of_some (items t.acceptance))
    where
      some_of : (xs : List Str) → ltb 0 (length xs) ≡ true → xs ≢ []
      some_of xs h e = absurd (ground (arith, ap length e))

      of_some : (xs : List Str) → xs ≢ [] → ltb 0 (length xs) ≡ true
      of_some [] h = absurd (h refl)
      of_some (x ∷ xs) h = ground arith

  outcome_iff : (guard_outcome t c d ≡ true) ↔ IsFilled t.outcome
  unfolding guard_outcome
  outcome_iff = (
    λ h.
        let (x, p, f) = IsFilled-of _ h in
        subst IsFilled (some_same (sym p ∙ (reads t c d).outcome)) f,
    λ f. of_filled (reads t c d).outcome f,
  )

  pub actor_iff : (guard_actor t c d ≡ true) ↔ IsFilled c.actor
  unfolding guard_actor
  actor_iff = (
    λ h.
        let (x, p, f) = IsFilled-of _ h in
        subst IsFilled (some_same (sym p ∙ (reads t c d).actor)) f,
    λ f. of_filled (reads t c d).actor f,
  )

  current_iff : (guard_revision t c d ≡ true) ↔ (c.expected_revision ≡ t.revision)
  unfolding guard_revision
  current_iff = (
    λ h. expected_of (sym (reads t c d).revision ∙ uint_equal_at _ _ h (reads t c d).expected),
    λ e. uint_equal_of (reads t c d).revision ((reads t c d).expected ∙ ap some e),
  )

  pub owner_actor_iff : (guard_owner_actor t c d ≡ true) ↔ (t.owner ≡ some c.actor)
  unfolding guard_owner_actor
  owner_actor_iff = (
    λ h. sym (reads t c d).owner ∙ equal_at _ _ h (reads t c d).actor,
    λ e. equal_of ((reads t c d).owner ∙ e) (reads t c d).actor,
  )

  pub owner_compatible_iff :
      (guard_owner_compatible t c d ≡ true) ↔ ((t.owner ≡ none) ⊎ (t.owner ≡ some c.actor))
  unfolding guard_owner_compatible guard_owner_actor
  owner_compatible_iff = elim (Option-cases t.owner) [
    | inl e ↦ (λ h. inl e, λ h. ground (arith, (reads t c d).owner))
    | inr (o, e) ↦ (
      λ h. inr (owner_actor_iff.0 (ground (arith, (reads t c d).owner))),
      λ h. elim h [ inl n ↦ cc (n, e) | inr s ↦ ground (arith, owner_actor_iff.1 s) ],
    )
  ]

  pub ready :
      guard_acceptance t c d ≡ true
      → guard_outcome t c d ≡ true
      → guard_revision t c d ≡ true
      → IsReady t c
  ready a o e = record {
    acceptance = acceptance_iff.0 a;
    outcome = outcome_iff.0 o;
    current = current_iff.0 e;
  }

  pub ready_of :
      IsReady t c
      → (guard_acceptance t c d ≡ true)
        × (guard_outcome t c d ≡ true)
        × (guard_revision t c d ≡ true)
  ready_of p = (acceptance_iff.1 p.acceptance, outcome_iff.1 p.outcome, current_iff.1 p.current)

  pub owner_iff : {o : Str} → t.owner ≡ some o → (guard_owner t c d ≡ true) ↔ IsFilled o
  unfolding guard_owner
  owner_iff e = (
    λ h.
        let (x, p, f) = IsFilled-of _ h in
        subst IsFilled (some_same (sym p ∙ ((reads t c d).owner ∙ e))) f,
    λ f. of_filled ((reads t c d).owner ∙ e) f,
  )
