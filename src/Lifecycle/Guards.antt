-- ===== src/Lifecycle/Guards.antt =====
-- The guard functions of generated/lifecycle.go; `d` is the digest of the current task.
use clanker_foundry.Prelude.{Bool, true, false, ◌||◌, none, some, ltb, length}
use clanker_foundry.Text.{Str, str}
use clanker_foundry.Lifecycle.{
  Task, Command, StringValue, items, ref_string, ref_uint, equal_string, not_equal_string,
  equal_uint, nonempty,
}

module _ (t : Task) (c : Command) (d : Str) where
  abbrev text_ref : Str → StringValue
  text_ref id = ref_string id t c d

  unfoldable pub guard_acceptance : Bool
  guard_acceptance = ltb 0 (length (items t.acceptance))

  unfoldable pub guard_actor : Bool
  guard_actor = nonempty (text_ref (str "command.actor"))

  unfoldable pub guard_approved : Bool
  guard_approved = equal_string (text_ref (str "review.decision")) (some (str "approved"))

  unfoldable pub guard_changes_requested : Bool
  guard_changes_requested =
      equal_string (text_ref (str "review.decision")) (some (str "changesRequested"))

  unfoldable pub guard_independent : Bool
  guard_independent =
      not_equal_string (text_ref (str "review.reviewer")) (text_ref (str "task.owner"))

  unfoldable pub guard_outcome : Bool
  guard_outcome = nonempty (text_ref (str "task.outcome"))

  unfoldable pub guard_owner : Bool
  guard_owner = nonempty (text_ref (str "task.owner"))

  unfoldable pub guard_owner_actor : Bool
  guard_owner_actor = equal_string (text_ref (str "task.owner")) (text_ref (str "command.actor"))

  abbrev is_absent : StringValue → Bool
  is_absent none = true
  is_absent (some s) = false

  unfoldable pub guard_owner_compatible : Bool
  guard_owner_compatible =
      equal_string (text_ref (str "task.owner")) (text_ref (str "command.actor"))
      || is_absent (text_ref (str "task.owner"))

  unfoldable pub guard_review_actor : Bool
  guard_review_actor =
      equal_string (text_ref (str "review.reviewer")) (text_ref (str "command.actor"))

  unfoldable pub guard_review_content : Bool
  guard_review_content =
      equal_string (text_ref (str "review.taskDigest")) (text_ref (str "task.digest"))

  unfoldable pub guard_review_model : Bool
  guard_review_model =
      equal_string (text_ref (str "review.modelDigest")) (text_ref (str "model.digest"))

  unfoldable pub guard_review_revision : Bool
  guard_review_revision =
      equal_uint (ref_uint (str "review.taskRevision") t c) (ref_uint (str "task.revision") t c)

  unfoldable pub guard_review_task : Bool
  guard_review_task = equal_string (text_ref (str "review.taskId")) (text_ref (str "task.id"))

  unfoldable pub guard_reviewer : Bool
  guard_reviewer = nonempty (text_ref (str "review.reviewer"))

  unfoldable pub guard_revision : Bool
  guard_revision =
      equal_uint (ref_uint (str "task.revision") t c)
        (ref_uint (str "command.expectedRevision") t c)
