-- ===== src/Scenarios/Entries.antt =====
-- `boundedEntryFor` of scenarios/run.go and `providerResultValid` of scenarios/runner.go.
pub mod Laws
use clanker_foundry.Prelude.{
  ℕ, Bool, true, false, not, ◌&&◌, ◌||◌, Option, none, some, List, [], ◌∷◌, leb, length, all_of,
}
use clanker_foundry.Text.{Str, str, str_eq, contains}
use clanker_foundry.Model.{identifier}
use clanker_foundry.Model.Equal.{bool_eq}
use clanker_foundry.Lifecycle.{items}
use clanker_foundry.Lifecycle
use clanker_foundry.Scenarios.{
  Expected, Entry, Binding, mode, authority, max_report_bytes, max_text_bytes,
}
use clanker_foundry.Scenarios.Budget.{
  ◌>>=◌, keep, spend_all, spend_task, spend_command, spend_expected, spend_reasons, spend_optional,
  is_nil,
}
use clanker_foundry.Scenarios.Compare.{strings_eq, compare_result}

unfoldable pub is_spent : Option ℕ → Bool
is_spent none = false
is_spent (some used) = true

unfoldable pub is_empty_list : List Str → Bool
is_empty_list [] = true
is_empty_list (d ∷ ds) = false

unfoldable pub known_difference : Str → Bool
known_difference = contains (
    str "mode"
    ∷ str "authority"
    ∷ str "modelDigest"
    ∷ str "ok"
    ∷ str "transitionId"
    ∷ str "task"
    ∷ str "refusals"
    ∷ str "result"
    ∷ [])

-- What is checked of an entry before its differences are compared again.
unfoldable pub spend_entry : Entry → Option ℕ
unfolding known_difference is_nil
spend_entry e = do
  a ← keep (identifier e.case_id && identifier e.step_id) 0
  b ← spend_task max_report_bytes e.input a
  d ← spend_command max_report_bytes e.command b
  f ← spend_expected max_report_bytes e.expected d
  g ←
      spend_all max_report_bytes
        (e.actual.mode ∷ e.actual.authority ∷ e.actual.model_digest ∷ e.actual.transition_id ∷ [])
        max_text_bytes f
  h ← spend_reasons max_report_bytes e.actual.refusals g
  j ← spend_optional max_report_bytes e.actual.task h
  keep
      (not (is_nil e.differences)
        && (leb (length (items e.differences)) 8 && all_of known_difference (items e.differences)))
      j

unfoldable pub bounded_entry : Entry → Binding → Bool
unfolding is_spent is_empty_list spend_entry
bounded_entry e binding =
    let differences = compare_result e.actual e.expected binding.model_digest in
    is_spent (spend_entry e)
    && (strings_eq e.differences (some differences)
        && bool_eq e.matched (is_empty_list differences))

unfoldable pub provider_result_valid : Lifecycle.Result → Binding → Bool
unfolding is_spent
provider_result_valid r binding =
    str_eq r.mode mode
    && (str_eq r.authority authority
        && (str_eq r.model_digest binding.model_digest
            && is_spent (
                spend_expected max_report_bytes
                  (record {
                    is_ok = r.is_ok;
                    transition_id = r.transition_id;
                    task = r.task;
                    refusals = r.refusals;
                  })
                  0)))

-- The check of a result that a provider's callback returns; the reducer's own are not checked.
unfoldable pub accepted_from : Bool → Lifecycle.Result → Binding → Bool
unfolding provider_result_valid
accepted_from provider r binding = not provider || provider_result_valid r binding
