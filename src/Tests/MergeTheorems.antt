-- ===== src/Tests/MergeTheorems.antt =====
-- The theorems about merges at variants of the small model.
use clanker_foundry.Prelude.{
  ◌≡◌, ◌≢◌, ◌↔◌, refl, sym, ◌∙◌, true, false, none, some, Bool, List, [], ◌∷◌, ok, Memᴰ,
}
use clanker_foundry.Text.{str, str_eq, str_ltb}
use clanker_foundry.Model.{State, Model}
use clanker_foundry.Model.Validate.{validate}
use clanker_foundry.Model.Normalize.{normalize, reorder}
use clanker_foundry.Model.Equal.{state_eq, state_eq_iff}
use clanker_foundry.Canonical.{digest, canonical_bytes}
use clanker_foundry.Merge.{
  Merge, Conflict, choose, lookup, records, merge, prepare, merge_result, merged, reason_of,
}
use clanker_foundry.Merge.Records.{records-lookup}
use clanker_foundry.Merge.Conflicts.{conflicts_iff, AtOdds, IsReason}
use clanker_foundry.Merge.Swap.{swap_sides, map_ok, merge_swap}
use clanker_foundry.Merge.Outcomes.{IsSound, merge-IsSound}
use clanker_foundry.Merge.Unchanged.{merge_kept}
use clanker_foundry.Tests.Models.{small, state_of}
use clanker_foundry.Tests.ModelTheorems.{sorted_small}
use clanker_foundry.Tests.Tasks.{hash}

abbrev pub every : Model → Bool
every m = true

abbrev pub relabelled : State
relabelled = record { id = str "Draft"; label = str "Planned"; terminal = false }

abbrev other : State
other = record { id = str "Draft"; label = str "Sketch"; terminal = false }

-- The small model with another label for one state.
abbrev pub right : Model
right = record sorted_small {
  states = state_of "Done" true ∷ relabelled ∷ state_of "Ready" false ∷ [];
}

base_prepared : prepare hash every small ≡ ok (sorted_small, hash [])
unfolding prepare digest canonical_bytes normalize validate str_eq str_ltb reorder
base_prepared = refl

left_prepared : prepare hash every sorted_small ≡ ok (sorted_small, hash [])
unfolding prepare digest canonical_bytes normalize validate str_eq str_ltb reorder
left_prepared = refl

right_prepared : prepare hash every right ≡ ok (right, hash [])
unfolding prepare digest canonical_bytes normalize validate str_eq str_ltb reorder
right_prepared = refl

abbrev kept : Merge
kept = merge_result (hash []) (hash []) (hash []) merged (some (hash [])) (some right) []

merge_kept_example : merge hash every small sorted_small right ≡ ok kept
merge_kept_example =
    merge_kept hash every small sorted_small right base_prepared left_prepared right_prepared

merge-IsSound_example : IsSound hash every kept
merge-IsSound_example =
    merge-IsSound hash every small sorted_small right kept
      (merge_kept hash every small sorted_small right base_prepared left_prepared right_prepared)

merge_swap_example :
    merge hash every small right sorted_small
    ≡ map_ok swap_sides (merge hash every small sorted_small right)
merge_swap_example = merge_swap hash every small sorted_small right

abbrev base_states : List State
base_states = state_of "Done" true ∷ state_of "Draft" false ∷ []

abbrev left_states : List State
left_states = state_of "Done" true ∷ other ∷ []

abbrev right_states : List State
right_states = relabelled ∷ []

abbrev change : Conflict
change = record { kind = str "state"; id = str "Draft"; field = []; reason = str "change-change" }

conflicts_iff_example :
    Memᴰ change (records state_eq (λ s. s.id) (str "state") base_states left_states right_states).1
    ↔ ((change.kind ≡ str "state")
        × (change.field ≡ [])
        × AtOdds
            (lookup (λ s. s.id) base_states change.id)
            (lookup (λ s. s.id) left_states change.id)
            (lookup (λ s. s.id) right_states change.id)
        × IsReason
            (lookup (λ s. s.id) base_states change.id)
            (lookup (λ s. s.id) left_states change.id)
            (lookup (λ s. s.id) right_states change.id)
            change.reason)
conflicts_iff_example =
    conflicts_iff state_eq state_eq_iff (λ s. s.id) (str "state") base_states left_states
      right_states change

absurd_none : {A : Type 0} {a : A} → some a ≢ none
absurd_none h = cc

-- The left side keeps the terminal state and the right side removes it.
done_removed :
    choose state_eq
      (lookup (λ s. s.id) base_states (str "Done"))
      (lookup (λ s. s.id) left_states (str "Done"))
      (lookup (λ s. s.id) right_states (str "Done"))
    ≡ some none
unfolding choose lookup state_eq str_eq clanker_foundry.Merge.is_present
done_removed = refl

records-lookup_example :
    choose state_eq
      (lookup (λ s. s.id) base_states (str "Done"))
      (lookup (λ s. s.id) left_states (str "Done"))
      (lookup (λ s. s.id) right_states (str "Done"))
    ≡ some (
        lookup
          (λ s. s.id)
          (records state_eq (λ s. s.id) (str "state") base_states left_states right_states).0
          (str "Done"))
records-lookup_example =
    records-lookup state_eq state_eq_iff (λ s. s.id) (str "state") base_states left_states
      right_states (str "Done") (λ h. absurd_none (sym done_removed ∙ h))
