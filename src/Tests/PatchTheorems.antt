-- ===== src/Tests/PatchTheorems.antt =====
-- The theorems about patches at one that relabels a state of the small model.
use clanker_foundry.Prelude.{
  ◌≡◌, ◌≢◌, ◌↔◌, ◌⊎◌, refl, true, false, none, some, Option, List, [], ◌∷◌, ok, map, Memᴰ, any_of,
  if◌then◌else◌,
}
use clanker_foundry.Text.{Str, str, str_eq, str_ltb, valid_string}
use clanker_foundry.Sort.{sort_strings}
use clanker_foundry.Distinct.{Distinct}
use clanker_foundry.Lifecycle.{digest_string}
use clanker_foundry.Model.{Model, State, identifier}
use clanker_foundry.Model.Validate.{validate}
use clanker_foundry.Model.Normalize.{normalize, reorder}
use clanker_foundry.Canonical.{digest, canonical_bytes, document}
use clanker_foundry.Impact.{
  Change, compare, report_of, changes_of, elements_of, value_eq, key_eq, validate_bindings,
}
use clanker_foundry.Patch.{Operation, Patch, PatchError, Proposal}
use clanker_foundry.Patch.Bytes.{patch_bytes}
use clanker_foundry.Patch.Shape.{
  preflight, check_shapes, check_types, check_targets, target_of, is_action,
}
use clanker_foundry.Patch.Edit.{edit, edit_iff}
use clanker_foundry.Patch.Plan.{plan, proposal, apply_all}
use clanker_foundry.Patch.Plan.Sound.{plan_sound}
use clanker_foundry.Tests.Models.{small, state_of}
use clanker_foundry.Tests.ModelTheorems.{sorted_small}
use clanker_foundry.Tests.MergeTheorems.{right, relabelled, every}
use clanker_foundry.Tests.Tasks.{hash}

-- A hash that knows the small model.
abbrev marks : Str → Str
marks s =
    if str_eq s (document sorted_small)
    then hash []
    else str "ffffffffffffffffffffffffffffffffffffffffffffffffffffffffffffffff"

abbrev relabel : Operation
relabel = record {
  action = str "replace";
  kind = str "state";
  id = str "Draft";
  root = none;
  state = some relabelled;
  requirement = none;
  guard = none;
  transition = none;
}

abbrev patch : Patch
patch = record {
  version = 1;
  profile = str "lifecycle/v1";
  before_digest = hash [];
  operations = some (relabel ∷ []);
}

abbrev accepts : Proposal → Option PatchError
accepts r = none

patch_checked : preflight patch ≡ ok (relabel ∷ [])
unfolding preflight check_shapes check_types check_targets patch_bytes str_eq digest_string
    valid_string identifier key_eq any_of
patch_checked = refl

abbrev base_states : List State
base_states = state_of "Done" true ∷ state_of "Draft" false ∷ []

abbrev edited : List State
edited = state_of "Done" true ∷ relabelled ∷ []

ids_differ : Distinct (map (λ s. s.id) base_states)
ids_differ = (((λ e. done_draft e), tt), (tt, tt))
  where
    done_draft : str "Done" ≢ str "Draft"
    done_draft e = cc

replaced : edit (λ s. s.id) relabel relabelled base_states ≡ ok edited
unfolding edit str_eq any_of
replaced = refl

known : is_action (str "replace") ≡ true
unfolding is_action str_eq
known = refl

edit_iff_example :
    Distinct (map (λ s. s.id) edited)
    × ((a : State)
        → Memᴰ a edited ↔ (
            (a ≡ relabelled) × (str "replace" ≢ str "remove")
            ⊎ Memᴰ a base_states × (a.id ≢ str "Draft")))
edit_iff_example =
    edit_iff (λ s. s.id) relabel relabelled base_states edited ids_differ (λ h. refl) known replaced

abbrev relabelling : Change
relabelling = record {
  kind = str "state";
  id = str "Draft";
  action = str "modified";
  fields = str "label" ∷ [];
}

abbrev planned : Proposal
planned =
    proposal (hash []) (str "ffffffffffffffffffffffffffffffffffffffffffffffffffffffffffffffff")
      right
      (report_of sorted_small right (hash [])
        (str "ffffffffffffffffffffffffffffffffffffffffffffffffffffffffffffffff") []
        (relabelling ∷ []))

plan_made : plan marks every accepts small patch ≡ ok planned
unfolding plan preflight check_shapes check_types check_targets patch_bytes str_eq digest_string
    valid_string identifier key_eq any_of apply_all edit compare normalize validate str_ltb reorder
    digest canonical_bytes document changes_of elements_of value_eq validate_bindings sort_strings
    report_of
plan_made = refl

plan_sound_example :
    ((start : Model) × (normalize small ≡ ok start) × (digest marks start ≡ ok (hash [])))
    × ((operations : List Operation) × (patch.operations ≡ some operations)
        × Distinct (map target_of operations))
    × (validate right ≡ ok tt)
    × (normalize right ≡ ok right)
    × (digest marks right ≡ ok planned.after_digest)
    × ((planned.review.changes ≡ []) ↔ (normalize small ≡ ok right))
plan_sound_example = plan_sound marks every accepts small patch planned plan_made
