-- ===== src/Patch/Plan.antt =====
-- `apply` and `Plan` of modelpatch/apply.go.
pub mod Targets
pub mod Sound
use clanker_foundry.Prelude.{
  Bool, true, false, not, Option, none, some, List, [], ◌∷◌, Result, ok, err, ◌>>=◌, ◌>>◌, check,
  or_error, if◌then◌else◌,
}
use clanker_foundry.Text.{Str, str, str_eq}
use clanker_foundry.Model.{
  Expr, expr, nil, State, Requirement, Guard, Transition, Model, profile_version,
}
use clanker_foundry.Model.Normalize.{normalize}
use clanker_foundry.Canonical.{digest}
use clanker_foundry.Impact.{Report, compare}
use clanker_foundry.Patch.{PatchError, invalid_patch, stale, Root, Operation, Patch, Proposal}
use clanker_foundry.Patch.Shape.{preflight}
use clanker_foundry.Patch.Edit.{edit}

-- The zero values, which stand in where an operation has no payload.
abbrev zero_state : State
zero_state = record { id = []; label = []; terminal = false }

abbrev zero_requirement : Requirement
zero_requirement = record { id = []; text = [] }

abbrev zero_guard : Guard
zero_guard = record { id = []; requirement = []; condition = expr [] [] [] [] nil }

abbrev zero_transition : Transition
zero_transition = record { id = []; from = []; trigger = []; to = []; guards = []; effects = [] }

abbrev pub payload_or : {A : Type 0} → Option A → A → A
payload_or none zero = zero
payload_or (some a) zero = a

unfoldable pub set_root : Model → Option Root → Model
set_root m none = m
set_root m (some r) = record m { id = r.id; initial = r.initial }

-- `apply`. A root operation has its payload, as `union` has checked.
unfoldable pub apply : Model → Operation → Result PatchError Model
unfolding edit set_root
apply m o =
    if str_eq o.kind (str "model")
    then ok (set_root m o.root)
    else if str_eq o.kind (str "state")
    then (edit (λ (x : State). x.id) o (payload_or o.state zero_state) m.states
        >>= (λ xs. ok (record m { states = xs })))
    else if str_eq o.kind (str "requirement")
    then (edit (λ (x : Requirement). x.id) o (payload_or o.requirement zero_requirement)
          m.requirements
        >>= (λ xs. ok (record m { requirements = xs })))
    else if str_eq o.kind (str "guard")
    then (edit (λ (x : Guard). x.id) o (payload_or o.guard zero_guard) m.guards
        >>= (λ xs. ok (record m { guards = xs })))
    else if str_eq o.kind (str "transition")
    then (edit (λ (x : Transition). x.id) o (payload_or o.transition zero_transition) m.transitions
        >>= (λ xs. ok (record m { transitions = xs })))
    else ok m

unfoldable pub apply_all : Model → List Operation → Result PatchError Model
unfolding apply
apply_all m [] = ok m
apply_all m (o ∷ operations) = do next ← apply m o; apply_all next operations

abbrev pub proposal : Str → Str → Model → Report → Proposal
proposal before_digest after_digest after review = record {
  version = str "lifecycle-model-patch-report/v1";
  profile = profile_version;
  mode = str "example-only";
  authority = str "none";
  before_digest = before_digest;
  after_digest = after_digest;
  after = after;
  review = review;
}

abbrev pub delivered : (Proposal → Option PatchError) → Proposal → Result PatchError Proposal
delivered result_error result = elim (result_error result) [ none ↦ ok result | some e ↦ err e ]

module _ (sha256_hex : Str → Str) (encodes : Model → Bool)
    (result_error : Proposal → Option PatchError) where
  unfoldable pub plan : Model → Patch → Result PatchError Proposal
  plan before p = do
    start ← or_error (normalize before) invalid_patch
    check (encodes start) invalid_patch
    operations ← preflight p
    before_digest ← or_error (digest sha256_hex start) invalid_patch
    check (str_eq before_digest p.before_digest) stale
    working ← apply_all start operations
    after ← or_error (normalize working) invalid_patch
    check (encodes after) invalid_patch
    after_digest ← or_error (digest sha256_hex after) invalid_patch
    review ← or_error (compare sha256_hex before after []) invalid_patch
    delivered result_error (proposal before_digest after_digest after review)
