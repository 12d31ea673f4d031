-- ===== src/Patch/Shape.antt =====
-- The checks of modelpatch/apply.go before a patch is applied: `union`, `operationBase`,
-- `transitionHead`, `exprBounds` and `preflight`.
use clanker_foundry.Prelude.{
  ℕ, suc, ◌+◌, ◌^◌, Bool, true, false, not, ◌&&◌, ◌||◌, Option, none, some, List, [], ◌∷◌, Result,
  ok, err, ◌>>=◌, ◌>>◌, check, or_error, leb, ◌==◌, length, if◌then◌else◌, any_of,
}
use clanker_foundry.Text.{Str, str, str_eq}
use clanker_foundry.Lifecycle.{digest_string}
use clanker_foundry.Model.{Expr, Exprs, expr, nil, cons, arity, Effect, profile_version, bool}
use clanker_foundry.Model.Typing.{type_of, typ_eq}
use clanker_foundry.Impact.{key_eq}
use clanker_foundry.Patch.{
  PatchError, invalid_patch, over_limit, conflicting, Operation, Patch, Checked, is_given, scalar,
  check_identifier,
}
use clanker_foundry.Patch.Bytes.{patch_bytes}

unfoldable pub is_action : Str → Bool
is_action a = str_eq a (str "add") || (str_eq a (str "replace") || str_eq a (str "remove"))

-- `selected`; `none` for an unknown kind.
unfoldable pub selected : Operation → Option Bool
selected o =
    if str_eq o.kind (str "model")
    then some (is_given o.root)
    else if str_eq o.kind (str "state")
    then some (is_given o.state)
    else if str_eq o.kind (str "requirement")
    then some (is_given o.requirement)
    else if str_eq o.kind (str "guard")
    then some (is_given o.guard)
    else if str_eq o.kind (str "transition")
    then some (is_given o.transition)
    else none

abbrev count_of : Bool → ℕ
count_of true = 1
count_of false = 0

unfoldable pub payloads : Operation → ℕ
payloads o =
    count_of (is_given o.root)
    + (count_of (is_given o.state)
        + (count_of (is_given o.requirement)
            + (count_of (is_given o.guard) + count_of (is_given o.transition))))

abbrev known : {A : Type 0} → Option A → Result PatchError A
known none = err invalid_patch
known (some a) = ok a

unfoldable pub union : Operation → Checked
unfolding is_action selected payloads check_identifier
union o = do
  check (is_action o.action) invalid_patch
  chosen ← known (selected o)
  if str_eq o.kind (str "model")
      then check (str_eq o.id [] && str_eq o.action (str "replace")) invalid_patch
      else check_identifier o.id
  if str_eq o.action (str "remove")
      then check (payloads o == 0) invalid_patch
      else check (chosen && payloads o == 1) invalid_patch

-- A payload, which `union` has found to be there.
abbrev with_payload : {A : Type 0} → Option A → (A → Checked) → Checked
with_payload none f = ok tt
with_payload (some a) f = f a

unfoldable pub check_all : {A : Type 0} → (A → Checked) → List A → Checked
check_all f [] = ok tt
check_all f (a ∷ xs) = f a >> check_all f xs

unfoldable pub transition_head : Str → Str → Str → Str → Str → ℕ → ℕ → Checked
unfolding check_identifier check_all
transition_head id from trigger to target guards effects = do
  check_identifier id
  check (str_eq id target) invalid_patch
  check_all check_identifier (from ∷ trigger ∷ to ∷ [])
  check (leb guards 64 && leb effects 3) over_limit

unfoldable pub operation_base : Operation → Checked
unfolding union check_identifier scalar transition_head check_all
operation_base o = do
  union o
  if str_eq o.action (str "remove")
      then ok tt
      else if str_eq o.kind (str "model")
      then with_payload o.root (λ r. check_identifier r.id >> check_identifier r.initial)
      else if str_eq o.kind (str "state")
      then with_payload o.state (λ s. do
        check_identifier s.id
        check (str_eq s.id o.id) invalid_patch
        scalar s.label 256)
      else if str_eq o.kind (str "requirement")
      then with_payload o.requirement (λ r. do
        check_identifier r.id
        check (str_eq r.id o.id) invalid_patch
        scalar r.text 4096)
      else if str_eq o.kind (str "guard")
      then with_payload o.guard (λ g. do
        check_identifier g.id
        check (str_eq g.id o.id) invalid_patch
        check_identifier g.requirement)
      else with_payload o.transition (λ t. do
        transition_head t.id t.from t.trigger t.to o.id (length t.guards) (length t.effects)
        check_all check_identifier t.guards
        check_all (λ (e : Effect). scalar e.op 64) t.effects)

-- `exprBounds`, with the number of nodes so far.
unfoldable mutual
  unfolding scalar

  pub expr_bounds : Expr → ℕ → ℕ → Result PatchError ℕ
  expr_bounds (expr kind ref value op args) depth nodes = do
    check (leb depth 16 && (leb (suc nodes) 512 && leb (arity args) 16)) over_limit
    scalar kind 16
    scalar ref 128
    scalar value 4096
    scalar op 16
    args_bounds args (suc depth) (suc nodes)

  pub args_bounds : Exprs → ℕ → ℕ → Result PatchError ℕ
  args_bounds nil depth nodes = ok nodes
  args_bounds (cons a args) depth nodes = do n ← expr_bounds a depth nodes; args_bounds args depth n

unfoldable pub check_shapes : List Operation → ℕ → Checked
unfolding operation_base expr_bounds
check_shapes [] nodes = ok tt
check_shapes (o ∷ operations) nodes = do
  operation_base o
  n ← elim o.guard [ none ↦ ok nodes | some g ↦ expr_bounds g.condition 0 nodes ]
  check_shapes operations n

unfoldable pub check_types : List Operation → Checked
check_types [] = ok tt
check_types (o ∷ operations) = do
  with_payload o.guard (λ g. do
    t ← or_error (type_of g.condition) invalid_patch
    check (typ_eq t bool) invalid_patch)
  check_types operations

abbrev pub target_of : Operation → Str × Str
target_of o = (o.kind, o.id)

unfoldable pub check_targets : List Operation → List (Str × Str) → Checked
unfolding key_eq
check_targets [] seen = ok tt
check_targets (o ∷ operations) seen = do
  check (not (any_of (key_eq (target_of o)) seen)) conflicting
  check_targets operations (target_of o ∷ seen)

-- `preflight`, which returns the operations of the patch.
unfoldable pub preflight : Patch → Result PatchError (List Operation)
preflight p = do
  check (p.version == 1 && (str_eq p.profile profile_version && digest_string p.before_digest))
      invalid_patch
  operations ← known p.operations
  check (leb (length operations) 64) over_limit
  check_shapes operations 0
  check_types operations
  check (leb (length (patch_bytes p.profile p.before_digest operations)) (2 ^ 20)) over_limit
  check_targets operations []
  ok operations
