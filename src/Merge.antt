-- ===== src/Merge.antt =====
-- modeling/lifecycle/modelmerge/merge.go and types.go: the three-way merge of accepted models.
-- `encodes` says whether `jsonformat.Encode` succeeds on a model.
pub mod Choice
pub mod Lookup
pub mod Records
pub mod Conflicts
pub mod Swap
pub mod Outcomes
pub mod Unchanged
use clanker_foundry.Prelude.{
  ℕ, ◌≡◌, Bool, true, false, not, ◌&&◌, ◌||◌, Option, none, some, List, [], ◌∷◌, ◌++◌, map,
  if◌then◌else◌, Result, ok, err, ◌>>=◌, ◌>>◌, or_error, check,
}
use clanker_foundry.Text.{Str, str, str_eq, str_ltb, contains}
use clanker_foundry.Sort.{sort_strings, sort_less}
use clanker_foundry.Model.{State, Requirement, Guard, Transition, Model, profile_version}
use clanker_foundry.Model.Equal.{state_eq, requirement_eq, guard_eq, transition_eq}
use clanker_foundry.Model.Normalize.{normalize}
use clanker_foundry.Canonical.{digest}

pub record Conflict : Type 0 where
  pub kind : Str
  pub id : Str
  pub field : Str
  pub reason : Str

pub data Status : Type 0 where
  merged conflicted invalid_combination : Status

-- `Result`, less the sources, which `Merge` leaves nil.
pub record Merge : Type 0 where
  pub version : Str
  pub profile : Str
  pub mode : Str
  pub authority : Str
  pub base_digest : Str
  pub left_digest : Str
  pub right_digest : Str
  pub status : Status
  pub candidate_digest : Option Str
  pub candidate : Option Model
  pub conflicts : List Conflict

pub data MergeError : Type 0 where
  invalid_input : MergeError

-- A `unit`: `none` is not present.
module _ {A : Type 0} (eq : A → A → Bool) where
  unfoldable pub equal : Option A → Option A → Bool
  equal none none = true
  equal (some a) (some b) = eq a b
  equal _ _ = false

  -- `none` is a conflict.
  unfoldable pub choose : Option A → Option A → Option A → Option (Option A)
  unfolding equal
  choose base left right =
      if equal left right
      then some left
      else if equal left base
      then some right
      else if equal right base
      then some left
      else none

unfoldable pub is_present : {A : Type 0} → Option A → Bool
is_present none = false
is_present (some a) = true

-- The `reason` of a conflict.
unfoldable pub reason_of : {A : Type 0} → Option A → Option A → Option A → Str
unfolding is_present
reason_of b l r =
    if not (is_present b)
    then str "add-add"
    else if not (is_present l) || not (is_present r)
    then str "remove-change"
    else str "change-change"

module _ {A : Type 0} (id : A → Str) where
  -- A lookup in `index`, where a later value replaces an earlier one.
  unfoldable pub lookup : List A → Str → Option A
  lookup [] key = none
  lookup (a ∷ values) key =
      let later = lookup values key in
      if is_present later then later else if str_eq (id a) key then some a else none

  -- The keys of `index`, added to others.
  unfoldable pub add_keys : List A → List Str → List Str
  add_keys [] keys = keys
  add_keys (a ∷ values) keys =
      let more = add_keys values keys in if contains more (id a) then more else id a ∷ more

  unfoldable pub all_keys : List A → List A → List A → List Str
  unfolding add_keys sort_strings
  all_keys base left right = sort_strings (add_keys base (add_keys left (add_keys right [])))

-- One key of the loop of `records`, put before the others.
unfoldable pub record_step :
    {A : Type 0}
    → Str
    → Str
    → Option A
    → Option A
    → Option A
    → Option (Option A)
    → List A × List Conflict
    → List A × List Conflict
record_step kind key b l r none (out, conflicts) =
    (out, record { kind = kind; id = key; field = []; reason = reason_of b l r } ∷ conflicts)
record_step kind key b l r (some none) rest = rest
record_step kind key b l r (some (some a)) (out, conflicts) = (a ∷ out, conflicts)

module _ {A : Type 0} (eq : A → A → Bool) (id : A → Str) (kind : Str)
    (base left right : List A) where
  unfoldable pub merge_keys : List Str → List A × List Conflict
  unfolding record_step
  merge_keys [] = ([], [])
  merge_keys (key ∷ keys) =
      let b = lookup id base key in
      let l = lookup id left key in
      let r = lookup id right key in record_step kind key b l r (choose eq b l r) (merge_keys keys)

  unfoldable pub records : List A × List Conflict
  unfolding merge_keys all_keys
  records = merge_keys (all_keys id base left right)

-- `root`: the value, and the conflict it adds.
unfoldable pub root : Str → Str → Str → Str → Str × List Conflict
root field b l r = elim (choose str_eq (some b) (some l) (some r)) [
  | some (some v) ↦ (v, [])
  | some none ↦ ([], [])
  | none ↦
      ([], record { kind = str "model"; id = []; field = field; reason = str "change-change" } ∷ [])
]

-- The order of the conflicts in a result.
unfoldable pub conflict_ltb : Conflict → Conflict → Bool
conflict_ltb a b =
    if not (str_eq a.kind b.kind)
    then str_ltb a.kind b.kind
    else if not (str_eq a.id b.id)
    then str_ltb a.id b.id
    else str_ltb a.field b.field

unfoldable pub sort_conflicts : List Conflict → List Conflict
unfolding conflict_ltb sort_less
sort_conflicts cs = sort_less conflict_ltb cs

-- The candidate and the conflicts of three normalized models.
unfoldable pub combine : Model → Model → Model → Model × List Conflict
unfolding root records
combine b l r =
    let (id, c₁) = root (str "id") b.id l.id r.id in
    let (initial, c₂) = root (str "initial") b.initial l.initial r.initial in
    let (states, c₃) = records state_eq (λ s. s.id) (str "state") b.states l.states r.states in
    let (requirements, c₄) =
      records requirement_eq (λ q. q.id) (str "requirement") b.requirements l.requirements
        r.requirements in
    let (guards, c₅) = records guard_eq (λ g. g.id) (str "guard") b.guards l.guards r.guards in
    let (transitions, c₆) =
      records transition_eq (λ t. t.id) (str "transition") b.transitions l.transitions
        r.transitions in
    (
      record {
        version = b.version;
        id = id;
        initial = initial;
        states = states;
        requirements = requirements;
        guards = guards;
        transitions = transitions;
      },
      c₁ ++ (c₂ ++ (c₃ ++ (c₄ ++ (c₅ ++ c₆)))),
    )

abbrev pub merge_result :
    Str → Str → Str → Status → Option Str → Option Model → List Conflict → Merge
merge_result bd ld rd status digest candidate conflicts = record {
  version = str "lifecycle-model-merge/v1";
  profile = profile_version;
  mode = str "example-only";
  authority = str "none";
  base_digest = bd;
  left_digest = ld;
  right_digest = rd;
  status = status;
  candidate_digest = digest;
  candidate = candidate;
  conflicts = conflicts;
}

module _ (sha256_hex : Str → Str) (encodes : Model → Bool) where
  -- `prepare`: the normal form and its digest.
  unfoldable pub prepare : Model → Result MergeError (Model × Str)
  prepare m = do
    n ← or_error (normalize m) invalid_input
    check (encodes n) invalid_input
    d ← or_error (digest sha256_hex n) invalid_input
    ok (n, d)

  -- What `Merge` does with the candidate and the conflicts.
  unfoldable pub conclude : Str → Str → Str → Model × List Conflict → Merge
  unfolding prepare
  conclude bd ld rd (candidate, c ∷ cs) =
      merge_result bd ld rd conflicted none none (sort_conflicts (c ∷ cs))
  conclude bd ld rd (candidate, []) = elim (prepare candidate) [
    | err e ↦ merge_result bd ld rd invalid_combination none none []
    | ok (n, d) ↦ merge_result bd ld rd merged (some d) (some n) []
  ]

  unfoldable pub merge : Model → Model → Model → Result MergeError Merge
  unfolding prepare conclude
  merge base left right = do
    b ← prepare base
    l ← prepare left
    r ← prepare right
    ok (conclude (b.1) (l.1) (r.1) (combine (b.0) (l.0) (r.0)))
