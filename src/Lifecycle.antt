-- ===== src/Lifecycle.antt =====
-- modeling/lifecycle/generated/lifecycle.go: the reducer that the compiler emits for the lifecycle
-- model. `sha256_hex` is the hash of `TaskDigest` in hexadecimal; nothing is assumed of it.
pub mod Guards
pub mod Reducer
pub mod Steps
pub mod Outcomes
pub mod Effects
pub mod Reads
pub mod Conditions
pub mod Reviews
pub mod Accepts
pub mod Approval
pub mod Runs
use clanker_foundry.Prelude.{
  ℕ, Bool, true, false, not, ◌&&◌, ◌||◌, Option, none, some, List, [], ◌∷◌, leb, ◌==◌,
  if◌then◌else◌, length, all_of,
}
use clanker_foundry.Text.{Str, str, str_eq, valid_string, nonblank, decimal}
use clanker_foundry.Sort.{sort_strings}
use clanker_foundry.Json.{json_string, json_strings, json_pointer, json_object}

-- A `[]string`; `none` is the nil slice.
abbrev pub Strings : Type 0
Strings = Option (List Str)

abbrev pub items : Strings → List Str
items none = []
items (some xs) = xs

pub record Task : Type 0 where
  pub id : Str
  pub state : Str
  pub revision : ℕ  -- uint64
  pub outcome : Str
  pub acceptance : Strings
  pub owner : Option Str

pub record Review : Type 0 where
  pub task_id : Str
  pub task_revision : ℕ  -- uint64
  pub model_digest : Str
  pub task_digest : Str
  pub reviewer : Str
  pub decision : Str

pub record Command : Type 0 where
  pub kind : Str  -- `Type` in the source
  pub actor : Str
  pub expected_revision : ℕ  -- uint64
  pub review : Option Review

pub record Result : Type 0 where
  pub mode : Str
  pub authority : Str
  pub model_digest : Str
  pub is_ok : Bool
  pub transition_id : Str
  pub task : Option Task
  pub refusals : Strings

-- `stringValue` and `uintValue`: `none` is not present.
abbrev pub StringValue : Type 0
StringValue = Option Str

abbrev pub UintValue : Type 0
UintValue = Option ℕ

unfoldable pub equal_string : StringValue → StringValue → Bool
equal_string (some a) (some b) = str_eq a b
equal_string _ _ = false

unfoldable pub not_equal_string : StringValue → StringValue → Bool
not_equal_string (some a) (some b) = not (str_eq a b)
not_equal_string _ _ = false

unfoldable pub equal_uint : UintValue → UintValue → Bool
equal_uint (some a) (some b) = a == b
equal_uint _ _ = false

unfoldable pub not_equal_uint : UintValue → UintValue → Bool
not_equal_uint (some a) (some b) = not (a == b)
not_equal_uint _ _ = false

unfoldable pub nonempty : StringValue → Bool
nonempty (some s) = nonblank s
nonempty none = false

unfoldable pub model_digest : Str
model_digest = str "948630cb7857199443b59b92d9b1ab0fadf2bf7a5bf8125f7a7e767db83958ed"

review_string : Str → Review → StringValue
review_string id r =
    if str_eq id (str "review.taskId")
    then some r.task_id
    else if str_eq id (str "review.modelDigest")
    then some r.model_digest
    else if str_eq id (str "review.taskDigest")
    then some r.task_digest
    else if str_eq id (str "review.reviewer")
    then some r.reviewer
    else if str_eq id (str "review.decision")
    then some r.decision
    else none

unfoldable pub ref_string : Str → Task → Command → Str → StringValue
unfolding review_string model_digest
ref_string id t c current_digest =
    if str_eq id (str "task.id")
    then some t.id
    else if str_eq id (str "task.outcome")
    then some t.outcome
    else if str_eq id (str "task.owner")
    then t.owner
    else if str_eq id (str "task.digest")
    then some current_digest
    else if str_eq id (str "command.actor")
    then some c.actor
    else if str_eq id (str "model.digest")
    then some model_digest
    else elim c.review [ none ↦ none | some r ↦ review_string id r ]

unfoldable pub ref_uint : Str → Task → Command → UintValue
ref_uint id t c =
    if str_eq id (str "task.revision")
    then some t.revision
    else if str_eq id (str "command.expectedRevision")
    then some c.expected_revision
    else if str_eq id (str "review.taskRevision")
    then elim c.review [ none ↦ none | some r ↦ some r.task_revision ]
    else none

unfoldable pub valid_text : Str → ℕ → Bool
valid_text s n = leb (length s) n && valid_string s

unfoldable pub known_state : Str → Bool
known_state s =
    str_eq s (str "Done")
    || str_eq s (str "Draft")
    || str_eq s (str "InProgress")
    || str_eq s (str "InReview")
    || str_eq s (str "Ready")

unfoldable pub known_command : Str → Bool
known_command s =
    str_eq s (str "approve")
    || str_eq s (str "prepare")
    || str_eq s (str "requestChanges")
    || str_eq s (str "requestReview")
    || str_eq s (str "start")

unfoldable pub valid_owner : Option Str → Bool
unfolding valid_text
valid_owner none = true
valid_owner (some o) = valid_text o 256

unfoldable pub valid_task : Task → Bool
valid_task t =
    valid_text t.id 256
    && nonblank t.id
    && known_state t.state
    && valid_text t.outcome 4096
    && leb (length (items t.acceptance)) 32
    && valid_owner t.owner
    && all_of (λ a. valid_text a 1024 && nonblank a) (items t.acceptance)

hex_bytes : Str → Bool
hex_bytes [] = true
hex_bytes (c ∷ s) = (leb b'0' c && leb c b'9' || leb b'a' c && leb c b'f') && hex_bytes s

unfoldable pub digest_string : Str → Bool
unfolding hex_bytes
digest_string s = length s == 64 && hex_bytes s

unfoldable pub valid_review : Option Review → Bool
unfolding valid_text digest_string
valid_review none = true
valid_review (some r) =
    valid_text r.task_id 256
    && valid_text r.reviewer 256
    && digest_string r.model_digest
    && digest_string r.task_digest
    && (str_eq r.decision (str "approved") || str_eq r.decision (str "changesRequested"))

unfoldable pub valid_command : Command → Bool
valid_command c = known_command c.kind && valid_text c.actor 256 && valid_review c.review

abbrev pub envelope : Bool → Str → Option Task → Strings → Result
envelope is_ok id task refusals = record {
  mode = str "example-only";
  authority = str "none";
  model_digest = model_digest;
  is_ok = is_ok;
  transition_id = id;
  task = task;
  refusals = refusals;
}

-- `refused`. A copy of the task equals the task.
unfoldable pub refused : Task → Str → List Str → Result
unfolding sort_strings
refused t id reasons = envelope false id (some t) (some (sort_strings reasons))

-- The bytes that `TaskDigest` hashes.
unfoldable pub task_json : Task → Str
unfolding json_object json_string json_strings json_pointer decimal
task_json t = json_object (
    (str "id", json_string t.id)
    ∷ (str "state", json_string t.state)
    ∷ (str "revision", json_string (decimal t.revision))
    ∷ (str "outcome", json_string t.outcome)
    ∷ (str "acceptance", json_strings (items t.acceptance))
    ∷ (str "owner", json_pointer t.owner)
    ∷ [])
