-- ===== src/Traceability.antt =====
-- modeling/lifecycle/traceability/trace.go: human requirements linked to the elements of a model and
-- to acceptance cases. A model that is decoded is valid, and a catalog that is loaded has no case
-- twice, so that the maps from their IDs are lists here; `map[string][]string` is a function.
use clanker_foundry.Prelude.{
  ℕ, ◌+◌, Bool, true, false, not, ◌&&◌, ◌||◌, Option, none, some, List, [], ◌∷◌, ◌++◌, leb, ltb,
  ◌==◌, if◌then◌else◌, length, map, all_of, find_first,
}
use clanker_foundry.Text.{Str, str, str_eq, str_ltb, valid_string, nonblank}
use clanker_foundry.Sort.{sort_strings}
use clanker_foundry.Model.{Model, State, Transition, Guard, Requirement}
pub mod Issues
pub mod Catalog
pub mod Reports
pub mod Tracing
pub mod Build

abbrev pub max_bytes : ℕ
max_bytes = 1_048_576

abbrev pub max_requirements : ℕ
max_requirements = 256

abbrev pub max_links : ℕ
max_links = 64

unfoldable pub requirements_format : Str
requirements_format = str "lifecycle-requirements-json/v1"

unfoldable pub catalog_schema : Str
catalog_schema = str "lifecycle-semantic-oracle-v2"

unfoldable pub kind_state : Str
kind_state = str "state"

unfoldable pub kind_transition : Str
kind_transition = str "transition"

unfoldable pub kind_guard : Str
kind_guard = str "guard"

unfoldable pub kind_model_requirement : Str
kind_model_requirement = str "modelRequirement"

pub record ModelLink : Type 0 where
  pub kind : Str
  pub id : Str

-- `wireRequirement`; an acceptance link is the ID of its case.
pub record LinkedRequirement : Type 0 where
  pub id : Str
  pub title : Str
  pub statement : Str
  pub model_links : List ModelLink
  pub acceptance_links : List Str

pub record Document : Type 0 where
  pub format_version : Str
  pub model_id : Str
  pub acceptance_catalog : Str
  pub requirements : List LinkedRequirement

pub record Element : Type 0 where
  pub kind : Str
  pub id : Str
  pub detail : Str
  pub guard_requirement : Str

pub record AcceptanceCase : Type 0 where
  pub case_id : Str
  pub name : Str
  pub execution_status : Str

pub record Issue : Type 0 where
  pub code : Str
  pub requirement : Str
  pub target : Str

-- `strings.Cut` at the first hyphen.
cut : Str → Option (Str × Str)
cut [] = none
cut (c ∷ s) =
    let rest = cut s in
    if c == b'-' then some ([], s) else elim rest [ none ↦ none | some (a, b) ↦ some (c ∷ a, b) ]

is_upper : ℕ → Bool
is_upper c = leb b'A' c && leb c b'Z'

is_digit : ℕ → Bool
is_digit c = leb b'0' c && leb c b'9'

-- `RequirementID`.
unfoldable pub requirement_id : Str → Bool
unfolding cut is_upper is_digit all_of
requirement_id s = elim (cut s) [
  | none ↦ false
  | some (p, n) ↦
      leb 1 (length p)
      && leb (length p) 8
      && (leb 1 (length n) && leb (length n) 6)
      && (all_of is_upper p && all_of is_digit n)
]

is_case_byte : ℕ → Bool
is_case_byte c = leb b'a' c && leb c b'z' || is_digit c || c == b'-'

-- `caseID`.
unfoldable pub case_id : Str → Bool
unfolding is_case_byte is_digit all_of
case_id s = leb 1 (length s) && leb (length s) 64 && all_of is_case_byte s

-- Neither a control byte other than a tab nor a delete byte. These are runes of one byte.
is_printed : ℕ → Bool
is_printed c = not (ltb c 0x20 && not (c == 9) || c == 0x7F)

-- `validText`.
unfoldable pub valid_line : Str → ℕ → Bool
unfolding is_printed all_of
valid_line s limit = leb (length s) limit && valid_string s && nonblank s && all_of is_printed s

unfoldable pub state_element : State → Element
unfolding kind_state
state_element s = record {
  kind = kind_state;
  id = s.id;
  detail = if s.terminal then s.label ++ str " (terminal)" else s.label;
  guard_requirement = [];
}

unfoldable pub transition_element : Transition → Element
unfolding kind_transition
transition_element t = record {
  kind = kind_transition;
  id = t.id;
  detail = t.from ++ str " --" ++ t.trigger ++ str "--> " ++ t.to;
  guard_requirement = [];
}

unfoldable pub guard_element : Guard → Element
unfolding kind_guard
guard_element g = record {
  kind = kind_guard;
  id = g.id;
  detail = str "declares " ++ g.requirement;
  guard_requirement = g.requirement;
}

unfoldable pub requirement_element : Requirement → Element
unfolding kind_model_requirement
requirement_element r = record {
  kind = kind_model_requirement;
  id = r.id;
  detail = r.text;
  guard_requirement = [];
}

unfoldable pub elements : Model → List Element
unfolding state_element transition_element guard_element requirement_element
elements m =
    map state_element m.states
    ++ (map transition_element m.transitions
        ++ (map guard_element m.guards ++ map requirement_element m.requirements))

unfoldable pub find_element : List Element → Str → Option Element
unfolding find_first
find_element els id = find_first (λ e. str_eq e.id id) els

unfoldable pub find_case : List AcceptanceCase → Str → Option AcceptanceCase
unfolding find_first
find_case cases id = find_first (λ c. str_eq c.case_id id) cases

-- The kinds in their order.
unfoldable pub kind_rank : Str → ℕ
unfolding kind_state kind_transition kind_guard kind_model_requirement
kind_rank k =
    if str_eq k kind_state
    then 0
    else if str_eq k kind_transition
    then 1
    else if str_eq k kind_guard
    then 2
    else if str_eq k kind_model_requirement
    then 3
    else 4

unfoldable pub valid_kind : Str → Bool
unfolding kind_rank
valid_kind k = ltb (kind_rank k) 4

-- Each run of equal texts becomes one.
unfoldable pub drop_repeats : List Str → List Str
drop_repeats [] = []
drop_repeats (s ∷ []) = s ∷ []
drop_repeats (s ∷ t ∷ ss) =
    let rest = drop_repeats (t ∷ ss) in if str_eq s t then rest else s ∷ rest

unfoldable pub uniq : List Str → List Str
unfolding drop_repeats
uniq xs = drop_repeats (sort_strings xs)
