-- ===== src/Impact.antt =====
-- modeling/lifecycle/impact/compare.go, types.go and `validateBindings` of decode.go: the
-- comparison of two accepted models for review.
pub mod Elements
pub mod Changes
pub mod Kinds
pub mod Same
pub mod Links
pub mod Reports
pub mod Declared
pub mod Linked
use clanker_foundry.Prelude.{
  ℕ, ◌≡◌, Bool, true, false, not, ◌&&◌, ◌||◌, Option, none, some, List, [], ◌∷◌, ◌++◌, map, leb,
  ltb, ◌==◌, if◌then◌else◌, Result, ok, err, ◌>>=◌, ◌>>◌, or_error, check, length, any_of, all_of,
  select,
}
use clanker_foundry.Text.{Str, str, str_eq, str_ltb, contains}
use clanker_foundry.Sort.{sort_by, sort_strings, sort_less}
use clanker_foundry.Lifecycle.{digest_string}
use clanker_foundry.Model.{
  Expr, State, Requirement, Guard, Effect, Transition, Model, profile_version, identifier,
}
use clanker_foundry.Model.Equal.{expr_eq, list_eq, effect_eq, bool_eq}
use clanker_foundry.Model.Normalize.{normalize}
use clanker_foundry.Canonical.{digest}

pub record Binding : Type 0 where
  pub id : Str
  pub model_digest : Str

pub record Change : Type 0 where
  pub kind : Str
  pub id : Str
  pub action : Str  -- `Type` in the source
  pub fields : List Str

pub record LinkedTransition : Type 0 where
  pub side : Str
  pub id : Str
  pub causes : List Str

pub record BindingResult : Type 0 where
  pub id : Str
  pub model_digest : Str
  pub status : Str

-- `Report`, less the digests of sources, which `Compare` leaves nil.
pub record Report : Type 0 where
  pub version : Str
  pub profile : Str
  pub mode : Str
  pub authority : Str
  pub before_digest : Str
  pub after_digest : Str
  pub changed : Bool
  pub review_required : Bool
  pub changes : List Change
  pub linked : List LinkedTransition
  pub bindings : List BindingResult

pub data InputError : Type 0 where
  invalid_review : InputError

-- The values of `fields`.
pub data Value : Type 0 where
  text : Str → Value
  flag : Bool → Value
  expression : Expr → Value
  names : List Str → Value
  effects : List Effect → Value

-- `reflect.DeepEqual` on the values of normalized models.
unfoldable pub value_eq : Value → Value → Bool
unfolding expr_eq list_eq effect_eq bool_eq
value_eq (text a) (text b) = str_eq a b
value_eq (flag a) (flag b) = bool_eq a b
value_eq (expression a) (expression b) = expr_eq a b
value_eq (names a) (names b) = list_eq str_eq a b
value_eq (effects a) (effects b) = list_eq effect_eq a b
value_eq _ _ = false

-- An `elementKey`: kind and ID.
abbrev pub ElementKey : Type 0
ElementKey = Str × Str

abbrev pub Fields : Type 0
Fields = List (Str × Value)

abbrev pub Elements : Type 0
Elements = List (ElementKey × Fields)

unfoldable pub key_eq : ElementKey → ElementKey → Bool
key_eq a b = str_eq (a.0) (b.0) && str_eq (a.1) (b.1)

unfoldable pub key_ltb : ElementKey → ElementKey → Bool
key_ltb a b = if not (str_eq (a.0) (b.0)) then str_ltb (a.0) (b.0) else str_ltb (a.1) (b.1)

abbrev pub root_fields : Model → Fields
root_fields m = (str "id", text m.id) ∷ (str "initial", text m.initial) ∷ []

abbrev pub state_fields : State → Fields
state_fields s = (str "label", text s.label) ∷ (str "terminal", flag s.terminal) ∷ []

abbrev pub requirement_fields : Requirement → Fields
requirement_fields r = (str "text", text r.text) ∷ []

abbrev pub guard_fields : Guard → Fields
guard_fields g = (str "requirement", text g.requirement) ∷ (str "expr", expression g.condition) ∷ []

abbrev pub transition_fields : Transition → Fields
transition_fields t =
    (str "from", text t.from)
    ∷ (str "trigger", text t.trigger)
    ∷ (str "to", text t.to)
    ∷ (str "guards", names t.guards)
    ∷ (str "effects", effects t.effects)
    ∷ []

-- `elements`. The IDs of an accepted model differ, so that the map is the list of its entries.
unfoldable pub elements_of : Model → Elements
elements_of m =
    ((str "model", []), root_fields m)
    ∷ (map (λ (s : State). ((str "state", s.id), state_fields s)) m.states
        ++ (map (λ (r : Requirement). ((str "requirement", r.id), requirement_fields r))
              m.requirements
            ++ (map (λ (g : Guard). ((str "guard", g.id), guard_fields g)) m.guards
                ++ map (λ (t : Transition). ((str "transition", t.id), transition_fields t))
                    m.transitions)))

unfoldable pub element_at : Elements → ElementKey → Option Fields
unfolding key_eq
element_at [] key = none
element_at ((k, f) ∷ es) key = if key_eq k key then some f else element_at es key

unfoldable pub field_at : Fields → Str → Option Value
field_at [] name = none
field_at ((n, v) ∷ fields) name = if str_eq n name then some v else field_at fields name

abbrev pub is_some : {A : Type 0} → Option A → Bool
is_some none = false
is_some (some a) = true

-- `reflect.DeepEqual(value, next[field])`.
unfoldable pub same_field : Fields → Str × Value → Bool
unfolding value_eq field_at
same_field next (name, v) = elim (field_at next name) [ none ↦ false | some w ↦ value_eq v w ]

unfoldable pub differing : Fields → Fields → List Str
unfolding same_field
differing [] next = []
differing (f ∷ old) next =
    let rest = differing old next in if same_field next f then rest else f.0 ∷ rest

-- The keys of both maps, in order.
unfoldable pub compared_keys : Elements → Elements → List ElementKey
unfolding key_ltb sort_less element_at
compared_keys be ae =
    sort_less key_ltb
      (map (λ e. e.0) be ++ select (λ k. not (is_some (element_at be k))) (map (λ e. e.0) ae))

-- The change at a key, from the fields before and after.
unfoldable pub change_of : ElementKey → Option Fields → Option Fields → Option Change
unfolding differing sort_strings
change_of (kind, id) none next =
    some (record { kind = kind; id = id; action = str "added"; fields = [] })
change_of (kind, id) (some old) none =
    some (record { kind = kind; id = id; action = str "removed"; fields = [] })
change_of (kind, id) (some old) (some next) = elim (differing old next) [
  | [] ↦ none
  | f ∷ fs ↦
      some
        (record { kind = kind; id = id; action = str "modified"; fields = sort_strings (f ∷ fs) })
]

abbrev pub with_change : Option Change → List Change → List Change
with_change none rest = rest
with_change (some c) rest = c ∷ rest

unfoldable pub changes_at : Elements → Elements → List ElementKey → List Change
unfolding change_of
changes_at be ae [] = []
changes_at be ae (k ∷ keys) =
    with_change (change_of k (element_at be k) (element_at ae k)) (changes_at be ae keys)

unfoldable pub changes_of : Elements → Elements → List Change
unfolding changes_at compared_keys
changes_of be ae = changes_at be ae (compared_keys be ae)

-- `changed[elementKey{kind, id}]`.
unfoldable pub is_changed : List Change → ElementKey → Bool
unfolding key_eq
is_changed changes k = any_of (λ c. key_eq (c.kind, c.id) k) changes

-- `guards[id].Requirement`, empty for a guard that is not declared.
unfoldable pub requirement_of : List Guard → Str → Str
requirement_of [] id = []
requirement_of (g ∷ guards) id = if str_eq g.id id then g.requirement else requirement_of guards id

unfoldable pub guard_keys : List Guard → List Str → List ElementKey
unfolding requirement_of
guard_keys guards [] = []
guard_keys guards (id ∷ ids) =
    (str "guard", id) ∷ (str "requirement", requirement_of guards id) ∷ guard_keys guards ids

-- The declared links of a transition, as `add` is called.
unfoldable pub link_keys : List Guard → Transition → List ElementKey
unfolding guard_keys
link_keys guards t =
    (str "model", [])
    ∷ (str "transition", t.id)
    ∷ (str "state", t.from)
    ∷ (str "state", t.to)
    ∷ guard_keys guards t.guards

-- The set of causes.
unfoldable pub causes_of : List Change → List ElementKey → List Str
unfolding is_changed contains
causes_of changes [] = []
causes_of changes (k ∷ keys) =
    let rest = causes_of changes keys in
    let cause = k.0 ++ b':' ∷ k.1 in
    if is_changed changes k && not (contains rest cause) then cause ∷ rest else rest

abbrev pub with_link : Str → Transition → List Str → List LinkedTransition → List LinkedTransition
with_link side t [] rest = rest
with_link side t (c ∷ cs) rest =
    record { side = side; id = t.id; causes = sort_strings (c ∷ cs) } ∷ rest

unfoldable pub links : Str → List Change → List Guard → List Transition → List LinkedTransition
unfolding causes_of link_keys sort_strings
links side changes guards [] = []
links side changes guards (t ∷ ts) =
    with_link side t (causes_of changes (link_keys guards t)) (links side changes guards ts)

unfoldable pub binding_result : Str → Str → Binding → BindingResult
binding_result bd ad b = record {
  id = b.id;
  model_digest = b.model_digest;
  status =
      if str_eq b.model_digest ad
      then str "matches-after"
      else if str_eq b.model_digest bd
      then str "matches-before-only"
      else str "matches-neither";
}

check_bindings : List Binding → List Str → Result InputError (Unit {0})
unfolding contains digest_string identifier
check_bindings [] seen = ok tt
check_bindings (b ∷ bindings) seen = do
  check (identifier b.id && digest_string b.model_digest) invalid_review
  check (not (contains seen b.id)) invalid_review
  check_bindings bindings (b.id ∷ seen)

unfoldable pub validate_bindings : List Binding → Result InputError (Unit {0})
unfolding check_bindings
validate_bindings bindings = do
  check (leb (length bindings) 128) invalid_review
  check_bindings bindings []

abbrev pub has_changes : List Change → Bool
has_changes [] = false
has_changes (c ∷ cs) = true

-- The report of two normalized models with their digests.
unfoldable pub report_of : Model → Model → Str → Str → List Binding → List Change → Report
unfolding links binding_result sort_by
report_of b a bd ad bindings changes = record {
  version = str "lifecycle-model-diff-report/v1";
  profile = profile_version;
  mode = str "example-only";
  authority = str "none";
  before_digest = bd;
  after_digest = ad;
  changed = not (str_eq bd ad);
  review_required = not (str_eq bd ad);
  changes = changes;
  linked =
      links (str "before") changes b.guards b.transitions
      ++ links (str "after") changes a.guards a.transitions;
  bindings = map (binding_result bd ad) (sort_by (λ (x : Binding). x.id) bindings);
}

unfoldable pub compare : (Str → Str) → Model → Model → List Binding → Result InputError Report
compare sha256_hex before after bindings = do
  b ← or_error (normalize before) invalid_review
  a ← or_error (normalize after) invalid_review
  validate_bindings bindings
  bd ← or_error (digest sha256_hex b) invalid_review
  ad ← or_error (digest sha256_hex a) invalid_review
  let changes = changes_of (elements_of b) (elements_of a)
  check (bool_eq (not (str_eq bd ad)) (has_changes changes)) invalid_review
  ok (report_of b a bd ad bindings changes)
