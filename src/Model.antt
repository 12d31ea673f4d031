-- ===== src/Model.antt =====
-- modeling/lifecycle/model/ir.go and capabilities.go: the lifecycle model (the IR), its constants,
-- the registry of references and the lexical rules. The children are the rest of ir.go.
pub mod Key
pub mod Typing
pub mod Validate
pub mod Normalize
pub mod Equal
use Prim.Native.String.{String}
use clanker_foundry.Prelude.{
  ℕ, ◌+◌, Bool, true, false, not, ◌&&◌, ◌||◌, Option, none, some, List, [], ◌∷◌, map, ltb, leb,
  ◌==◌, if◌then◌else◌, length, find_first,
}
use clanker_foundry.Text.{Str, str, str_eq, contains, valid_string, nonblank}
use clanker_foundry.Sort.{sort_by}

abbrev pub profile_version : Str
profile_version = str "lifecycle/v1"

abbrev pub max_depth : ℕ
max_depth = 16

abbrev pub max_nodes : ℕ
max_nodes = 512

abbrev pub assign_owner : Str
assign_owner = str "assign_owner_if_absent"

abbrev pub set_state : Str
set_state = str "set_state"

abbrev pub increment_revision : Str
increment_revision = str "increment_revision"

-- `Expr` has its fields in the source's order: Kind, Ref, Value, Op, Args.
mutual
  pub data Expr : Type 0 where
    expr : Str → Str → Str → Str → Exprs → Expr

  pub data Exprs : Type 0 where
    nil : Exprs
    cons : Expr → Exprs → Exprs

abbrev pub kind_of : Expr → Str
kind_of (expr kind ref value op args) = kind

abbrev pub ref_of : Expr → Str
ref_of (expr kind ref value op args) = ref

abbrev pub arity : Exprs → ℕ
arity nil = 0
arity (cons a args) = ℕ.suc (arity args)

pub record State : Type 0 where
  pub id : Str
  pub label : Str
  pub terminal : Bool

pub record Requirement : Type 0 where
  pub id : Str
  pub text : Str

pub record Guard : Type 0 where
  pub id : Str
  pub requirement : Str
  pub condition : Expr  -- `Expr` in the source

pub record Effect : Type 0 where
  pub op : Str

pub record Transition : Type 0 where
  pub id : Str
  pub from : Str
  pub trigger : Str
  pub to : Str
  pub guards : List Str
  pub effects : List Effect

pub record Model : Type 0 where
  pub version : ℕ
  pub id : Str
  pub initial : Str
  pub states : List State
  pub requirements : List Requirement
  pub guards : List Guard
  pub transitions : List Transition

-- The messages of `invalid`.
pub data Invalid : Type 0 where
  identity_version collection_bounds bad_state bad_initial_state bad_requirement : Invalid
  bad_guard_identity guard_not_boolean transition_identity ambiguous_trigger : Invalid
  transition_guards guard_reference assignment_order effects_order dead_end : Invalid
  missing_terminal unreachable_state unused_guard unused_requirement : Invalid
  expression_bounds mixed_reference unknown_reference string_literal mixed_operator : Invalid
  comparison_arity unary_arity boolean_arity unknown_operator comparison_type : Invalid
  nonempty_type absent_reference boolean_operand duplicate_operand unknown_kind : Invalid

-- The type names of expressions.
pub data Typ : Type 0 where
  string uint64 strings bool : Typ

pub record RefType : Type 0 where
  pub typ : Typ
  pub optional : Bool

abbrev required : String → Typ → Str × RefType
required path t = (str path, record { typ = t; optional = false })

abbrev optional_ref : String → Typ → Str × RefType
optional_ref path t = (str path, record { typ = t; optional = true })

unfoldable pub references : List (Str × RefType)
references =
    required "task.id" string
    ∷ required "task.revision" uint64
    ∷ required "task.outcome" string
    ∷ required "task.acceptance" strings
    ∷ optional_ref "task.owner" string
    ∷ required "task.digest" string
    ∷ required "command.actor" string
    ∷ required "command.expectedRevision" uint64
    ∷ optional_ref "review.taskId" string
    ∷ optional_ref "review.taskRevision" uint64
    ∷ optional_ref "review.modelDigest" string
    ∷ optional_ref "review.taskDigest" string
    ∷ optional_ref "review.reviewer" string
    ∷ optional_ref "review.decision" string
    ∷ required "model.digest" string
    ∷ []

-- `references[path]`.
unfoldable pub find_reference : Str → Option RefType
unfolding references find_first
find_reference path = elim (find_first (λ e. str_eq e.0 path) references) [
  | none ↦ none
  | some (p, r) ↦ some r
]

is_letter : ℕ → Bool
is_letter c = leb b'A' c && leb c b'Z' || leb b'a' c && leb c b'z'

is_digit : ℕ → Bool
is_digit c = leb b'0' c && leb c b'9'

identifier_bytes : ℕ → Str → Bool
unfolding is_letter is_digit
identifier_bytes i [] = true
identifier_bytes i (c ∷ s) =
    (is_letter c || ltb 0 i && (is_digit c || c == b'_')) && identifier_bytes (i + 1) s

-- `Identifier`.
unfoldable pub identifier : Str → Bool
unfolding identifier_bytes
identifier s = if ltb (length s) 1 || ltb 48 (length s) then false else identifier_bytes 0 s

-- `text`.
unfoldable pub valid_text : Str → ℕ → Bool → Bool
unfolding valid_string nonblank
valid_text s limit required_text =
    leb (length s) limit && valid_string s && (not required_text || nonblank s)

pub record ReferenceCapability : Type 0 where
  pub path : Str
  pub typ : Typ
  pub optional : Bool

-- `ReferenceCapabilities`.
unfoldable pub reference_capabilities : List ReferenceCapability
unfolding references sort_by
reference_capabilities =
    sort_by (λ c. c.path)
      (map (λ e. record { path = e.0; typ = e.1.typ; optional = e.1.optional }) references)
