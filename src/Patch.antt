-- ===== src/Patch.antt =====
-- modeling/lifecycle/modelpatch/apply.go and types.go, and `patchBytes` of decode.go: an explicit
-- proposal of edits against a model with a known digest. `encodes` says whether
-- `jsonformat.Encode` succeeds on a model, and `result_error` what `encodeResult` answers.
pub mod Bytes
pub mod Shape
pub mod Edit
pub mod Plan
use clanker_foundry.Prelude.{
  ℕ, Bool, true, false, Option, none, some, List, Result, ok, err, ◌>>◌, check, leb, length,
}
use clanker_foundry.Text.{Str, str, valid_string}
use clanker_foundry.Model.{State, Requirement, Guard, Transition, Model, identifier}
use clanker_foundry.Impact.{Report}

pub data PatchError : Type 0 where
  invalid_patch over_limit stale conflicting : PatchError

pub record Root : Type 0 where
  pub id : Str
  pub initial : Str

pub record Operation : Type 0 where
  pub action : Str
  pub kind : Str
  pub id : Str
  pub root : Option Root
  pub state : Option State
  pub requirement : Option Requirement
  pub guard : Option Guard
  pub transition : Option Transition

pub record Patch : Type 0 where
  pub version : ℕ
  pub profile : Str
  pub before_digest : Str
  pub operations : Option (List Operation)

-- `Result`.
pub record Proposal : Type 0 where
  pub version : Str
  pub profile : Str
  pub mode : Str
  pub authority : Str
  pub before_digest : Str
  pub after_digest : Str
  pub after : Model
  pub review : Report

abbrev pub is_given : {A : Type 0} → Option A → Bool
is_given none = false
is_given (some a) = true

abbrev pub Checked : Type 0
Checked = Result PatchError (Unit {0})

unfoldable pub scalar : Str → ℕ → Checked
scalar s max = do check (leb (length s) max) over_limit; check (valid_string s) invalid_patch

-- `identifier` of apply.go.
unfoldable pub check_identifier : Str → Checked
unfolding scalar
check_identifier s = do scalar s 48; check (identifier s) invalid_patch
