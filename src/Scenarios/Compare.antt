-- ===== src/Scenarios/Compare.antt =====
-- `compare` of scenarios/run.go, with `reflect.DeepEqual` on results and their parts.
pub mod Laws
use clanker_foundry.Prelude.{
  ℕ, ◌≡◌, refl, sym, ◌↔◌, Bool, true, false, not, ◌&&◌, Option, none, some, List, [], ◌∷◌, ◌++◌,
  ◌==◌, ==_iff, if◌then◌else◌, and_split, arith, Bool-cases,
}
use clanker_foundry.Text.{Str, str, str_eq}
use clanker_foundry.Text.Laws.{str_eq_iff}
use clanker_foundry.Model.Equal.{Decides, bool_eq, bool_eq_iff, list_eq, list_eq_to, list_eq_refl}
use clanker_foundry.Lifecycle.{Task, Strings}
use clanker_foundry.Lifecycle
use clanker_foundry.Scenarios.{Expected, mode, authority}

unfoldable pub option_eq : {A : Type 0} → (A → A → Bool) → Option A → Option A → Bool
option_eq eq none none = true
option_eq eq (some a) (some b) = eq a b
option_eq eq _ _ = false

unfoldable pub strings_eq : Strings → Strings → Bool
unfolding option_eq list_eq
strings_eq = option_eq (list_eq str_eq)

unfoldable pub task_eq : Task → Task → Bool
unfolding strings_eq option_eq
task_eq a b =
    str_eq a.id b.id
    && (str_eq a.state b.state
        && (a.revision == b.revision
            && (str_eq a.outcome b.outcome
                && (strings_eq a.acceptance b.acceptance && option_eq str_eq a.owner b.owner))))

unfoldable pub result_eq : Lifecycle.Result → Lifecycle.Result → Bool
unfolding option_eq task_eq bool_eq strings_eq
result_eq a b =
    str_eq a.mode b.mode
    && (str_eq a.authority b.authority
        && (str_eq a.model_digest b.model_digest
            && (bool_eq a.is_ok b.is_ok
                && (str_eq a.transition_id b.transition_id
                    && (option_eq task_eq a.task b.task && strings_eq a.refusals b.refusals)))))

-- A name, unless the parts are equal.
unfoldable pub note_unless : Bool → Str → List Str
note_unless true name = []
note_unless false name = name ∷ []

-- The differences in the seven fields.
unfoldable pub field_differences : Lifecycle.Result → Expected → Str → List Str
unfolding note_unless
field_differences actual want digest =
    note_unless (str_eq actual.mode mode) (str "mode")
    ++ (note_unless (str_eq actual.authority authority) (str "authority")
        ++ (note_unless (str_eq actual.model_digest digest) (str "modelDigest")
            ++ (note_unless (bool_eq actual.is_ok want.is_ok) (str "ok")
                ++ (note_unless (str_eq actual.transition_id want.transition_id)
                      (str "transitionId")
                    ++ (note_unless (option_eq task_eq actual.task want.task) (str "task")
                        ++ note_unless (strings_eq actual.refusals want.refusals)
                            (str "refusals"))))))

-- The complete result that a step expects.
unfoldable pub expected_result : Expected → Str → Lifecycle.Result
expected_result want digest = record {
  mode = mode;
  authority = authority;
  model_digest = digest;
  is_ok = want.is_ok;
  transition_id = want.transition_id;
  task = want.task;
  refusals = want.refusals;
}

-- A result that differs in no field is compared whole.
pub with_whole : Bool → List Str → List Str
with_whole false [] = str "result" ∷ []
with_whole _ ds = ds

unfoldable pub compare_result : Lifecycle.Result → Expected → Str → List Str
unfolding field_differences expected_result with_whole
compare_result actual want digest =
    with_whole (result_eq actual (expected_result want digest))
      (field_differences actual want digest)
