-- ===== src/Lifecycle/Steps.antt =====
-- One call of `Transition`: when it accepts a command, and what it does to the task.
use clanker_foundry.Prelude.{
  ◌≡◌, refl, sym, ◌∙◌, ◌≢◌, ◌↔◌, ◌⊎◌, inl, inr, Bool, true, false, ◌&&◌, none, some, List, [], ◌∷◌,
  ◌++◌, All, append-nil, append_assoc, if◌then◌else◌,
}
use clanker_foundry.Text.{Str, str}
use clanker_foundry.Lifecycle.{Task, Command, valid_task, valid_command, envelope, refused}
use clanker_foundry.Lifecycle.Reducer.{
  Move, Chosen, chosen, illegal, choose_move, guards_of, finish, failures, max_uint64,
  current_digest, transition,
}

abbrev pub Passed : Bool × Str → Type 0
Passed test = test.0 ≡ true

failing : List (Bool × Str) → List Str
failing [] = []
failing ((passed, name) ∷ tests) = if passed then failing tests else name ∷ failing tests

failures-failing :
    (tests : List (Bool × Str)) (failed : List Str)
    → failures tests failed ≡ failed ++ failing tests
unfolding failures failing
failures-failing [] failed = sym (append-nil failed)
failures-failing ((true, name) ∷ tests) failed = failures-failing tests failed
failures-failing ((false, name) ∷ tests) failed =
    failures-failing tests (failed ++ name ∷ []) ∙ append_assoc failed (name ∷ []) (failing tests)

failing-nil : (tests : List (Bool × Str)) → failing tests ≡ [] → All Passed tests
unfolding failing
failing-nil [] h = tt
failing-nil ((true, name) ∷ tests) h = (refl, failing-nil tests h)
failing-nil ((false, name) ∷ tests) h = cc

failing_of_All : (tests : List (Bool × Str)) → All Passed tests → failing tests ≡ []
unfolding failing
failing_of_All [] h = refl
failing_of_All ((true, name) ∷ tests) (p, h) = failing_of_All tests h
failing_of_All ((false, name) ∷ tests) (p, h) = cc

-- No guard has failed exactly if each of them holds.
pub failures_iff : (tests : List (Bool × Str)) → (failures tests [] ≡ []) ↔ All Passed tests
failures_iff tests = (
  λ h. failing-nil tests (sym (failures-failing tests []) ∙ h),
  λ h. failures-failing tests [] ∙ failing_of_All tests h,
)

module _ (sha256_hex : Str → Str) where
  -- The inputs are valid, the state and the trigger choose a transition, its guards hold, and the
  -- revision has room.
  pub record IsLegal (t : Task) (c : Command) : Type 0 where
    pub task_valid : valid_task t ≡ true
    pub command_valid : valid_command c ≡ true
    pub move : Move
    pub choice : choose_move t.state c.kind ≡ chosen move
    pub passed : All Passed (guards_of move t c (current_digest sha256_hex t))
    pub room : t.revision ≢ max_uint64

  abbrev failed_of : Move → Task → Command → List Str
  failed_of move t c = failures (guards_of move t c (current_digest sha256_hex t)) []

  pub transition_invalid :
      (t : Task) (c : Command)
      → (valid_task t && valid_command c) ≡ false
      → transition sha256_hex t c ≡ envelope false [] none (some (str "INVALID_INPUT" ∷ []))
  unfolding transition
  transition_invalid t c h = rw h

  pub transition_illegal :
      (t : Task) (c : Command)
      → (valid_task t && valid_command c) ≡ true
      → choose_move t.state c.kind ≡ illegal
      → transition sha256_hex t c ≡ refused t [] (str "ILLEGAL_TRANSITION" ∷ [])
  unfolding transition
  transition_illegal t c h e = rw (h, e, transition)

  pub transition_chosen :
      (t : Task) (c : Command) (move : Move)
      → (valid_task t && valid_command c) ≡ true
      → choose_move t.state c.kind ≡ chosen move
      → transition sha256_hex t c ≡ finish move (failed_of move t c) t c
  unfolding transition
  transition_chosen t c move h e = rw (h, e, transition)

pub Chosen-cases : (x : Chosen) → (x ≡ illegal) ⊎ ((move : Move) × (x ≡ chosen move))
Chosen-cases illegal = inl refl
Chosen-cases (chosen move) = inr (move, refl)
