-- ===== src/Lifecycle/Outcomes.antt =====
-- When `Transition` accepts, what an accepted command changes, and what a refusal leaves.
use clanker_foundry.Prelude.{
  ◌≡◌, refl, ap, ◌∙◌, ◌≢◌, ◌↔◌, ◌⊎◌, inl, inr, true, false, ◌&&◌, none, some, List, [], ◌∷◌, arith,
  Bool-cases, ◌==◌, ==_iff, length, and_split,
}
use clanker_foundry.Text.{Str, str}
use clanker_foundry.Sort.{sort_strings}
use clanker_foundry.Sort.Laws.{length-sort_by}
use clanker_foundry.Lifecycle.{
  Task, Command, Result, items, valid_task, valid_command, envelope, refused,
}
use clanker_foundry.Lifecycle.Reducer.{
  Move, choose_move, transition_id, guards_of, apply_move, finish, failures, max_uint64,
  current_digest, transition,
}
use clanker_foundry.Lifecycle.Steps.{
  failures_iff, IsLegal, transition_invalid, transition_illegal, transition_chosen, Chosen-cases,
}

-- A result that leaves the task alone and says why.
abbrev Refuses : Task → Result → Type 0
Refuses t r = (r.is_ok ≡ false) × (r.task ≡ some t) × (items r.refusals ≢ [])

refused-Refuses :
    (t : Task) (id reason : Str) (reasons : List Str) → Refuses t (refused t id (reason ∷ reasons))
unfolding refused sort_strings
refused-Refuses t id reason reasons = (
  refl,
  refl,
  λ e. absurd (omega (arith, ap length e, length-sort_by (λ (s : Str). s) (reason ∷ reasons))),
)

finish_cases :
    (move : Move) (failed : List Str) (t : Task) (c : Command)
    → Refuses t (finish move failed t c)
      ⊎ (failed ≡ [])
        × (t.revision ≢ max_uint64)
        × (finish move failed t c
            ≡ envelope true (transition_id move) (some (apply_move move t c)) (some []))
unfolding finish
finish_cases move (g ∷ failed) t c = inl (refused-Refuses t (transition_id move) g failed)
finish_cases move [] t c = elim (Bool-cases (t.revision == max_uint64)) [
  | inl e ↦ inl (rw e (refused-Refuses t (transition_id move) (str "REVISION_LIMIT") []))
  | inr e ↦ inr (refl, ground (arith, ==_iff t.revision max_uint64), rw e)
]

module _ (sha256_hex : Str → Str) where
  -- The two ways a call can end.
  pub transition_cases :
      (t : Task) (c : Command)
      → Refuses t (transition sha256_hex t c)
        ⊎ ((valid_task t && valid_command c) ≡ false)
          × (transition sha256_hex t c ≡ envelope false [] none (some (str "INVALID_INPUT" ∷ [])))
        ⊎ ((l : IsLegal sha256_hex t c) × (transition sha256_hex t c
              ≡ envelope true (transition_id l.move) (some (apply_move l.move t c)) (some [])))
  transition_cases t c = elim (Bool-cases (valid_task t && valid_command c)) [
    | inr e ↦ inr (inl (e, transition_invalid sha256_hex t c e))
    | inl e ↦ elim (Chosen-cases (choose_move t.state c.kind)) [
      | inl d ↦ inl (
          rw (transition_illegal sha256_hex t c e d)
            (refused-Refuses t [] (str "ILLEGAL_TRANSITION") []))
      | inr (move, d) ↦
          let failed = failures (guards_of move t c (current_digest sha256_hex t)) [] in
          elim (finish_cases move failed t c) [
            | inl r ↦ inl (rw (transition_chosen sha256_hex t c move e d) r)
            | inr (none_failed, room, done) ↦ inr (
                inr (
                  record {
                    task_valid = (and_split (valid_task t) (valid_command c) e).0;
                    command_valid = (and_split (valid_task t) (valid_command c) e).1;
                    move = move;
                    choice = d;
                    passed = (failures_iff _).0 none_failed;
                    room = room;
                  },
                  transition_chosen sha256_hex t c move e d ∙ done,
                ))
          ]
    ]
  ]

  finish_all :
      (move : Move) (failed : List Str) (t : Task) (c : Command)
      → failed ≡ []
      → t.revision ≢ max_uint64
      → (finish move failed t c).is_ok ≡ true
  unfolding finish
  finish_all move [] t c e room = ground (arith, ==_iff t.revision max_uint64)
  finish_all move (g ∷ failed) t c e room = cc

  pub transition-ok_IsLegal :
      (t : Task) (c : Command) → ((transition sha256_hex t c).is_ok ≡ true) ↔ IsLegal sha256_hex t c
  transition-ok_IsLegal t c = (
    λ h. elim (transition_cases t c) [
      | inl r ↦ cc (r.0)
      | inr (inl (e, r)) ↦ cc (r, h)
      | inr (inr (l, r)) ↦ l
    ],
    λ l.
        rw
          (transition_chosen sha256_hex t c l.move (rw (l.task_valid, l.command_valid) refl)
            l.choice)
          (finish_all l.move _ t c ((failures_iff _).1 l.passed) l.room),
  )

  -- A call that does not accept gives at least one reason, and returns the task unchanged, or no
  -- task if task or command were invalid.
  pub transition_refusal :
      (t : Task) (c : Command)
      → (transition sha256_hex t c).is_ok ≡ false
      → (items (transition sha256_hex t c).refusals ≢ [])
        × (((transition sha256_hex t c).task ≡ some t)
            ⊎ ((transition sha256_hex t c).task ≡ none)
              × ((valid_task t && valid_command c) ≡ false))
  transition_refusal t c h = elim (transition_cases t c) [
    | inl (refused_it, same, why) ↦ (why, inl same)
    | inr (inl (e, r)) ↦ rw r ((λ p. cc), inr (refl, e))
    | inr (inr (l, r)) ↦ cc (r, h)
  ]
