-- ===== src/Model/Validate/Termination.antt =====
-- The search of `Validate` ends by itself, so that its fuel is no limit.
use clanker_foundry.Prelude.{
  ℕ, zero, suc, ◌≤◌, ◌<◌, ◌≡◌, ap, ◌∙◌, refl, sym, List, [], ◌∷◌, length, arith, inl, inr,
  List-cases,
}
use clanker_foundry.Text.{Str}
use clanker_foundry.Model.Validate.{Queue, reach_from, start_queue, reached_states}
use clanker_foundry.Model.Validate.Loop.{reach_from-finished}

module _ (edges : List (Str × Str)) where
  empty_stays :
      (fuel : ℕ) (r ks : List Str)
      → ks ≡ []
      → reach_from edges fuel (record { reached = r; queue = ks })
        ≡ record { reached = r; queue = ks }
  unfolding reach_from
  empty_stays zero r ks e = refl
  empty_stays (suc fuel) r [] e = refl
  empty_stays (suc fuel) r (n ∷ ks) e = absurd (ground (arith, ap length e))

  reach_from_stays : (fuel : ℕ) (q : Queue) → q.queue ≡ [] → reach_from edges fuel q ≡ q
  reach_from_stays fuel q e = empty_stays fuel q.reached q.queue e

  -- Once the queue is empty, more rounds change nothing.
  reach_from_more :
      (fuel fuel' : ℕ) (q : Queue)
      → fuel ≤ fuel'
      → (reach_from edges fuel q).queue ≡ []
      → reach_from edges fuel' q ≡ reach_from edges fuel q
  unfolding reach_from
  reach_from_more zero fuel' q h e = reach_from_stays fuel' q e
  reach_from_more (suc fuel) zero q h e = absurd (omega (arith, h))
  reach_from_more (suc fuel) (suc fuel') q h e = elim (List-cases q.queue) [
    | inl d ↦ reach_from_stays (suc fuel') q d ∙ sym (reach_from_stays (suc fuel) q d)
    | inr (n, rest, d) ↦
        rw (d, reach_from)
          (reach_from_more fuel fuel' _ (omega (arith, h)) (rw (d, reach_from) at e))
  ]

  -- With more rounds than there are edges, the search of `Validate` from any state empties its
  -- queue, and what it has reached does not depend on the number of rounds.
  pub reach_from_terminates :
      (initial : Str) (fuel : ℕ)
      → length edges < fuel
      → ((reach_from edges fuel (start_queue initial)).queue ≡ [])
        × ((reach_from edges fuel (start_queue initial)).reached ≡ reached_states edges initial)
  unfolding reached_states
  reach_from_terminates initial fuel h =
      let enough = reach_from-finished edges initial in
      let same =
        reach_from_more (suc (length edges)) fuel (start_queue initial) (omega (arith, h)) enough in
      (ap (λ q. q.queue) same ∙ enough, ap (λ q. q.reached) same)
