-- ===== src/Model/Validate/Loop.antt =====
-- The loop of the search: that it ends, and what it reaches.
use mathlib.Core.List.Memᴰ
use clanker_foundry.Prelude.{
  ℕ, zero, suc, ◌+◌, ◌≤◌, ◌≡◌, refl, sym, ap, subst, ◌⊎◌, inl, inr, List, [], ◌∷◌, Memᴰ, length,
  length-append, arith, Bool-cases, ◌↔◌, List-cases,
}
use clanker_foundry.Text.{Str, contains}
use clanker_foundry.Distinct.{Distinct}
use clanker_foundry.Model.Validate.{
  Queue, visit, visit_all, targets, reach_from, start_queue, reached_states,
}
use clanker_foundry.Model.Validate.Search.{
  Walk, here, step, unreached, unreached-new, unreached-le-length, targets_of, targets_has,
}
use clanker_foundry.Model.Validate.Visits.{
  visit_old, visit_new, visit_all-mono_reached, visit_all-mono_queue, visit_all-has, visit_all-from,
  visit_all-queue_from, visit_all-Distinct,
}

module _ (edges : List (Str × Str)) where
  -- A round takes one state off the queue, and queues a state only as it uses up an edge.
  work : Queue → ℕ
  unfolding unreached
  work q = length q.queue + unreached q.reached edges

  visit-work : (q : Queue) (n to : Str) → Memᴰ (n, to) edges → work (visit q to) ≤ work q
  unfolding work visit
  visit-work q n to m = elim (Bool-cases (contains q.reached to)) [
    | inl h ↦ rw (visit_old q to h) (omega arith)
    | inr h ↦
        rw (visit_new q to h) (
          omega (arith, unreached-new (n, to) q.reached edges m h, length-append q.queue (to ∷ [])))
  ]

  visit_all-work :
      (n : Str) (ts : List Str) (q : Queue)
      → ((v : Str) → Memᴰ v ts → Memᴰ (n, v) edges)
      → work (visit_all ts q) ≤ work q
  unfolding visit_all
  visit_all-work n [] q f = omega arith
  visit_all-work n (to ∷ ts) q f = omega (
    arith,
    visit-work q n to (f to (Memᴰ.head refl)),
    visit_all-work n ts (visit q to) (λ v m. f v (Memᴰ.tail m)),
  )

  round : Queue → Str → List Str → Queue
  round q n rest = visit_all (targets edges n) (record q { queue = rest })

  round-work :
      (q : Queue) (n : Str) (rest : List Str)
      → q.queue ≡ n ∷ rest
      → suc (work (round q n rest)) ≤ work q
  unfolding round work
  round-work q n rest e = omega (
    arith,
    visit_all-work n (targets edges n) (record q { queue = rest }) (targets_of edges n),
    ap length e,
  )

  -- An invariant that a round keeps holds when the queue is empty, and with enough fuel it is.
  reach_from_rule {ℓ} :
      (P : Queue → Type ℓ)
      → ((q : Queue) (n : Str) (rest : List Str) → q.queue ≡ n ∷ rest → P q → P (round q n rest))
      → (fuel : ℕ) (q : Queue) → work q ≤ fuel
      → P q
      → P (reach_from edges fuel q) × ((reach_from edges fuel q).queue ≡ [])
  unfolding reach_from round work
  reach_from_rule P keep zero q h p = elim (List-cases q.queue) [
    | inl e ↦ (p, e)
    | inr (n, rest, e) ↦ absurd (omega (arith, ap length e))
  ]
  reach_from_rule P keep (suc fuel) q h p = elim (List-cases q.queue) [
    | inl e ↦ rw (e, reach_from) (p, e)
    | inr (n, rest, e) ↦
        rw (e, reach_from)
          (reach_from_rule P keep fuel (round q n rest) (omega (arith, round-work q n rest e))
            (keep q n rest e p))
  ]

module _ (edges : List (Str × Str)) (initial : Str) where
  record Inv (q : Queue) : Type 0 where
    distinct : Distinct q.reached
    source : Memᴰ initial q.reached
    sound : (w : Str) → Memᴰ w q.reached → Walk edges initial w
    queued : (w : Str) → Memᴰ w q.queue → Walk edges initial w
    closed : (u v : Str) → Memᴰ u q.reached → Memᴰ (u, v) edges → Memᴰ u q.queue ⊎ Memᴰ v q.reached

  Inv-round :
      (q : Queue) (n : Str) (rest : List Str)
      → q.queue ≡ n ∷ rest
      → Inv q
      → Inv (round edges q n rest)
  unfolding round
  Inv-round q n rest e h =
      let q' = record q { queue = rest } in
      let ts = targets edges n in
      let to_n = h.queued n (rw e (Memᴰ.head refl)) in
      record {
        distinct = visit_all-Distinct ts q' h.distinct;
        source = visit_all-mono_reached ts q' initial h.source;
        sound = λ w m. elim (visit_all-from ts q' w m) [
          | inl k ↦ h.sound w k
          | inr (k, l) ↦ step to_n (targets_of edges n w k)
        ];
        queued = λ w m. elim (visit_all-queue_from ts q' w m) [
          | inl k ↦ h.queued w (rw e (Memᴰ.tail k))
          | inr k ↦ step to_n (targets_of edges n w k)
        ];
        closed = λ u v m edge. elim (visit_all-from ts q' u m) [
          | inr (k, l) ↦ inl l
          | inl k ↦ elim (h.closed u v k edge) [
            | inr l ↦ inr (visit_all-mono_reached ts q' v l)
            | inl l ↦ elim (Memᴰ.cases_cons (rw e at l)) [
              | inl same ↦ inr (
                  visit_all-has ts q' v
                    (targets_has edges n v (subst (λ x. Memᴰ (x, v) edges) same edge)))
              | inr l' ↦ inl (visit_all-mono_queue ts q' u l')
            ]
          ]
        ];
      }

  Inv-start : Inv (start_queue initial)
  Inv-start = record {
    distinct = (tt, tt);
    source = Memᴰ.head refl;
    sound = λ w m. subst (Walk edges initial) (sym (Memᴰ.eq_of_singleton m)) here;
    queued = λ w m. subst (Walk edges initial) (sym (Memᴰ.eq_of_singleton m)) here;
    closed = λ u v m edge. inl m;
  }

  complete :
      (q : Queue) → Inv q → q.queue ≡ [] → {w : Str} → Walk edges initial w → Memᴰ w q.reached
  complete q h e here = h.source
  complete q h e (step {u} {v} p edge) = elim (h.closed u v (complete q h e p) edge) [
    | inl l ↦ absurd (Memᴰ.not-nil (rw e at l))
    | inr m ↦ m
  ]

  finished :
      Inv (reach_from edges (suc (length edges)) (start_queue initial))
      × ((reach_from edges (suc (length edges)) (start_queue initial)).queue ≡ [])
  finished =
      reach_from_rule edges Inv Inv-round (suc (length edges)) (start_queue initial)
        (unfold work in omega (arith, unreached-le-length (initial ∷ []) edges)) Inv-start

  -- The fuel of the search is enough.
  pub reach_from-finished : (reach_from edges (suc (length edges)) (start_queue initial)).queue ≡ []
  reach_from-finished = finished.1

  -- The search reaches a state exactly if a walk along the declared edges leads to it.
  pub reached_states_iff : (w : Str) → Memᴰ w (reached_states edges initial) ↔ Walk edges initial w
  unfolding reached_states
  reached_states_iff w = (finished.0.sound w, complete _ finished.0 finished.1)

  -- The map `reached` holds each state once.
  pub reached_states-Distinct : Distinct (reached_states edges initial)
  unfolding reached_states
  reached_states-Distinct = finished.0.distinct
