-- ===== src/Model/Validate/Visits.antt =====
-- What visiting states does to the two lists of the search.
use mathlib.Core.List.Memᴰ
use clanker_foundry.Prelude.{
  ◌≡◌, refl, sym, subst, ◌⊎◌, inl, inr, true, false, List, [], ◌∷◌, ◌++◌, Memᴰ, Bool-cases,
}
use clanker_foundry.Text.{Str, contains}
use clanker_foundry.Text.Laws.{contains_iff}
use clanker_foundry.Distinct.{Distinct, not_mem_ne}
use clanker_foundry.Model.Validate.{Queue, visit, visit_all}

pub visit_old : (q : Queue) (to : Str) → contains q.reached to ≡ true → visit q to ≡ q
unfolding visit
visit_old q to h = rw h

pub visit_new :
    (q : Queue) (to : Str)
    → contains q.reached to ≡ false
    → visit q to ≡ record { reached = to ∷ q.reached; queue = q.queue ++ to ∷ [] }
unfolding visit
visit_new q to h = rw h

pub visit-mono_reached : (q : Queue) (to w : Str) → Memᴰ w q.reached → Memᴰ w (visit q to).reached
visit-mono_reached q to w m = elim (Bool-cases (contains q.reached to)) [
  | inl h ↦ rw (visit_old q to h) m
  | inr h ↦ rw (visit_new q to h) (Memᴰ.tail m)
]

pub visit-mono_queue : (q : Queue) (to w : Str) → Memᴰ w q.queue → Memᴰ w (visit q to).queue
visit-mono_queue q to w m = elim (Bool-cases (contains q.reached to)) [
  | inl h ↦ rw (visit_old q to h) m
  | inr h ↦ rw (visit_new q to h) (Memᴰ.append_left (to ∷ []) m)
]

pub visit_self : (q : Queue) (to : Str) → Memᴰ to (visit q to).reached
visit_self q to = elim (Bool-cases (contains q.reached to)) [
  | inl h ↦ rw (visit_old q to h) ((contains_iff q.reached to).0 h)
  | inr h ↦ rw (visit_new q to h) (Memᴰ.head refl)
]

pub visit-from :
    (q : Queue) (to w : Str)
    → Memᴰ w (visit q to).reached
    → Memᴰ w q.reached ⊎ (w ≡ to) × Memᴰ w (visit q to).queue
visit-from q to w m = elim (Bool-cases (contains q.reached to)) [
  | inl h ↦ inl (rw (visit_old q to h) at m)
  | inr h ↦ elim (Memᴰ.cases_cons (rw (visit_new q to h) at m)) [
    | inl e ↦ inr (e, rw (visit_new q to h) (Memᴰ.append_right q.queue (Memᴰ.head e)))
    | inr k ↦ inl k
  ]
]

pub visit_all-mono_reached :
    (ts : List Str) (q : Queue) (w : Str) → Memᴰ w q.reached → Memᴰ w (visit_all ts q).reached
unfolding visit_all
visit_all-mono_reached [] q w m = m
visit_all-mono_reached (to ∷ ts) q w m =
    visit_all-mono_reached ts (visit q to) w (visit-mono_reached q to w m)

pub visit_all-mono_queue :
    (ts : List Str) (q : Queue) (w : Str) → Memᴰ w q.queue → Memᴰ w (visit_all ts q).queue
unfolding visit_all
visit_all-mono_queue [] q w m = m
visit_all-mono_queue (to ∷ ts) q w m =
    visit_all-mono_queue ts (visit q to) w (visit-mono_queue q to w m)

pub visit_all-has :
    (ts : List Str) (q : Queue) (w : Str) → Memᴰ w ts → Memᴰ w (visit_all ts q).reached
unfolding visit_all
visit_all-has [] q w m = absurd (Memᴰ.not-nil m)
visit_all-has (to ∷ ts) q w (Memᴰ.head e) =
    visit_all-mono_reached ts (visit q to) w
      (subst (λ v. Memᴰ v (visit q to).reached) (sym e) (visit_self q to))
visit_all-has (to ∷ ts) q w (Memᴰ.tail m) = visit_all-has ts (visit q to) w m

pub visit_all-from :
    (ts : List Str) (q : Queue) (w : Str)
    → Memᴰ w (visit_all ts q).reached
    → Memᴰ w q.reached ⊎ Memᴰ w ts × Memᴰ w (visit_all ts q).queue
unfolding visit_all
visit_all-from [] q w m = inl m
visit_all-from (to ∷ ts) q w m = elim (visit_all-from ts (visit q to) w m) [
  | inr (k, l) ↦ inr (Memᴰ.tail k, l)
  | inl k ↦ elim (visit-from q to w k) [
    | inl l ↦ inl l
    | inr (e, l) ↦ inr (Memᴰ.head e, visit_all-mono_queue ts (visit q to) w l)
  ]
]

-- What is queued has been reached.
pub visit-queue_from :
    (q : Queue) (to w : Str) → Memᴰ w (visit q to).queue → Memᴰ w q.queue ⊎ (w ≡ to)
visit-queue_from q to w m = elim (Bool-cases (contains q.reached to)) [
  | inl h ↦ inl (rw (visit_old q to h) at m)
  | inr h ↦ elim (Memᴰ.append_cases q.queue (rw (visit_new q to h) at m)) [
    | inl k ↦ inl k
    | inr k ↦ inr (Memᴰ.eq_of_singleton k)
  ]
]

pub visit_all-queue_from :
    (ts : List Str) (q : Queue) (w : Str)
    → Memᴰ w (visit_all ts q).queue
    → Memᴰ w q.queue ⊎ Memᴰ w ts
unfolding visit_all
visit_all-queue_from [] q w m = inl m
visit_all-queue_from (to ∷ ts) q w m = elim (visit_all-queue_from ts (visit q to) w m) [
  | inr k ↦ inr (Memᴰ.tail k)
  | inl k ↦ elim (visit-queue_from q to w k) [ inl l ↦ inl l | inr e ↦ inr (Memᴰ.head e) ]
]

pub visit-Distinct : (q : Queue) (to : Str) → Distinct q.reached → Distinct (visit q to).reached
visit-Distinct q to d = elim (Bool-cases (contains q.reached to)) [
  | inl h ↦ rw (visit_old q to h) d
  | inr h ↦
      rw (visit_new q to h)
        (not_mem_ne to q.reached (λ m. cc (h, (contains_iff q.reached to).1 m)), d)
]

pub visit_all-Distinct :
    (ts : List Str) (q : Queue) → Distinct q.reached → Distinct (visit_all ts q).reached
unfolding visit_all
visit_all-Distinct [] q d = d
visit_all-Distinct (to ∷ ts) q d = visit_all-Distinct ts (visit q to) (visit-Distinct q to d)
