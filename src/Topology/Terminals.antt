-- ===== src/Topology/Terminals.antt =====
-- The search of `Analyze` finds a terminal state where one can be reached.
use mathlib.Core.List.Memᴰ
use clanker_foundry.Prelude.{
  ℕ, zero, suc, ◌≡◌, refl, sym, ap, ◌∙◌, subst, ◌↔◌, ◌⊎◌, inl, inr, true, false, List, [], ◌∷◌,
  ◌++◌, map, Memᴰ, select, Bool-cases, arith, length, length-map,
}
use clanker_foundry.Text.{Str, str_eq, contains}
use clanker_foundry.Model.{State, Transition, Model}
use clanker_foundry.Model.Validate.{
  Queue, visit, visit_all, targets, reach_from, reached_states, start_queue,
}
use clanker_foundry.Model.Validate.Search.{Walk, here, step}
use clanker_foundry.Model.Validate.Transitions.{edge_of}
use clanker_foundry.Model.Validate.Visits.{visit_all-from, visit_all-mono_queue}
use clanker_foundry.Model.Validate.Loop.{reach_from-finished, reached_states_iff}
use clanker_foundry.Topology.{Search, Node, push_edge, push_edges, is_terminal, search, state_item}
use clanker_foundry.Topology.Paths.{PathTo, start, along, state_item-PathTo}

-- The search without its paths is the search of `Validate`.
abbrev forget : Search → Queue
forget q = record { reached = q.seen; queue = map (λ (n : Node). n.0) q.queue }

map_append : {A B : Type 0} (f : A → B) (xs ys : List A) → map f (xs ++ ys) ≡ map f xs ++ map f ys
map_append f [] ys = refl
map_append f (x ∷ xs) ys = ap (◌∷◌ (f x)) (map_append f xs ys)

forget-push_edge :
    (path : List Str) (q : Search) (t : Transition)
    → forget (push_edge path q t) ≡ visit (forget q) t.to
unfolding push_edge visit
forget-push_edge path q t = elim (Bool-cases (contains q.seen t.to)) [
  | inl e ↦ rw e refl
  | inr e ↦ rw e (
      ap (λ (ids : List Str). record { reached = t.to ∷ q.seen; queue = ids })
        (map_append (λ (n : Node). n.0) q.queue ((t.to, path ++ t.id ∷ []) ∷ [])))
]

forget-push_edges :
    (path : List Str) (us : List Transition) (q : Search)
    → forget (push_edges path us q) ≡ visit_all (map (λ t. t.to) us) (forget q)
unfolding push_edges visit_all
forget-push_edges path [] q = refl
forget-push_edges path (t ∷ us) q =
    forget-push_edges path us (push_edge path q t)
    ∙ ap (visit_all (map (λ u. u.to) us)) (forget-push_edge path q t)

targets-map :
    (ts : List Transition) (n : Str)
    → targets (map edge_of ts) n ≡ map (λ t. t.to) (select (λ t. str_eq t.from n) ts)
unfolding targets select
targets-map [] n = refl
targets-map (t ∷ ts) n = elim (Bool-cases (str_eq t.from n)) [
  | inl e ↦ rw e (ap (◌∷◌ t.to) (targets-map ts n))
  | inr e ↦ rw e (targets-map ts n)
]

module _ (states : List State) (ts : List Transition) (s : Str) where
  -- What has been taken off the queue is no terminal state.
  abbrev Passed : Queue → Type 0
  Passed q = (w : Str) → Memᴰ w q.reached → Memᴰ w q.queue ⊎ (is_terminal states w ≡ false)

  Passed-round :
      (n : Str) (q : Queue) (rest : List Str)
      → q.queue ≡ n ∷ rest
      → is_terminal states n ≡ false
      → Passed q
      → Passed (visit_all (targets (map edge_of ts) n) (record q { queue = rest }))
  Passed-round n q rest e open_state h w m =
      let us = targets (map edge_of ts) n in
      let q' = record q { queue = rest } in
      elim (visit_all-from us q' w m) [
        | inr (k, l) ↦ inl l
        | inl k ↦ elim (h w k) [
          | inr c ↦ inr c
          | inl l ↦ elim (Memᴰ.cases_cons (subst (Memᴰ w) e l)) [
            | inl same ↦ inr (subst (λ x. is_terminal states x ≡ false) (sym same) open_state)
            | inr l' ↦ inl (visit_all-mono_queue us q' w l')
          ]
        ]
      ]

  search_open :
      (fuel : ℕ) (seen : List Str) (queue : List Node)
      → (search states ts s fuel (record { seen = seen; queue = queue })).has_terminal_path ≡ false
      → Passed (forget (record { seen = seen; queue = queue }))
      → Passed (reach_from (map edge_of ts) fuel (forget (record { seen = seen; queue = queue })))
  unfolding search reach_from
  search_open zero seen queue e h = h
  search_open (suc fuel) seen [] e h = h
  search_open (suc fuel) seen (n ∷ rest) e h = elim (Bool-cases (is_terminal states (n.0))) [
    | inl c ↦ absurd (ground (arith, c, e))
    | inr c ↦
        let us = select (λ (t : Transition). str_eq t.from (n.0)) ts in
        let q' : Search = record { seen = seen; queue = rest } in
        let next = push_edges (n.1) us q' in
        let same : forget next ≡ visit_all (targets (map edge_of ts) (n.0)) (forget q') =
          forget-push_edges (n.1) us q'
          ∙ ap (λ vs. visit_all vs (forget q')) (sym (targets-map ts (n.0))) in
        subst (λ q. Passed (reach_from (map edge_of ts) fuel q)) same
          (search_open fuel next.seen next.queue (rw c at e) (
            subst Passed (sym same) (
              Passed-round (n.0) (forget (record { seen = seen; queue = n ∷ rest }))
                (map (λ (k : Node). k.0) rest) refl c h)))
  ]

PathTo-Walk :
    (ts : List Transition) (s : Str) {u : Str} {ids : List Str}
    → PathTo ts s u ids
    → Walk (map edge_of ts) s u
PathTo-Walk ts s start = here
PathTo-Walk ts s (along {u} p t m e) =
    step (PathTo-Walk ts s p)
      (subst (λ x. Memᴰ {A = Str × Str} (x, t.to) (map edge_of ts)) e (Memᴰ.map edge_of m))

open_states :
    (m : Model) (s : State)
    → (state_item m s).has_terminal_path ≡ false
    → {w : Str} → Walk (map edge_of m.transitions) s.id w
    → is_terminal m.states w ≡ false
unfolding state_item reached_states
open_states m s e {w} p =
    let edges = map edge_of m.transitions in
    let passed =
      search_open m.states m.transitions s.id (suc (length m.transitions)) (s.id ∷ [])
        ((s.id, []) ∷ []) e (λ v l. inl l) in
    let enough = ap suc (length-map edge_of m.transitions) in
    let reached = (reached_states_iff edges s.id w).1 p in
    let all_passed =
      subst (λ fuel. Passed m.states m.transitions s.id (reach_from edges fuel (start_queue s.id)))
        (sym enough) passed in
    elim (all_passed w reached) [
      | inl l ↦ absurd (Memᴰ.not-nil (subst (Memᴰ w) (reach_from-finished edges s.id) l))
      | inr c ↦ c
    ]

-- A state's item in the report has a path exactly if a walk along the transitions leads from the
-- state to a terminal one.
pub state_item_iff :
    (m : Model) (s : State)
    → ((state_item m s).has_terminal_path ≡ true)
      ↔ ((w : Str) × Walk (map edge_of m.transitions) s.id w × (is_terminal m.states w ≡ true))
state_item_iff m s = (
  λ h.
      let (p, e) = state_item-PathTo m s h in
      ((state_item m s).terminal_id, PathTo-Walk m.transitions s.id p, e),
  λ (w, p, e). elim (Bool-cases (state_item m s).has_terminal_path) [
    | inl h ↦ h
    | inr h ↦ cc (open_states m s h p, e)
  ],
)
