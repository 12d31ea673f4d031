-- ===== src/Topology/Paths.antt =====
-- The search of `Analyze` for a terminal state.
use mathlib.Core.List.Memᴰ
use clanker_foundry.Prelude.{
  ℕ, zero, suc, ◌≡◌, refl, sym, ap, ◌∙◌, subst, inl, inr, true, List, [], ◌∷◌, ◌++◌, Memᴰ, select,
  Bool-cases, length,
}
use clanker_foundry.Text.{Str, str_eq, contains}
use clanker_foundry.Text.Laws.{str_eq_iff}
use clanker_foundry.Model.{State, Transition, Model}
use clanker_foundry.Topology.{
  Search, Node, StateItem, push_edge, push_edges, is_terminal, search, state_item,
}

-- A path along transitions, with their IDs.
pub data PathTo (ts : List Transition) (s : Str) : Str → List Str → Type 0 where
  start : PathTo ts s s []
  along :
      {u : Str} {ids : List Str}
      → PathTo ts s u ids
      → (t : Transition) → Memᴰ t ts
      → t.from ≡ u
      → PathTo ts s t.to (ids ++ t.id ∷ [])

selected_from :
    (ts : List Transition) (u : Str) {t : Transition}
    → Memᴰ t (select (λ x. str_eq x.from u) ts)
    → Memᴰ t ts × (t.from ≡ u)
unfolding select
selected_from [] u m = absurd (Memᴰ.not-nil m)
selected_from (x ∷ ts) u {t} m = elim (Bool-cases (str_eq x.from u)) [
  | inr e ↦ let (n, q) = selected_from ts u (rw e at m) in (Memᴰ.tail n, q)
  | inl e ↦
      let m' : Memᴰ t (x ∷ select (λ y. str_eq y.from u) ts) = rw e at m in
      elim (Memᴰ.cases_cons m') [
        | inl p ↦ (Memᴰ.head p, ap (λ y. y.from) p ∙ (str_eq_iff x.from u).0 e)
        | inr n ↦ let (k, q) = selected_from ts u n in (Memᴰ.tail k, q)
      ]
]

module _ (ts : List Transition) (s : Str) where
  -- Every node of the queue has a path that leads to it.
  abbrev HasPaths : List Node → Type 0
  HasPaths queue = (n : Node) → Memᴰ n queue → PathTo ts s (n.0) (n.1)

  push_edge-HasPaths :
      (n : Node) (q : Search) (t : Transition)
      → PathTo ts s (n.0) (n.1)
      → Memᴰ t ts
      → t.from ≡ n.0
      → HasPaths q.queue
      → HasPaths (push_edge (n.1) q t).queue
  unfolding push_edge
  push_edge-HasPaths n q t p m e h = elim (Bool-cases (contains q.seen t.to)) [
    | inl c ↦ rw c h
    | inr c ↦ rw c (λ k l. elim (Memᴰ.append_cases q.queue l) [
      | inl l' ↦ h k l'
      | inr l' ↦ elim (Memᴰ.cases_cons l') [
        | inl same ↦ subst (λ (x : Node). PathTo ts s (x.0) (x.1)) (sym same) (along p t m e)
        | inr none_left ↦ absurd (Memᴰ.not-nil none_left)
      ]
    ])
  ]

  push_edges-HasPaths :
      (n : Node) (us : List Transition) (q : Search)
      → PathTo ts s (n.0) (n.1)
      → ((t : Transition) → Memᴰ t us → Memᴰ t ts × (t.from ≡ n.0))
      → HasPaths q.queue
      → HasPaths (push_edges (n.1) us q).queue
  unfolding push_edges
  push_edges-HasPaths n [] q p f h = h
  push_edges-HasPaths n (t ∷ us) q p f h =
      let (m, e) = f t (Memᴰ.head refl) in
      push_edges-HasPaths n us (push_edge (n.1) q t) p (λ u l. f u (Memᴰ.tail l))
        (push_edge-HasPaths n q t p m e h)

  abbrev IsFound : List State → StateItem → Type 0
  IsFound states item =
      item.has_terminal_path ≡ true
      → PathTo ts s item.terminal_id item.transition_ids
        × (is_terminal states item.terminal_id ≡ true)

  search-IsFound :
      (states : List State) (fuel : ℕ) (seen : List Str) (queue : List Node)
      → HasPaths queue
      → IsFound states (search states ts s fuel (record { seen = seen; queue = queue }))
  unfolding search
  search-IsFound states zero seen queue h = λ e. cc
  search-IsFound states (suc fuel) seen [] h = λ e. cc
  search-IsFound states (suc fuel) seen (n ∷ rest) h =
      let next =
        push_edges (n.1) (select (λ (t : Transition). str_eq t.from (n.0)) ts)
          (record { seen = seen; queue = rest }) in
      elim (Bool-cases (is_terminal states (n.0))) [
        | inl e ↦ rw e (λ d. (h n (Memᴰ.head refl), e))
        | inr e ↦ rw e (
            search-IsFound states fuel next.seen next.queue (
              push_edges-HasPaths n (select (λ x. str_eq x.from (n.0)) ts)
                (record { seen = seen; queue = rest }) (h n (Memᴰ.head refl))
                (λ t m. selected_from ts (n.0) m) (λ k l. h k (Memᴰ.tail l))))
      ]

-- The path that a report gives for a state that has one leads from that state along transitions,
-- whose IDs it lists in order, to a terminal state.
pub state_item-PathTo :
    (m : Model) (s : State)
    → (state_item m s).has_terminal_path ≡ true
    → PathTo m.transitions s.id (state_item m s).terminal_id (state_item m s).transition_ids
      × (is_terminal m.states (state_item m s).terminal_id ≡ true)
unfolding state_item
state_item-PathTo m s =
    search-IsFound m.transitions s.id m.states (suc (length m.transitions)) (s.id ∷ [])
      ((s.id, []) ∷ [])
      (λ n l. elim (Memᴰ.cases_cons l) [
        | inl e ↦ subst (λ (x : Node). PathTo m.transitions s.id (x.0) (x.1)) (sym e) start
        | inr k ↦ absurd (Memᴰ.not-nil k)
      ])
