-- ===== src/Model/Validate/Transitions.antt =====
-- What holds of the transitions that `Validate` has gone through.
use mathlib.Core.List.Memᴰ
use clanker_foundry.Prelude.{
  ◌≡◌, refl, sym, ap, subst, ◌∙◌, ◌⊎◌, inl, inr, true, false, List, [], ◌∷◌, ◌++◌, Memᴰ, All, arith,
  ok, some, Result-cases, map, append_assoc, append-nil,
}
use clanker_foundry.Text.{Str, contains}
use clanker_foundry.Text.Laws.{contains_iff}
use clanker_foundry.Distinct.{Distinct, not_mem_ne}
use clanker_foundry.Model.{State, Transition}
use clanker_foundry.Model.Validate.{
  Scan, find_state, check_transition, check_transitions, check_guard_refs, check_effects, pair_key,
}
use clanker_foundry.Model.Validate.Records.{IsAccepted, check_transition-eq-ok}

-- The references of one transition are declared and differ; they are what it adds to the used ones.
check_guard_refs-ok :
    (declared guards seen used used' : List Str)
    → check_guard_refs declared guards seen used ≡ ok used'
    → All (λ g. Memᴰ g declared) guards
      × Distinct guards
      × ((g : Str) → Memᴰ g guards → ¬ Memᴰ g seen)
      × ((g : Str) → Memᴰ g used' → Memᴰ g used ⊎ Memᴰ g guards)
unfolding check_guard_refs
check_guard_refs-ok declared [] seen used used' h =
    (tt, tt, λ g m k. Memᴰ.not-nil m, λ g m. inl (subst (Memᴰ g) (ground arith) m))
check_guard_refs-ok declared (g ∷ guards) seen used used' h =
    let is_declared : contains declared g ≡ true = ground arith in
    let is_new : contains seen g ≡ false = ground arith in
    let (all, distinct, fresh, from) =
      check_guard_refs-ok declared guards (g ∷ seen) (g ∷ used) used' (ground arith) in
    (
      ((contains_iff declared g).0 is_declared, all),
      (not_mem_ne g guards (λ m. fresh g m (Memᴰ.head refl)), distinct),
      λ x m k. elim (Memᴰ.cases_cons m) [
        | inl e ↦ cc (is_new, (contains_iff seen g).1 (subst (λ v. Memᴰ v seen) e k))
        | inr l ↦ fresh x l (Memᴰ.tail k)
      ],
      λ x m. elim (from x m) [
        | inr k ↦ inr (Memᴰ.tail k)
        | inl k ↦ elim (Memᴰ.cases_cons k) [ inl e ↦ inr (Memᴰ.head e) | inr l ↦ inl l ]
      ],
    )

-- A transition that `Validate` takes.
pub record IsTransitionOk (states : List State) (guards : List Str) (t : Transition) : Type 0 where
  pub source : State
  pub source_found : find_state states t.from ≡ some source
  pub source_open : source.terminal ≡ false
  pub target : State
  pub target_found : find_state states t.to ≡ some target
  pub refs_declared : All (λ g. Memᴰ g guards) t.guards
  pub refs_distinct : Distinct t.guards
  pub effects_checked : check_effects t.effects ≡ ok tt

abbrev pub edge_of : Transition → Str × Str
edge_of t = (t.from, t.to)

module _ (states : List State) (guards : List Str) where
  pub record AreAccepted (transitions : List Transition) (scan scan' : Scan) : Type 0 where
    pub all_ok : All (IsTransitionOk states guards) transitions
    pub edges_grow : scan'.edges ≡ scan.edges ++ map edge_of transitions
    pub pairs_distinct : Distinct (map pair_key transitions)
    pub pairs_fresh : (p : Str) → Memᴰ p (map pair_key transitions) → ¬ Memᴰ p scan.pairs
    pub ids_distinct : Distinct (map (λ t. t.id) transitions)
    pub ids_fresh : (i : Str) → Memᴰ i (map (λ t. t.id) transitions) → ¬ Memᴰ i scan.ids
    pub out_from :
        (s : Str) → Memᴰ s scan'.out → Memᴰ s scan.out ⊎ Memᴰ s (map (λ t. t.from) transitions)
    pub used_from :
        (g : Str)
        → Memᴰ g scan'.used_guards
        → Memᴰ g scan.used_guards ⊎ ((t : Transition) × Memᴰ t transitions × Memᴰ g t.guards)

  IsTransitionOk-of_IsAccepted :
      (t : Transition) (scan scan' : Scan)
      → IsAccepted states guards t scan scan'
      → IsTransitionOk states guards t
  IsTransitionOk-of_IsAccepted t scan scan' a =
      let (declared, distinct, fresh, from) =
        check_guard_refs-ok guards t.guards [] scan.used_guards scan'.used_guards a.refs_checked in
      record {
        source = a.source;
        source_found = a.source_found;
        source_open = a.source_open;
        target = a.target;
        target_found = a.target_found;
        refs_declared = declared;
        refs_distinct = distinct;
        effects_checked = a.effects_checked;
      }

  new_of :
      (set set' : List Str) (x : Str) → set' ≡ x ∷ set → (a : Str) → ¬ Memᴰ a set' → ¬ Memᴰ a set
  new_of set set' x e a f m = f (subst (Memᴰ a) (sym e) (Memᴰ.tail m))

  self_of : (set set' : List Str) (x : Str) → set' ≡ x ∷ set → ¬ Memᴰ x set' → ⊥
  self_of set set' x e f = f (subst (Memᴰ x) (sym e) (Memᴰ.head refl))

  not_in : (set : List Str) (x : Str) → contains set x ≡ false → ¬ Memᴰ x set
  not_in set x e m = cc (e, (contains_iff set x).1 m)

  -- Freshness of `x`, which is new, and of values that are new after it.
  fresh-cons :
      (set set' : List Str) (x : Str) (xs : List Str)
      → set' ≡ x ∷ set
      → contains set x ≡ false
      → ((a : Str) → Memᴰ a xs → ¬ Memᴰ a set')
      → (a : Str) → Memᴰ a (x ∷ xs)
      → ¬ Memᴰ a set
  fresh-cons set set' x xs e new f a m k = elim (Memᴰ.cases_cons m) [
    | inl same ↦ not_in set x new (Memᴰ.cast (sym same) k)
    | inr l ↦ new_of set set' x e a (f a l) k
  ]

  AreAccepted-nil : (scan scan' : Scan) → scan ≡ scan' → AreAccepted [] scan scan'
  AreAccepted-nil scan scan' e = record {
    all_ok = tt;
    edges_grow = ap (λ s. s.edges) (sym e) ∙ sym (append-nil scan.edges);
    pairs_distinct = tt;
    pairs_fresh = λ p m k. Memᴰ.not-nil m;
    ids_distinct = tt;
    ids_fresh = λ p m k. Memᴰ.not-nil m;
    out_from = λ s m. inl (subst (λ v. Memᴰ s v.out) (sym e) m);
    used_from = λ g m. inl (subst (λ v. Memᴰ g v.used_guards) (sym e) m);
  }

  AreAccepted-cons :
      (t : Transition) (transitions : List Transition) (scan next scan' : Scan)
      → IsAccepted states guards t scan next
      → AreAccepted transitions next scan'
      → AreAccepted (t ∷ transitions) scan scan'
  AreAccepted-cons t transitions scan next scan' a r =
      let (declared, distinct, fresh, from) =
        check_guard_refs-ok guards t.guards [] scan.used_guards next.used_guards a.refs_checked in
      record {
        all_ok = (IsTransitionOk-of_IsAccepted t scan next a, r.all_ok);
        edges_grow =
            r.edges_grow
            ∙ (ap (λ es. es ++ map edge_of transitions) a.edges_grow
                ∙ append_assoc scan.edges (edge_of t ∷ []) (map edge_of transitions));
        pairs_distinct = (
          not_mem_ne (pair_key t) (map pair_key transitions)
              (λ m. self_of scan.pairs next.pairs (pair_key t) a.pairs_grow (r.pairs_fresh _ m)),
          r.pairs_distinct,
        );
        pairs_fresh =
            fresh-cons scan.pairs next.pairs (pair_key t) (map pair_key transitions) a.pairs_grow
              a.pair_new r.pairs_fresh;
        ids_distinct = (
          not_mem_ne t.id (map (λ u. u.id) transitions)
              (λ m. self_of scan.ids next.ids t.id a.ids_grow (r.ids_fresh _ m)),
          r.ids_distinct,
        );
        ids_fresh =
            fresh-cons scan.ids next.ids t.id (map (λ u. u.id) transitions) a.ids_grow a.id_new
              r.ids_fresh;
        out_from = λ s m. elim (r.out_from s m) [
          | inr k ↦ inr (Memᴰ.tail k)
          | inl k ↦ elim (Memᴰ.cases_cons (subst (Memᴰ s) a.out_grow k)) [
            | inl e ↦ inr (Memᴰ.head e)
            | inr l ↦ inl l
          ]
        ];
        used_from = λ g m. elim (r.used_from g m) [
          | inr (u, k, l) ↦ inr (u, Memᴰ.tail k, l)
          | inl k ↦ elim (from g k) [ inl l ↦ inl l | inr l ↦ inr (t, Memᴰ.head refl, l) ]
        ];
      }

  pub check_transitions-ok :
      (transitions : List Transition) (scan scan' : Scan)
      → check_transitions states guards transitions scan ≡ ok scan'
      → AreAccepted transitions scan scan'
  unfolding check_transitions
  check_transitions-ok [] scan scan' h = AreAccepted-nil scan scan' (ground arith)
  check_transitions-ok (t ∷ transitions) scan scan' h =
      elim (Result-cases (check_transition states guards t scan)) [
        | inr (x, e) ↦ absurd (ground arith)
        | inl (next, e) ↦
            AreAccepted-cons t transitions scan next scan'
              (check_transition-eq-ok states guards t scan next e)
              (check_transitions-ok transitions next scan' (ground arith))
      ]
