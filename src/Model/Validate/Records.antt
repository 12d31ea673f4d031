-- ===== src/Model/Validate/Records.antt =====
-- What holds of the records that `Validate` has gone through.
use clanker_foundry.Prelude.{
  ℕ, ◌≡◌, inl, inr, true, false, some, List, [], ◌∷◌, ◌++◌, Memᴰ, All, arith, Option-cases, ok,
  Result-cases, find_first-some,
}
use clanker_foundry.Text.{Str, str_eq, contains}
use clanker_foundry.Text.Laws.{str_eq_iff}
use clanker_foundry.Model.Validate.Ids.{Extends, add_id-eq-some, Extends-add}
use clanker_foundry.Model.Typing.{expr_type}
use clanker_foundry.Model.{string, uint64, strings, bool, State, Guard, Transition}
use clanker_foundry.Model.Validate.{
  Scan, find_state, check_transition, check_guard_refs, check_effects, pair_key, add_id,
  check_guards, guard_ids, check_effects,
}

pub find_state-eq-some :
    (states : List State) (id : Str) (s : State)
    → find_state states id ≡ some s
    → Memᴰ s states × (s.id ≡ id)
unfolding find_state
find_state-eq-some states id s h =
    let (m, e) = find_first-some (λ x. str_eq x.id id) states s h in (m, (str_eq_iff s.id id).0 e)

module _ (states : List State) (guards : List Str) where
  pub record IsAccepted (t : Transition) (scan scan' : Scan) : Type 0 where
    pub source : State
    pub source_found : find_state states t.from ≡ some source
    pub source_open : source.terminal ≡ false
    pub target : State
    pub target_found : find_state states t.to ≡ some target
    pub id_new : contains scan.ids t.id ≡ false
    pub pair_new : contains scan.pairs (pair_key t) ≡ false
    pub ids_grow : scan'.ids ≡ t.id ∷ scan.ids
    pub pairs_grow : scan'.pairs ≡ pair_key t ∷ scan.pairs
    pub out_grow : scan'.out ≡ t.from ∷ scan.out
    pub edges_grow : scan'.edges ≡ scan.edges ++ (t.from, t.to) ∷ []
    pub refs_checked : check_guard_refs guards t.guards [] scan.used_guards ≡ ok scan'.used_guards
    pub effects_checked : check_effects t.effects ≡ ok tt

  pub check_transition-eq-ok :
      (t : Transition) (scan scan' : Scan)
      → check_transition states guards t scan ≡ ok scan'
      → IsAccepted t scan scan'
  unfolding check_transition
  check_transition-eq-ok t scan scan' h = elim (Option-cases (find_state states t.from)) [
    | inl e ↦ absurd (ground arith)
    | inr (source, e) ↦ elim (Option-cases (find_state states t.to)) [
      | inl d ↦ absurd (ground arith)
      | inr (target, d) ↦ ground (arith, add_id-eq-some scan.ids t.id)
    ]
  ]

-- A guard that `Validate` takes.
pub record IsGuardOk (requirements : List Str) (g : Guard) : Type 0 where
  pub requirement_declared : contains requirements g.requirement ≡ true
  pub nodes_before : ℕ
  pub nodes_after : ℕ
  pub boolean : expr_type g.condition 0 nodes_before ≡ ok (bool, nodes_after)

pub guard_step :
    (requirements : List Str) (g : Guard) (guards : List Guard) (ids ids' next : List Str) (n : ℕ)
    → add_id ids g.id ≡ some next
    → check_guards requirements (g ∷ guards) ids n ≡ ok ids'
    → (n' : ℕ) × (contains requirements g.requirement ≡ true)
      × (expr_type g.condition 0 n ≡ ok (bool, n'))
      × (check_guards requirements guards next n' ≡ ok ids')
unfolding check_guards
guard_step requirements g guards ids ids' next n e h =
    elim (Result-cases (expr_type g.condition 0 n)) [
      | inr (x, d) ↦ absurd (ground arith)
      | inl ((string, n'), d) ↦ absurd (ground arith)
      | inl ((uint64, n'), d) ↦ absurd (ground arith)
      | inl ((strings, n'), d) ↦ absurd (ground arith)
      | inl ((bool, n'), d) ↦ (n', ground arith, d, ground arith)
    ]

pub check_guards-Extends :
    (requirements : List Str) (guards : List Guard) (ids ids' : List Str) (n : ℕ)
    → check_guards requirements guards ids n ≡ ok ids'
    → Extends ids (guard_ids guards) ids' × All (IsGuardOk requirements) guards
unfolding check_guards guard_ids
check_guards-Extends requirements [] ids ids' n h = (ground arith, tt)
check_guards-Extends requirements (g ∷ guards) ids ids' n h =
    elim (Option-cases (add_id ids g.id)) [
      | inl e ↦ absurd (ground arith)
      | inr (next, e) ↦
          let (n', declared, typed, rest) = guard_step requirements g guards ids ids' next n e h in
          let (extends, all) = check_guards-Extends requirements guards next ids' n' rest in
          (
            Extends-add ids g.id next (guard_ids guards) ids' e extends,
            (
              record {
                requirement_declared = declared;
                nodes_before = n;
                nodes_after = n';
                boolean = typed;
              },
              all,
            ),
          )
    ]
