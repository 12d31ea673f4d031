-- ===== src/Model/Validate/Search.antt =====
-- The search of `Validate` over the declared edges: it ends, and it reaches exactly the states to
-- which a walk leads.
use mathlib.Core.List.Memᴰ
use clanker_foundry.Prelude.{
  ℕ, suc, ◌≤◌, ◌≡◌, sym, ap, inl, inr, false, List, [], ◌∷◌, Memᴰ, length, arith, Bool-cases,
  if◌then◌else◌, select,
}
use clanker_foundry.Text.{Str, str_eq, contains}
use clanker_foundry.Text.Laws.{str_eq_iff}
use clanker_foundry.Model.Validate.{targets}

-- A walk along declared edges.
pub data Walk (edges : List (Str × Str)) (initial : Str) : Str → Type 0 where
  here : Walk edges initial initial
  step : {u v : Str} → Walk edges initial u → Memᴰ (u, v) edges → Walk edges initial v

-- The edges whose target is not reached yet.
unfoldable pub unreached : List Str → List (Str × Str) → ℕ
unreached reached [] = 0
unreached reached (e ∷ edges) =
    let rest = unreached reached edges in if contains reached e.1 then rest else suc rest

unreached-cons :
    (x : Str) (reached : List Str) (edges : List (Str × Str))
    → unreached (x ∷ reached) edges ≤ unreached reached edges
unfolding unreached contains
unreached-cons x reached [] = omega arith
unreached-cons x reached (e ∷ edges) = ground (arith, unreached-cons x reached edges)

pub unreached-new :
    (e : Str × Str) (reached : List Str) (edges : List (Str × Str))
    → Memᴰ e edges
    → contains reached e.1 ≡ false
    → suc (unreached (e.1 ∷ reached) edges) ≤ unreached reached edges
unfolding unreached contains
unreached-new e reached [] m h = absurd (Memᴰ.not-nil m)
unreached-new e reached (d ∷ edges) (Memᴰ.head p) h =
    ground
      (arith, unreached-cons e.1 reached edges, str_eq_iff d.1 e.1, ap (λ (x : Str × Str). x.1) p)
unreached-new e reached (d ∷ edges) (Memᴰ.tail m) h =
    ground (arith, unreached-new e reached edges m h)

pub unreached-le-length :
    (reached : List Str) (edges : List (Str × Str)) → unreached reached edges ≤ length edges
unfolding unreached
unreached-le-length reached [] = omega arith
unreached-le-length reached (e ∷ edges) = ground (arith, unreached-le-length reached edges)

-- `edges[n]` holds the targets of the edges out of `n`.
pub targets_of :
    (edges : List (Str × Str)) (n v : Str) → Memᴰ v (targets edges n) → Memᴰ (n, v) edges
unfolding targets select
targets_of [] n v m = absurd (Memᴰ.not-nil m)
targets_of (e ∷ edges) n v m = elim (Bool-cases (str_eq e.0 n)) [
  | inl h ↦ elim (Memᴰ.cases_cons (rw (h, if◌then◌else◌) at m)) [
    | inl p ↦ Memᴰ.head (λ i. (sym ((str_eq_iff e.0 n).0 h) i, p i))
    | inr k ↦ Memᴰ.tail (targets_of edges n v k)
  ]
  | inr h ↦ Memᴰ.tail (targets_of edges n v (rw (h, if◌then◌else◌) at m))
]

pub targets_has :
    (edges : List (Str × Str)) (n v : Str) → Memᴰ (n, v) edges → Memᴰ v (targets edges n)
unfolding targets select
targets_has [] n v m = absurd (Memᴰ.not-nil m)
targets_has (e ∷ edges) n v (Memᴰ.head p) =
    rw ((str_eq_iff e.0 n).1 (ap (λ x. x.0) (sym p)), if◌then◌else◌)
      (Memᴰ.head (ap (λ (x : Str × Str). x.1) p))
targets_has (e ∷ edges) n v (Memᴰ.tail m) = elim (Bool-cases (str_eq e.0 n)) [
  | inl h ↦ rw (h, if◌then◌else◌) (Memᴰ.tail (targets_has edges n v m))
  | inr h ↦ rw (h, if◌then◌else◌) (targets_has edges n v m)
]
