-- ===== src/Patch/Plan/Targets.antt =====
-- No patch that passes `preflight` names a target twice.
use mathlib.Core.List.Memᴰ
use clanker_foundry.Prelude.{
  ◌≡◌, refl, sym, inl, inr, true, ◌^◌, ◌≤◌, some, List, [], ◌∷◌, map, Memᴰ, ok, any_of_mem, any_of,
  arith, Bool-cases, length,
}
use clanker_foundry.Text.{Str}
use clanker_foundry.Distinct.{Distinct, not_mem_ne}
use clanker_foundry.Impact.{key_eq}
use clanker_foundry.Impact.Elements.{key_eq_iff}
use clanker_foundry.Patch.{Operation, Patch}
use clanker_foundry.Patch.Bytes.{patch_bytes}
use clanker_foundry.Patch.Shape.{check_targets, check_shapes, preflight, target_of}

check_targets-ok :
    (operations : List Operation) (seen : List (Str × Str))
    → check_targets operations seen ≡ ok tt
    → Distinct (map target_of operations)
      × ((k : Str × Str) → Memᴰ k (map target_of operations) → ¬ Memᴰ k seen)
unfolding check_targets
check_targets-ok [] seen h = (tt, λ k m. absurd (Memᴰ.not-nil m))
check_targets-ok (o ∷ operations) seen h = elim (Bool-cases (any_of (key_eq (target_of o)) seen)) [
  | inl e ↦ absurd (ground (arith, e))
  | inr e ↦
      let (d, fresh) = check_targets-ok operations (target_of o ∷ seen) (ground (arith, e)) in
      (
        (
          not_mem_ne (target_of o) (map target_of operations)
              (λ m. fresh (target_of o) m (Memᴰ.head refl)),
          d,
        ),
        λ k m n. elim (Memᴰ.cases_cons m) [
          | inl q ↦
              let found : any_of (key_eq (target_of o)) seen ≡ true =
                any_of_mem (key_eq (target_of o)) seen n ((key_eq_iff (target_of o) k).1 (sym q)) in
              cc (e, found)
          | inr l ↦ fresh k l (Memᴰ.tail n)
        ],
      )
]

abbrev Checks : Patch → List Operation → Type 0
Checks p operations =
    (p.operations ≡ some operations)
    × (length operations ≤ 64)
    × (check_shapes operations 0 ≡ ok tt)
    × (length (patch_bytes p.profile p.before_digest operations) ≤ 2 ^ 20)
    × (check_targets operations [] ≡ ok tt)

-- A patch that passes `preflight` has at most 64 operations, which have passed the checks of their
-- shape, no two of them with the same kind and ID, and its encoding has at most 2 ^ 20 bytes.
pub preflight-ok :
    (p : Patch) (operations : List Operation)
    → preflight p ≡ ok operations
    → (p.operations ≡ some operations)
      × Distinct (map target_of operations)
      × (length operations ≤ 64)
      × (length (patch_bytes p.profile p.before_digest operations) ≤ 2 ^ 20)
      × (check_shapes operations 0 ≡ ok tt)
unfolding preflight
preflight-ok p operations h =
    let (same, small, shaped, bytes, targets) : Checks p operations = ground arith in
    (same, (check_targets-ok operations [] targets).0, small, bytes, shaped)
