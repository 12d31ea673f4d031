-- ===== src/Merge/Swap.antt =====
-- The merge does not depend on which side is called left.
use clanker_foundry.Prelude.{
  ◌≡◌, refl, ap, ◌∙◌, subst, inl, inr, Bool, Option, none, some, arith, List, [], ◌∷◌, ◌++◌, Memᴰ,
  Result, ok, err, Result-cases,
}
use clanker_foundry.Text.{Str, str, str_eq}
use clanker_foundry.Text.Laws.{str_eq_iff}
use clanker_foundry.Sort.Unique.{strict_eq}
use clanker_foundry.Model.{Model}
use clanker_foundry.Model.Equal.{
  Decides, state_eq_iff, requirement_eq_iff, guard_eq_iff, transition_eq_iff, state_eq,
  requirement_eq, guard_eq, transition_eq,
}
use clanker_foundry.Merge.{
  Merge, MergeError, Conflict, lookup, all_keys, merge_keys, record_step, records, reason_of, root,
  combine, merge, prepare, conclude, invalid_input,
}
use clanker_foundry.Merge.Choice.{choose_swap}
use clanker_foundry.Merge.Records.{all_keys_iff, all_keys-IsStrict}

reason_swap : {A : Type 0} (b l r : Option A) → reason_of b l r ≡ reason_of b r l
unfolding reason_of
reason_swap b l r = ground arith

all_keys_swap : {A : Type 0} (id : A → Str) (b l r : List A) → all_keys id b l r ≡ all_keys id b r l
all_keys_swap id b l r =
    strict_eq (λ s. s) (all_keys id b l r) (all_keys id b r l) (all_keys-IsStrict id b l r)
      (all_keys-IsStrict id b r l) (turn l r) (turn r l)
  where
    turn : (l r : List _) (k : Str) → Memᴰ k (all_keys id b l r) → Memᴰ k (all_keys id b r l)
    turn l r k m = (all_keys_iff id b r l k).1 (elim ((all_keys_iff id b l r k).0 m) [
      | inl n ↦ inl n
      | inr (inl n) ↦ inr (inr n)
      | inr (inr n) ↦ inr (inl n)
    ])

module _ {A : Type 0} (eq : A → A → Bool) (decides : Decides eq) (id : A → Str) (kind : Str)
    (b l r : List A) where
  step_swap :
      (k : Str) (u v w : Option A) {c d : Option (Option A)} {rest more : List A × List Conflict}
      → c ≡ d
      → rest ≡ more
      → record_step kind k u v w c rest ≡ record_step kind k u w v d more
  unfolding record_step
  step_swap k u v w {c} {d} {rest} {more} e f =
      subst (λ x. record_step kind k u v w c rest ≡ record_step kind k u w v x more) e
        (subst (λ x. record_step kind k u v w c rest ≡ record_step kind k u w v c x) f (same c))
    where
      same :
          (c : Option (Option A))
          → record_step kind k u v w c rest ≡ record_step kind k u w v c rest
      same none = λ i. (
        rest.0,
        record { kind = kind; id = k; field = []; reason = reason_swap u v w i } ∷ rest.1,
      )
      same (some none) = refl
      same (some (some a)) = refl

  merge_keys_swap :
      (keys : List Str) → merge_keys eq id kind b l r keys ≡ merge_keys eq id kind b r l keys
  unfolding merge_keys
  merge_keys_swap [] = refl
  merge_keys_swap (k ∷ keys) =
      step_swap k (lookup id b k) (lookup id l k) (lookup id r k)
        (choose_swap eq decides (lookup id b k) (lookup id l k) (lookup id r k))
        (merge_keys_swap keys)

  records_swap : records eq id kind b l r ≡ records eq id kind b r l
  unfolding records
  records_swap =
      merge_keys_swap (all_keys id b l r)
      ∙ ap (merge_keys eq id kind b r l) (all_keys_swap id b l r)

root_swap : (field b l r : Str) → root field b l r ≡ root field b r l
unfolding root
root_swap field b l r = rw (choose_swap str_eq str_eq_iff (some b) (some l) (some r), root) refl

combine_swap : (b l r : Model) → combine b l r ≡ combine b r l
unfolding combine
combine_swap b l r =
    let i₁ = root_swap (str "id") b.id l.id r.id in
    let i₂ = root_swap (str "initial") b.initial l.initial r.initial in
    let i₃ =
      records_swap state_eq state_eq_iff (λ s. s.id) (str "state") b.states l.states r.states in
    let i₄ =
      records_swap requirement_eq requirement_eq_iff (λ q. q.id) (str "requirement") b.requirements
        l.requirements r.requirements in
    let i₅ =
      records_swap guard_eq guard_eq_iff (λ g. g.id) (str "guard") b.guards l.guards r.guards in
    let i₆ =
      records_swap transition_eq transition_eq_iff (λ t. t.id) (str "transition") b.transitions
        l.transitions r.transitions in
    λ i. (
      record {
        version = b.version;
        id = (i₁ i).0;
        initial = (i₂ i).0;
        states = (i₃ i).0;
        requirements = (i₄ i).0;
        guards = (i₅ i).0;
        transitions = (i₆ i).0;
      },
      (i₁ i).1 ++ ((i₂ i).1 ++ ((i₃ i).1 ++ ((i₄ i).1 ++ ((i₅ i).1 ++ (i₆ i).1)))),
    )

-- A result with the digests of its sides exchanged.
abbrev pub swap_sides : Merge → Merge
swap_sides m = record m { left_digest = m.right_digest; right_digest = m.left_digest }

abbrev pub map_ok : (Merge → Merge) → Result MergeError Merge → Result MergeError Merge
map_ok f (ok m) = ok (f m)
map_ok f (err e) = err e

module _ (sha256_hex : Str → Str) (encodes : Model → Bool) where
  conclude_swap :
      (bd ld rd : Str) (c : Model × List Conflict)
      → conclude sha256_hex encodes bd rd ld c ≡ swap_sides (conclude sha256_hex encodes bd ld rd c)
  unfolding conclude
  conclude_swap bd ld rd (candidate, c ∷ cs) = refl
  conclude_swap bd ld rd (candidate, []) =
      elim (Result-cases (prepare sha256_hex encodes candidate)) [
        | inl (n, e) ↦ rw (e, conclude) refl
        | inr (d, e) ↦ rw (e, conclude) refl
      ]

  failed : (x : MergeError) → x ≡ invalid_input
  failed invalid_input = refl

  -- With left and right exchanged, `Merge` gives the same status, candidate and conflicts, or the
  -- same error.
  pub merge_swap :
      (base left right : Model)
      → merge sha256_hex encodes base right left
        ≡ map_ok swap_sides (merge sha256_hex encodes base left right)
  unfolding merge
  merge_swap base left right = elim (Result-cases (prepare sha256_hex encodes base)) [
    | inr (x, e) ↦ rw e refl
    | inl (b, e) ↦ elim (Result-cases (prepare sha256_hex encodes left)) [
      | inr (x, f) ↦ elim (Result-cases (prepare sha256_hex encodes right)) [
        | inr (y, g) ↦ rw (e, f, g, failed x, failed y) refl
        | inl (r, g) ↦ rw (e, f, g) refl
      ]
      | inl (l, f) ↦ elim (Result-cases (prepare sha256_hex encodes right)) [
        | inr (y, g) ↦ rw (e, f, g) refl
        | inl (r, g) ↦
            rw (e, f, g)
              (ap ok (
                ap (conclude sha256_hex encodes (b.1) (r.1) (l.1)) (combine_swap (b.0) (r.0) (l.0))
                ∙ conclude_swap (b.1) (l.1) (r.1) (combine (b.0) (l.0) (r.0))))
      ]
    ]
  ]
