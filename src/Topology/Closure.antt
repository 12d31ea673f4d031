-- ===== src/Topology/Closure.antt =====
-- The triple loop of `Analyze`: what one round adds, although it updates the matrix in place, and
-- that all rounds together close it under composition.
use mathlib.Core.List.Memᴰ
use clanker_foundry.Prelude.{
  ◌≡◌, refl, sym, subst, ◌↔◌, ◌⊎◌, inl, inr, true, ◌&&◌, List, [], ◌∷◌, Memᴰ, any_of-at, any_of_mem,
  Bool-cases, and_split,
}
use clanker_foundry.Text.{Str}
use clanker_foundry.Impact.{key_eq}
use clanker_foundry.Impact.Elements.{key_eq_iff}
use clanker_foundry.Topology.{Matrix, reaches, join, join_row, join_rows, close_through}

-- The pair is in the matrix.
abbrev pub Has : Matrix → Str → Str → Type 0
Has r i j = Memᴰ {A = Str × Str} (i, j) r

pub reaches_iff : (r : Matrix) (i j : Str) → (reaches r i j ≡ true) ↔ Has r i j
unfolding reaches
reaches_iff r i j = (
  λ h.
      let (p, m, e) = any_of-at (λ p. key_eq p (i, j)) r h in
      Memᴰ.cast (sym ((key_eq_iff p (i, j)).0 e)) m,
  λ m. any_of_mem (λ p. key_eq p (i, j)) r m ((key_eq_iff (i, j) (i, j)).1 refl),
)

-- A matrix in the middle of a round: it has all of the first one, and nothing but that and what
-- the round may add.
record Between (k : Str) (r s : Matrix) : Type 0 where
  keeps : (i j : Str) → Has r i j → Has s i j
  adds : (i j : Str) → Has s i j → Has r i j ⊎ Has r i k × Has r k j

-- A pair that the round composes is one that it may add.
composed :
    (k : Str) (r s : Matrix)
    → Between k r s
    → (i j : Str) → Has s i k
    → Has s k j
    → Has r i j ⊎ Has r i k × Has r k j
composed k r s b i j m n =
    let left : Has r i k = elim (b.adds i k m) [ inl p ↦ p | inr (p, q) ↦ p ] in
    let right : Has r k j = elim (b.adds k j n) [ inl p ↦ p | inr (p, q) ↦ q ] in inr (left, right)

join_added : (k : Str) (r : Matrix) (i j : Str) → Has r i k → Has r k j → join k r i j ≡ (i, j) ∷ r
unfolding join
join_added k r i j m n = rw ((reaches_iff r i k).1 m, (reaches_iff r k j).1 n) refl

join_cases :
    (k : Str) (r : Matrix) (i j : Str)
    → (join k r i j ≡ r) ⊎ (join k r i j ≡ (i, j) ∷ r) × Has r i k × Has r k j
unfolding join
join_cases k r i j = elim (Bool-cases (reaches r i k && reaches r k j)) [
  | inr e ↦ inl (rw e refl)
  | inl e ↦
      let (p, q) = and_split (reaches r i k) (reaches r k j) e in
      inr (rw e refl, (reaches_iff r i k).0 p, (reaches_iff r k j).0 q)
]

join-keeps : (k : Str) (r : Matrix) (i j a b : Str) → Has r a b → Has (join k r i j) a b
join-keeps k r i j a b m = elim (join_cases k r i j) [
  | inl e ↦ subst (λ s. Has s a b) (sym e) m
  | inr (e, p, q) ↦ subst (λ s. Has s a b) (sym e) (Memᴰ.tail m)
]

join-Between : (k : Str) (r s : Matrix) (i j : Str) → Between k r s → Between k r (join k s i j)
join-Between k r s i j b = record {
  keeps = λ a c m. join-keeps k s i j a c (b.keeps a c m);
  adds = λ a c m. elim (join_cases k s i j) [
    | inl e ↦ b.adds a c (subst (λ t. Has t a c) e m)
    | inr (e, p, q) ↦ elim (Memᴰ.cases_cons (subst (λ t. Has t a c) e m)) [
      | inl same ↦
          subst (λ (u : Str × Str). Has r (u.0) (u.1) ⊎ Has r (u.0) k × Has r k (u.1)) (sym same)
            (composed k r s b i j p q)
      | inr n ↦ b.adds a c n
    ]
  ];
}

-- A part of a round, from one matrix to a later one.
record Part (k : Str) (r s t : Matrix) : Type 0 where
  between : Between k r t
  grows : (i j : Str) → Has s i j → Has t i j

join_row-Part :
    (k i : Str) (js : List Str) (r s : Matrix)
    → Between k r s
    → Part k r s (join_row k i js s)
      × ((j : Str) → Memᴰ j js → Has r i k → Has r k j → Has (join_row k i js s) i j)
unfolding join_row
join_row-Part k i [] r s b =
    (record { between = b; grows = λ a c m. m }, λ j m. absurd (Memᴰ.not-nil m))
join_row-Part k i (j ∷ js) r s b =
    let (part, done) = join_row-Part k i js r (join k s i j) (join-Between k r s i j b) in
    (
      record { between = part.between; grows = λ a c m. part.grows a c (join-keeps k s i j a c m) },
      λ l m p q. elim (Memᴰ.cases_cons m) [
        | inl e ↦
            let here : Has (join k s i j) i j =
              subst (λ t. Has t i j)
                (sym
                  (join_added k s i j (b.keeps i k p) (b.keeps k j (subst (λ x. Has r k x) e q))))
                (Memᴰ.head refl) in
            subst (λ x. Has (join_row k i js (join k s i j)) i x) (sym e) (part.grows i j here)
        | inr n ↦ done l n p q
      ],
    )

join_rows-Part :
    (k : Str) (is js : List Str) (r s : Matrix)
    → Between k r s
    → Part k r s (join_rows k is js s)
      × ((i j : Str)
          → Memᴰ i is
          → Memᴰ j js
          → Has r i k
          → Has r k j
          → Has (join_rows k is js s) i j)
unfolding join_rows
join_rows-Part k [] js r s b =
    (record { between = b; grows = λ a c m. m }, λ i j m. absurd (Memᴰ.not-nil m))
join_rows-Part k (i ∷ is) js r s b =
    let (row, in_row) = join_row-Part k i js r s b in
    let (part, done) = join_rows-Part k is js r (join_row k i js s) row.between in
    (
      record { between = part.between; grows = λ a c m. part.grows a c (row.grows a c m) },
      λ a c m n p q. elim (Memᴰ.cases_cons m) [
        | inl e ↦
            subst (λ x. Has (join_rows k is js (join_row k i js s)) x c) (sym e)
              (part.grows i c (in_row c n (subst (λ x. Has r x k) e p) q))
        | inr l ↦ done a c l n p q
      ],
    )

-- All pairs are of states.
abbrev pub Within : List Str → Matrix → Type 0
Within states r = (i j : Str) → Has r i j → Memᴰ i states × Memᴰ j states

-- One round.
pub join_rows_iff :
    (k : Str) (states : List Str) (r : Matrix)
    → Within states r
    → (i j : Str) → Has (join_rows k states states r) i j ↔ (Has r i j ⊎ Has r i k × Has r k j)
join_rows_iff k states r w i j =
    let (part, done) =
      join_rows-Part k states states r r (record { keeps = λ a c m. m; adds = λ a c m. inl m }) in
    (
      part.between.adds i j,
      elim [
        | inl m ↦ part.between.keeps i j m
        | inr (p, q) ↦ done i j ((w i k p).0) ((w k j q).1) p q
      ],
    )

-- Composition through a state adds nothing.
abbrev pub Closed : Matrix → Str → Type 0
Closed r k = (i j : Str) → Has r i k → Has r k j → Has r i j

module _ (k : Str) (states : List Str) (r : Matrix) (w : Within states r) where
  abbrev round : Matrix
  round = join_rows k states states r

  round-Within : Within states round
  round-Within i j m = elim ((join_rows_iff k states r w i j).0 m) [
    | inl p ↦ w i j p
    | inr (p, q) ↦ ((w i k p).0, (w k j q).1)
  ]

  round-Closed : Closed round k
  round-Closed i j m n = (join_rows_iff k states r w i j).1 (
      inr (
        elim ((join_rows_iff k states r w i k).0 m) [ inl p ↦ p | inr (p, q) ↦ p ],
        elim ((join_rows_iff k states r w k j).0 n) [ inl p ↦ p | inr (p, q) ↦ q ],
      ))

  -- What was closed stays closed.
  round_stays-Closed : (l : Str) → Closed r l → Closed round l
  round_stays-Closed l c i j m n =
      let add = (join_rows_iff k states r w i j).1 in
      elim ((join_rows_iff k states r w i l).0 m) [
        | inl p ↦ elim ((join_rows_iff k states r w l j).0 n) [
          | inl q ↦ add (inl (c i j p q))
          | inr (q, q') ↦ add (inr (c i k p q, q'))
        ]
        | inr (p, p') ↦ elim ((join_rows_iff k states r w l j).0 n) [
          | inl q ↦ add (inr (p, c k j p' q))
          | inr (q, q') ↦ add (inr (p, q'))
        ]
      ]

-- After all rounds: the matrix has grown, and is closed through every state of the rounds.
pub close_through-Closed :
    (ks states : List Str) (r : Matrix)
    → Within states r
    → ((i j : Str) → Has r i j → Has (close_through ks states r) i j)
      × ((k : Str) → Memᴰ k ks ⊎ Closed r k → Closed (close_through ks states r) k)
unfolding close_through
close_through-Closed [] states r w =
    (λ i j m. m, λ k. elim [ inl m ↦ absurd (Memᴰ.not-nil m) | inr c ↦ c ])
close_through-Closed (k ∷ ks) states r w =
    let next = round k states r w in
    let (grows, closed) = close_through-Closed ks states next (round-Within k states r w) in
    (
      λ i j m. grows i j ((join_rows_iff k states r w i j).1 (inl m)),
      λ l. elim [
        | inl m ↦ elim (Memᴰ.cases_cons m) [
          | inl e ↦ closed l (inr (subst (Closed next) (sym e) (round-Closed k states r w)))
          | inr n ↦ closed l (inl n)
        ]
        | inr c ↦ closed l (inr (round_stays-Closed k states r w l c))
      ],
    )

-- A transitive relation that holds of all pairs holds of those that the rounds add.
pub close_through_within :
    (P : Str → Str → Type 0) (trans : (i j k : Str) → P i j → P j k → P i k) (ks states : List Str)
    (r : Matrix)
    → Within states r
    → ((i j : Str) → Has r i j → P i j)
    → (i j : Str) → Has (close_through ks states r) i j
    → P i j
unfolding close_through
close_through_within P trans [] states r w f i j m = f i j m
close_through_within P trans (k ∷ ks) states r w f i j m =
    close_through_within P trans ks states (round k states r w) (round-Within k states r w)
      (λ a c n. elim ((join_rows_iff k states r w a c).0 n) [
        | inl p ↦ f a c p
        | inr (p, q) ↦ trans a k c (f a k p) (f k c q)
      ])
      i j m
