-- ===== src/Merge/Conflicts.antt =====
-- The conflicts of `records` of modelmerge/merge.go, said of the three records at a key.
use clanker_foundry.Prelude.{
  ◌≡◌, refl, ◌≢◌, ◌↔◌, ◌⊎◌, inl, inr, Bool, Option, none, some, List, [], Memᴰ,
}
use clanker_foundry.Text.{Str, str}
use clanker_foundry.Model.Equal.{Decides}
use clanker_foundry.Merge.{Conflict, lookup, records, reason_of}
use clanker_foundry.Merge.Choice.{choose-none_iff}
use clanker_foundry.Merge.Records.{records-conflicts_iff}

module _ {A : Type 0} (b l r : Option A) where
  -- Why the sides are at odds: both add the record, one removes what the other changes, or both
  -- change it.
  abbrev pub IsReason : Str → Type 0
  IsReason reason =
      (b ≡ none) × (reason ≡ str "add-add")
      ⊎ (b ≢ none) × ((l ≡ none) ⊎ (r ≡ none)) × (reason ≡ str "remove-change")
      ⊎ (b ≢ none) × (l ≢ none) × (r ≢ none) × (reason ≡ str "change-change")

  -- Both sides changed the record, and not alike.
  abbrev pub AtOdds : Type 0
  AtOdds = (l ≢ r) × (l ≢ b) × (r ≢ b)

IsReason-iff :
    {A : Type 0} (b l r : Option A) (reason : Str)
    → (reason ≡ reason_of b l r) ↔ IsReason b l r reason
unfolding reason_of
IsReason-iff none l r reason = (
  λ e. inl (refl, e),
  λ h. elim h [
    | inl (_, e) ↦ e
    | inr (inl (n, _, _)) ↦ absurd (n refl)
    | inr (inr (n, _, _, _)) ↦ absurd (n refl)
  ],
)
IsReason-iff (some b) none r reason = (
  λ e. inr (inl ((λ q. cc), inl refl, e)),
  λ h. elim h [
    | inl (n, _) ↦ cc (n)
    | inr (inl (_, _, e)) ↦ e
    | inr (inr (_, n, _, _)) ↦ absurd (n refl)
  ],
)
IsReason-iff (some b) (some l) none reason = (
  λ e. inr (inl ((λ q. cc), inr refl, e)),
  λ h. elim h [
    | inl (n, _) ↦ cc (n)
    | inr (inl (_, _, e)) ↦ e
    | inr (inr (_, _, n, _)) ↦ absurd (n refl)
  ],
)
IsReason-iff (some b) (some l) (some r) reason = (
  λ e. inr (inr ((λ q. cc), (λ q. cc), (λ q. cc), e)),
  λ h. elim h [
    | inl (n, _) ↦ cc (n)
    | inr (inl (_, inl n, _)) ↦ cc (n)
    | inr (inl (_, inr n, _)) ↦ cc (n)
    | inr (inr (_, _, _, e)) ↦ e
  ],
)

module _ {A : Type 0} (eq : A → A → Bool) (decides : Decides eq) (id : A → Str) (kind : Str)
    (base left right : List A) where
  -- Where the test decides equality, `records` lists a conflict exactly if it has the kind and no
  -- field, and at its ID the sides differ from each other and from the base; its reason is
  -- add-add where the base has no record of the ID, remove-change where it has and a side has
  -- none, and change-change where all three have one.
  pub conflicts_iff :
      (c : Conflict)
      → Memᴰ c (records eq id kind base left right).1 ↔ (
          (c.kind ≡ kind)
          × (c.field ≡ [])
          × AtOdds (lookup id base c.id) (lookup id left c.id) (lookup id right c.id)
          × IsReason (lookup id base c.id) (lookup id left c.id) (lookup id right c.id) c.reason)
  conflicts_iff c =
      let at_odds = λ (k : Str).
        choose-none_iff eq decides (lookup id base k) (lookup id left k) (lookup id right k) in
      let why =
        λ (k : Str). IsReason-iff (lookup id base k) (lookup id left k) (lookup id right k) in
      let (to, of) = records-conflicts_iff eq decides id kind base left right c in
      (
        λ m. let (k, p, q) = to m in rw q (refl, refl, (at_odds k).0 p, (why k _).0 refl),
        λ (same_kind, no_field, odds, reason).
            of
              (c.id, (at_odds c.id).1 odds, cc (same_kind, no_field, (why c.id c.reason).1 reason)),
      )
