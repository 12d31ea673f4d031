-- ===== src/Impact/Linked.antt =====
-- The linked transitions of a report of impact/compare.go, said of the records of the two models.
use mathlib.Core.List.Memᴰ
use clanker_foundry.Prelude.{◌≡◌, sym, ◌∙◌, ◌≢◌, ◌↔◌, inl, inr, ok, List, Memᴰ, All, All_at, map}
use clanker_foundry.Text.{Str, str}
use clanker_foundry.Model.{Transition, Model}
use clanker_foundry.Model.Validate.{guard_ids}
use clanker_foundry.Model.Validate.Guarantees.{validate-uses}
use clanker_foundry.Model.Normalize.{normalize}
use clanker_foundry.Model.Normalize.Laws.{normalize_idem}
use clanker_foundry.Model.Normalize.Sorted.{IsNormal-of}
use clanker_foundry.Impact.{
  Binding, Change, LinkedTransition, ElementKey, Report, links, compare, report_of, changes_of,
  elements_of,
}
use clanker_foundry.Impact.Links.{cause_of, links_iff, links_side}
use clanker_foundry.Impact.Reports.{compare-eq-ok}
use clanker_foundry.Impact.Declared.{Declares, IsChanged, is_changed_iff, link_keys_iff}

-- A report lists for a side a transition with this ID, and this cause among its causes.
abbrev pub IsListed : Report → Str → Str → Str → Type 0
IsListed r side id cause =
    (l : LinkedTransition) × Memᴰ l r.linked × (l.side ≡ side) × (l.id ≡ id) × Memᴰ cause l.causes

-- A transition of the model with this ID declares an element that has changed, and that the cause
-- names.
abbrev pub HasCause : Report → Model → Str → Str → Type 0
HasCause r m id cause =
    (t : Transition) × Memᴰ t m.transitions
    × (t.id ≡ id)
    × ((k : ElementKey) × Declares m t k × IsChanged r.changes k × (cause ≡ cause_of k))

-- The causes of `links`, in the terms of the model.
causes_iff :
    (changes : List Change) (m n : Model) (side : Str)
    → normalize m ≡ ok n
    → (id cause : Str)
    → ((l : LinkedTransition) × Memᴰ l (links side changes n.guards n.transitions)
        × (l.side ≡ side)
        × (l.id ≡ id)
        × Memᴰ cause l.causes)
      ↔ ((t : Transition) × Memᴰ t n.transitions
          × (t.id ≡ id)
          × ((k : ElementKey) × Declares n t k × IsChanged changes k × (cause ≡ cause_of k)))
unfolding guard_ids
causes_iff changes m n side normal id cause =
    let (valid, _) = normalize_idem m n normal in
    let (_, _, _, uses) = validate-uses n valid in
    let declared : (t : Transition)
        → Memᴰ t n.transitions
        → All (λ i. Memᴰ i (map (λ g. g.id) n.guards)) t.guards =
      (λ t l. (All_at _ n.transitions uses l).0) in
    let d = (IsNormal-of m n normal).ids.guards in
    let (to, of) = links_iff changes side n.guards n.transitions id cause in
    (
      λ x.
          let (t, l, e, (k, p, c, q)) = to x in
          (
            t,
            l,
            e,
            (k, (link_keys_iff n t k d (declared t l)).0 p, (is_changed_iff changes k).0 c, q),
          ),
      λ (t, l, e, (k, p, c, q)). of (
        t,
        l,
        e,
        (k, (link_keys_iff n t k d (declared t l)).1 p, (is_changed_iff changes k).1 c, q),
      ),
    )

before_after : str "before" ≢ str "after"
before_after h = cc

-- For each side, a report of `Compare` lists a transition with a cause exactly if the normal form of
-- that side has a transition of that ID which declares the element that the cause names, and the
-- report has a change of that element. A transition declares the model, itself, its two states, its
-- guards, and the requirements that they serve.
pub linked_iff :
    (sha256_hex : Str → Str) (before after old new : Model) (bindings : List Binding) (r : Report)
    (id cause : Str)
    → compare sha256_hex before after bindings ≡ ok r
    → normalize before ≡ ok old
    → normalize after ≡ ok new
    → (IsListed r (str "before") id cause ↔ HasCause r old id cause)
      × (IsListed r (str "after") id cause ↔ HasCause r new id cause)
unfolding report_of
linked_iff sha256_hex before after old new bindings r id cause h normal_old normal_new =
    let p = compare-eq-ok sha256_hex before after bindings r h in
    let changes = changes_of (elements_of p.old) (elements_of p.new) in
    let same_old : p.old ≡ old = cc (p.normal_before, normal_old) in
    let same_new : p.new ≡ new = cc (p.normal_after, normal_new) in
    let first = links (str "before") changes p.old.guards p.old.transitions in
    let second = links (str "after") changes p.new.guards p.new.transitions in
    let (to₁, of₁) = causes_iff changes before p.old (str "before") p.normal_before id cause in
    let (to₂, of₂) = causes_iff changes after p.new (str "after") p.normal_after id cause in
    rw (p.is_report, ← same_old, ← same_new)
      (
        (
          λ (l, m, s, e, c). elim (Memᴰ.append_cases first m) [
            | inl n ↦ to₁ (l, n, s, e, c)
            | inr n ↦ absurd (
                before_after
                  (sym s ∙ links_side changes (str "after") p.new.guards p.new.transitions l n))
          ],
          λ x. let (l, m, s, e, c) = of₁ x in (l, Memᴰ.append_left second m, s, e, c),
        ),
        (
          λ (l, m, s, e, c). elim (Memᴰ.append_cases first m) [
            | inr n ↦ to₂ (l, n, s, e, c)
            | inl n ↦ absurd (
                before_after
                  (sym (links_side changes (str "before") p.old.guards p.old.transitions l n) ∙ s))
          ],
          λ x. let (l, m, s, e, c) = of₂ x in (l, Memᴰ.append_right first m, s, e, c),
        ),
      )
