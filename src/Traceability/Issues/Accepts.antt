-- ===== src/Traceability/Issues/Accepts.antt =====
-- What a document without issues says, and the other way round.
use clanker_foundry.Prelude.{
  ◌≡◌, ◌≢◌, ◌↔◌, refl, sym, subst, ap, ◌∙◌, Bool, true, false, not, Option, none, some, List, [],
  ◌∷◌, ◌++◌, if◌then◌else◌, map, All, Memᴰ, Bool-cases, Option-cases, inl, inr, All-map, List-cases,
}
use mathlib.Core.List.Memᴰ
use clanker_foundry.Text.{Str, str, str_eq, contains}
use clanker_foundry.Text.Laws.{str_eq_iff, contains_iff}
use clanker_foundry.Distinct.{Distinct}
use clanker_foundry.Sort.{sort_less}
use clanker_foundry.Sort.Less.{Memᴰ-sort_less}
use clanker_foundry.Traceability.{
  ModelLink, Element, AcceptanceCase, Issue, find_element, find_case, valid_kind,
}
use clanker_foundry.Traceability.Issues.{
  issue_if, issue_less, issue_eq, drop_repeated, sort_issues, target_text, link_issue, link_issues,
  is_missing, case_issues,
}

pub append-nil_iff : {A : Type 0} (xs ys : List A) → (xs ++ ys ≡ []) ↔ ((xs ≡ []) × (ys ≡ []))
append-nil_iff [] ys = (λ h. (refl, h), λ h. h.1)
append-nil_iff (x ∷ xs) ys = (λ h. cc, λ h. cc (h.0))

pub issue_if-nil : (b : Bool) (c r t : Str) → (issue_if b c r t ≡ []) ↔ (b ≡ false)
unfolding issue_if
issue_if-nil true c r t = (λ h. cc, λ h. cc)
issue_if-nil false c r t = (λ h. refl, λ h. refl)

drop_repeated-cons : (a : Issue) (xs : List Issue) → drop_repeated (a ∷ xs) ≢ []
unfolding drop_repeated
drop_repeated-cons a [] h = cc h
drop_repeated-cons a (b ∷ xs) h = elim (Bool-cases (issue_eq a b)) [
  | inl e ↦
      drop_repeated-cons b xs
        (subst (λ t. (if t then drop_repeated (b ∷ xs) else a ∷ drop_repeated (b ∷ xs)) ≡ []) e h)
  | inr e ↦ absurd (
      other
        (subst (λ t. (if t then drop_repeated (b ∷ xs) else a ∷ drop_repeated (b ∷ xs)) ≡ []) e h))
]
  where
    other : ¬ (a ∷ drop_repeated (b ∷ xs) ≡ [])
    other k = cc k

-- Issues are sorted and repeats dropped, so that some are left exactly when there were some.
pub sort_issues-nil : (xs : List Issue) → (sort_issues xs ≡ []) ↔ (xs ≡ [])
unfolding sort_issues sort_less drop_repeated
sort_issues-nil [] = (λ h. refl, λ h. refl)
sort_issues-nil (x ∷ xs) = (λ h. absurd (left h), λ h. cc)
  where
    left : ¬ (drop_repeated (sort_less issue_less (x ∷ xs)) ≡ [])
    left h = elim (List-cases (sort_less issue_less (x ∷ xs))) [
      | inl e ↦
          Memᴰ.not-nil
            (subst (λ l. Memᴰ x l) e ((Memᴰ-sort_less issue_less (x ∷ xs) x).1 (Memᴰ.head refl)))
      | inr (a, rest, e) ↦ drop_repeated-cons a rest (subst (λ l. drop_repeated l ≡ []) e h)
    ]

-- No text of the list is in `seen` or stands before itself.
abbrev pub Fresh : List Str → List Str → Type 0
Fresh seen [] = Unit {0}
Fresh seen (t ∷ ts) = (contains seen t ≡ false) × Fresh (t ∷ seen) ts

not_contains : (seen : List Str) (t : Str) → (contains seen t ≡ false) ↔ (¬ Memᴰ t seen)
not_contains seen t = (
  λ h m. clash (sym h ∙ (contains_iff seen t).1 m),
  λ h. elim (Bool-cases (contains seen t)) [
    | inl e ↦ absurd (h ((contains_iff seen t).0 e))
    | inr e ↦ e
  ],
)
  where
    clash : ¬ (false ≡ true)
    clash h = cc h

pub Fresh-iff : (seen ts : List Str) → Fresh seen ts ↔ (Distinct ts × All (λ t. ¬ Memᴰ t seen) ts)
Fresh-iff seen [] = (λ h. (tt, tt), λ h. tt)
Fresh-iff seen (t ∷ ts) = (
  λ h.
      let (d, all) = (Fresh-iff (t ∷ seen) ts).0 h.1 in
      (
        (All-map ts all (λ u k e. k (Memᴰ.head (sym e))), d),
        ((not_contains seen t).0 h.0, All-map ts all (λ u k m. k (Memᴰ.tail m))),
      ),
  λ h. ((not_contains seen t).1 h.1.0, (Fresh-iff (t ∷ seen) ts).1 (h.0.1, both ts h.0.0 h.1.1)),
)
  where
    both :
        (us : List Str)
        → All (λ u. t ≢ u) us
        → All (λ u. ¬ Memᴰ u seen) us
        → All (λ u. ¬ Memᴰ u (t ∷ seen)) us
    both [] a b = tt
    both (u ∷ us) a b = (λ m. case u a.0 b.0 m, both us a.1 b.1)
      where
        case : (v : Str) → t ≢ v → ¬ Memᴰ v seen → ¬ Memᴰ v (t ∷ seen)
        case v p q (Memᴰ.head e) = p (sym e)
        case v p q (Memᴰ.tail m) = q m

-- A link names an element of its kind.
abbrev pub Resolves : List Element → ModelLink → Type 0
Resolves els l =
    (valid_kind l.kind ≡ true)
    × ((el : Element) × (find_element els l.id ≡ some el) × (el.kind ≡ l.kind))

link_unknown :
    (els : List Element) (id : Str) (l : ModelLink)
    → valid_kind l.kind ≡ false
    → link_issue els id l ≡ issue_if true (str "unknown-link-kind") id (target_text l)
unfolding link_issue
link_unknown els id l e = rw e refl

link_dangling :
    (els : List Element) (id : Str) (l : ModelLink)
    → valid_kind l.kind ≡ true
    → find_element els l.id ≡ none
    → link_issue els id l ≡ issue_if true (str "dangling-model-link") id (target_text l)
unfolding link_issue
link_dangling els id l e n = rw (e, n) refl

link_found :
    (els : List Element) (id : Str) (l : ModelLink) {el : Element}
    → valid_kind l.kind ≡ true
    → find_element els l.id ≡ some el
    → link_issue els id l
      ≡ issue_if (not (str_eq el.kind l.kind)) (str "link-kind-mismatch") id (target_text l)
unfolding link_issue
link_found els id l e n = rw (e, n) refl

pub not_both : {b : Bool} → b ≡ true → ¬ (b ≡ false)
not_both h k = clash (sym h ∙ k)
  where
    clash : ¬ (true ≡ false)
    clash e = cc e

some_ne_none : {A : Type 0} {o : Option A} {a : A} → o ≡ none → ¬ (o ≡ some a)
some_ne_none {A} {o} {a} h k = clash (sym h ∙ k)
  where
    clash : ¬ (none ≡ some a)
    clash e = cc e

pub not-false : (b : Bool) → (not b ≡ false) ↔ (b ≡ true)
not-false true = (λ h. refl, λ h. refl)
not-false false = (λ h. cc, λ h. cc)

link_issue-nil :
    (els : List Element) (id : Str) (l : ModelLink) → (link_issue els id l ≡ []) ↔ Resolves els l
link_issue-nil els id l = elim (Bool-cases (valid_kind l.kind)) [
  | inr e ↦ (
    λ h. absurd (not_both refl ((issue_if-nil true _ id _).0 (sym (link_unknown els id l e) ∙ h))),
    λ h. absurd (not_both h.0 e),
  )
  | inl e ↦ elim (Option-cases (find_element els l.id)) [
    | inl n ↦ (
      λ h.
          absurd
            (not_both refl ((issue_if-nil true _ id _).0 (sym (link_dangling els id l e n) ∙ h))),
      λ h. absurd (some_ne_none n h.1.1),
    )
    | inr (el, at) ↦
        let found = link_found els id l e at in
        let iff =
          issue_if-nil (not (str_eq el.kind l.kind)) (str "link-kind-mismatch") id
            (target_text l) in
        let same = not-false (str_eq el.kind l.kind) in
        (
          λ h. (e, (el, at, (str_eq_iff el.kind l.kind).0 (same.0 (iff.0 (sym found ∙ h))))),
          λ h.
              let one : el ≡ h.1.0 = some_eq (sym at ∙ h.1.1) in
              found ∙ iff.1 (same.1 ((str_eq_iff el.kind l.kind).1 (ap (λ w. w.kind) one ∙ h.1.2))),
        )
  ]
]
  where
    some_eq : {a b : Element} → some a ≡ some b → a ≡ b
    some_eq k = cc k

-- All links resolve and no two have one target.
pub link_issues-nil :
    (els : List Element) (id : Str) (seen : List Str) (ls : List ModelLink)
    → (link_issues els id seen ls ≡ []) ↔ (All (Resolves els) ls × Fresh seen (map target_text ls))
unfolding link_issues
link_issues-nil els id seen [] = (λ h. (tt, tt), λ h. refl)
link_issues-nil els id seen (l ∷ ls) =
    let one = link_issue-nil els id l in
    let twice =
      issue_if-nil (contains seen (target_text l)) (str "duplicate-model-link") id
        (target_text l) in
    let rest = link_issues-nil els id (target_text l ∷ seen) ls in
    let outer = append-nil_iff (link_issue els id l) _ in
    let inner =
      append-nil_iff
        (issue_if (contains seen (target_text l)) (str "duplicate-model-link") id (target_text l))
        _ in
    (
      λ h.
          let (a, b) = outer.0 h in
          let (d, f) = inner.0 b in let (r, g) = rest.0 f in ((one.0 a, r), (twice.0 d, g)),
      λ h. outer.1 (one.1 h.0.0, inner.1 (twice.1 h.1.0, rest.1 (h.0.1, h.1.1))),
    )

abbrev pub IsKnown : List AcceptanceCase → Str → Type 0
IsKnown cases id = (c : AcceptanceCase) × (find_case cases id ≡ some c)

is_missing_iff :
    (o : Option AcceptanceCase) → (is_missing o ≡ false) ↔ ((c : AcceptanceCase) × (o ≡ some c))
unfolding is_missing
is_missing_iff none = (λ h. cc, λ h. cc (h.1))
is_missing_iff (some c) = (λ h. (c, refl), λ h. refl)

pub case_issues-nil :
    (cases : List AcceptanceCase) (id : Str) (seen cs : List Str)
    → (case_issues cases id seen cs ≡ []) ↔ (All (IsKnown cases) cs × Fresh seen cs)
unfolding case_issues
case_issues-nil cases id seen [] = (λ h. (tt, tt), λ h. refl)
case_issues-nil cases id seen (c ∷ cs) =
    let one = issue_if-nil (is_missing (find_case cases c)) (str "dangling-acceptance-link") id c in
    let known = is_missing_iff (find_case cases c) in
    let twice = issue_if-nil (contains seen c) (str "duplicate-acceptance-link") id c in
    let rest = case_issues-nil cases id (c ∷ seen) cs in
    let outer =
      append-nil_iff
        (issue_if (is_missing (find_case cases c)) (str "dangling-acceptance-link") id c) _ in
    let inner =
      append-nil_iff (issue_if (contains seen c) (str "duplicate-acceptance-link") id c) _ in
    (
      λ h.
          let (a, b) = outer.0 h in
          let (d, f) = inner.0 b in
          let (r, g) = rest.0 f in ((known.0 (one.0 a), r), (twice.0 d, g)),
      λ h. outer.1 (one.1 (known.1 h.0.0), inner.1 (twice.1 h.1.0, rest.1 (h.0.1, h.1.1))),
    )
