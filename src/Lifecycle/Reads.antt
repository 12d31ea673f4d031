-- ===== src/Lifecycle/Reads.antt =====
-- What the references of the guards of generated/lifecycle.go read, and what their tests say.
use clanker_foundry.Prelude.{
  ℕ, ◌≡◌, refl, ap, subst, ◌≢◌, true, Bool-cases, inl, inr, Option, none, some, arith, ==_iff,
}
use clanker_foundry.Text.{Str, str, str_eq, nonblank}
use clanker_foundry.Text.Laws.{str_eq_iff}
use clanker_foundry.Lifecycle.{
  Task, Command, Review, model_digest, ref_string, ref_uint, equal_string, not_equal_string,
  equal_uint, nonempty, StringValue, UintValue,
}

-- A text of the review, which is not present without one.
abbrev pub review_field : (Review → Str) → Option Review → Option Str
review_field f none = none
review_field f (some r) = some (f r)

abbrev pub revision_field : Option Review → Option ℕ
revision_field none = none
revision_field (some r) = some r.task_revision

pub equal_to : (a : Option Str) (x : Str) → equal_string a (some x) ≡ true → a ≡ some x
unfolding equal_string
equal_to none x h = cc
equal_to (some a) x h = ap some ((str_eq_iff a x).0 h)

pub uint_equal_to : (a : Option ℕ) (n : ℕ) → equal_uint a (some n) ≡ true → a ≡ some n
unfolding equal_uint
uint_equal_to none n h = cc
uint_equal_to (some a) n h = ap some ((==_iff a n).0 h)

pub differs :
    (a b : Option Str)
    → not_equal_string a b ≡ true
    → (x : Str) × (y : Str) × (a ≡ some x) × (b ≡ some y) × (x ≢ y)
unfolding not_equal_string
differs none b h = cc
differs (some x) none h = cc
differs (some x) (some y) h = (x, y, refl, refl, ground (arith, str_eq_iff x y))

pub field_of :
    (f : Review → Str) (o : Option Review) (r : Review) {x : Str}
    → o ≡ some r
    → review_field f o ≡ some x
    → f r ≡ x
field_of f o r e h = cc (ap (review_field f) e)

pub equal_at : (a b : Option Str) {x : Str} → equal_string a b ≡ true → b ≡ some x → a ≡ some x
equal_at a b {x} h e = equal_to a x (subst (λ v. equal_string a v ≡ true) e h)

pub uint_equal_at : (a b : Option ℕ) {n : ℕ} → equal_uint a b ≡ true → b ≡ some n → a ≡ some n
uint_equal_at a b {n} h e = uint_equal_to a n (subst (λ v. equal_uint a v ≡ true) e h)

pub review_of :
    (f : Review → Str) (o : Option Review) {x : Str}
    → review_field f o ≡ some x
    → (r : Review) × (o ≡ some r) × (f r ≡ x)
review_of f none h = cc
review_of f (some r) h = (r, refl, cc)

pub revision_of :
    (o : Option Review) (r : Review) {n : ℕ}
    → o ≡ some r
    → revision_field o ≡ some n
    → r.task_revision ≡ n
revision_of o r e h = cc (ap revision_field e)

pub expected_of : {a b : ℕ} → Option.some a ≡ some b → b ≡ a
expected_of h = cc

-- The text has a rune that is no space.
abbrev pub IsFilled : Str → Type 0
IsFilled s = nonblank s ≡ true

pub equal_of : {a b : StringValue} {x : Str} → a ≡ some x → b ≡ some x → equal_string a b ≡ true
unfolding equal_string
equal_of {x = x} p q = rw (p, q) ((str_eq_iff x x).1 refl)

pub uint_equal_of : {a b : UintValue} {n : ℕ} → a ≡ some n → b ≡ some n → equal_uint a b ≡ true
unfolding equal_uint
uint_equal_of {n = n} p q = rw (p, q) ((==_iff n n).1 refl)

pub differs_of :
    {a b : StringValue} {x y : Str} → a ≡ some x → b ≡ some y → x ≢ y → not_equal_string a b ≡ true
unfolding not_equal_string
differs_of {x = x} {y = y} p q h =
    rw (p, q)
      (elim (Bool-cases (str_eq x y)) [
        | inl e ↦ absurd (h ((str_eq_iff x y).0 e))
        | inr e ↦ rw e refl
      ])

pub IsFilled-of : (a : StringValue) → nonempty a ≡ true → (x : Str) × (a ≡ some x) × IsFilled x
unfolding nonempty
IsFilled-of none h = cc
IsFilled-of (some x) h = (x, refl, h)

pub of_filled : {a : StringValue} {x : Str} → a ≡ some x → IsFilled x → nonempty a ≡ true
unfolding nonempty
of_filled p h = rw p h

pub some_same : {a b : Str} → Option.some a ≡ some b → a ≡ b
some_same h = cc

module _ (t : Task) (c : Command) (d : Str) where
  -- What the references of the guards read.
  pub record Reads : Type 0 where
    pub decision :
        ref_string (str "review.decision") t c d ≡ review_field (λ r. r.decision) c.review
    pub reviewer :
        ref_string (str "review.reviewer") t c d ≡ review_field (λ r. r.reviewer) c.review
    pub task_id : ref_string (str "review.taskId") t c d ≡ review_field (λ r. r.task_id) c.review
    pub model :
        ref_string (str "review.modelDigest") t c d ≡ review_field (λ r. r.model_digest) c.review
    pub content :
        ref_string (str "review.taskDigest") t c d ≡ review_field (λ r. r.task_digest) c.review
    pub owner : ref_string (str "task.owner") t c d ≡ t.owner
    pub id : ref_string (str "task.id") t c d ≡ some t.id
    pub outcome : ref_string (str "task.outcome") t c d ≡ some t.outcome
    pub digest : ref_string (str "task.digest") t c d ≡ some d
    pub model_own : ref_string (str "model.digest") t c d ≡ some model_digest
    pub actor : ref_string (str "command.actor") t c d ≡ some c.actor
    pub review_revision : ref_uint (str "review.taskRevision") t c ≡ revision_field c.review
    pub revision : ref_uint (str "task.revision") t c ≡ some t.revision
    pub expected : ref_uint (str "command.expectedRevision") t c ≡ some c.expected_revision

  pub reads : Reads
  unfolding ref_string ref_uint str_eq
  reads = record {
    decision = ground arith;
    reviewer = ground arith;
    task_id = ground arith;
    model = ground arith;
    content = ground arith;
    owner = ground arith;
    id = ground arith;
    outcome = ground arith;
    digest = ground arith;
    model_own = ground arith;
    actor = ground arith;
    review_revision = ground arith;
    revision = ground arith;
    expected = ground arith;
  }
