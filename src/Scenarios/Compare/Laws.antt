-- ===== src/Scenarios/Compare/Laws.antt =====
-- Equality of results, and what a comparison says.
use mathlib.Core.List.Memᴰ
use clanker_foundry.Prelude.{
  ◌≡◌, refl, sym, subst, ◌↔◌, Bool, true, false, none, some, List, [], ◌∷◌, ◌++◌, ◌∙◌, ==_iff,
  arith, ◌≢◌, ◌⊎◌, inl, inr, Bool-cases, Memᴰ, append-nil,
}
use clanker_foundry.Text.{Str, str, str_eq}
use clanker_foundry.Text.Laws.{str_eq_iff}
use clanker_foundry.Model.Equal.{Decides, bool_eq, bool_eq_iff, list_eq, list_eq_to, list_eq_refl}
use clanker_foundry.Lifecycle.{Task, Strings}
use clanker_foundry.Lifecycle
use clanker_foundry.Scenarios.{Expected, mode, authority}
use clanker_foundry.Scenarios.Compare.{
  option_eq, strings_eq, task_eq, result_eq, note_unless, field_differences, expected_result,
  with_whole, compare_result,
}

pub option_eq_iff : {A : Type 0} (eq : A → A → Bool) → Decides eq → Decides (option_eq eq)
unfolding option_eq
option_eq_iff eq d none none = (λ h. refl, λ h. refl)
option_eq_iff eq d none (some b) = (λ h. cc, λ h. cc)
option_eq_iff eq d (some a) none = (λ h. cc, λ h. cc)
option_eq_iff eq d (some a) (some b) = (λ h. cc ((d a b).0 h), λ h. (d a b).1 (cc))

pub strings_eq_iff : Decides strings_eq
unfolding strings_eq
strings_eq_iff = option_eq_iff (list_eq str_eq) lists
  where
    lists : Decides (list_eq str_eq)
    lists us vs = (
      list_eq_to str_eq str_eq_iff us vs,
      λ h. subst (λ w. list_eq str_eq us w ≡ true) h (list_eq_refl str_eq str_eq_iff us),
    )

pub task_eq_iff : Decides task_eq
unfolding task_eq
task_eq_iff a b = (
  λ h. ground (
    arith,
    str_eq_iff a.id b.id,
    str_eq_iff a.state b.state,
    ==_iff a.revision b.revision,
    str_eq_iff a.outcome b.outcome,
    strings_eq_iff a.acceptance b.acceptance,
    option_eq_iff str_eq str_eq_iff a.owner b.owner,
  ),
  λ h. ground (
    arith,
    str_eq_iff a.id b.id,
    str_eq_iff a.state b.state,
    ==_iff a.revision b.revision,
    str_eq_iff a.outcome b.outcome,
    strings_eq_iff a.acceptance b.acceptance,
    option_eq_iff str_eq str_eq_iff a.owner b.owner,
  ),
)

pub result_eq_iff : Decides result_eq
unfolding result_eq
result_eq_iff a b = (
  λ h. ground (
    arith,
    str_eq_iff a.mode b.mode,
    str_eq_iff a.authority b.authority,
    str_eq_iff a.model_digest b.model_digest,
    bool_eq_iff a.is_ok b.is_ok,
    str_eq_iff a.transition_id b.transition_id,
    option_eq_iff task_eq task_eq_iff a.task b.task,
    strings_eq_iff a.refusals b.refusals,
  ),
  λ h. ground (
    arith,
    str_eq_iff a.mode b.mode,
    str_eq_iff a.authority b.authority,
    str_eq_iff a.model_digest b.model_digest,
    bool_eq_iff a.is_ok b.is_ok,
    str_eq_iff a.transition_id b.transition_id,
    option_eq_iff task_eq task_eq_iff a.task b.task,
    strings_eq_iff a.refusals b.refusals,
  ),
)

-- No field differs exactly when the results are the same.
fields_whole :
    (a : Lifecycle.Result) (w : Expected) (d : Str)
    → (field_differences a w d ≡ []) ↔ (result_eq a (expected_result w d) ≡ true)
unfolding field_differences result_eq expected_result note_unless
fields_whole a w d = (λ h. ground arith, λ h. ground arith)

with_whole_given : (b : Bool) (ds : List Str) → ((ds ≡ []) ↔ (b ≡ true)) → with_whole b ds ≡ ds
unfolding with_whole
with_whole_given true ds h = refl
with_whole_given false [] h = cc (h.0 refl)
with_whole_given false (x ∷ ds) h = refl

-- A name and the fact that two values differ.
abbrev Noted : {A : Type 0} → Str → Str → A → A → Type 0
Noted name field x y = (name ≡ field) × (x ≢ y)

note_iff :
    {A : Type 0} (eq : A → A → Bool) (decides : Decides eq) (x y : A) (name field : Str)
    (ds : List Str)
    → Memᴰ name (note_unless (eq x y) field ++ ds) ↔ (Noted name field x y ⊎ Memᴰ name ds)
unfolding note_unless
note_iff eq decides x y name field ds = elim (Bool-cases (eq x y)) [
  | inl e ↦
      rw e (λ m. inr m, λ h. elim h [ inl (_, n) ↦ absurd (n ((decides x y).0 e)) | inr m ↦ m ])
  | inr e ↦ rw e (
    λ m. elim (Memᴰ.cases_cons m) [
      | inl q ↦ inl (q, λ p. cc (e, (decides x y).1 p))
      | inr n ↦ inr n
    ],
    λ h. elim h [ inl (q, _) ↦ Memᴰ.head q | inr m ↦ Memᴰ.tail m ],
  )
]

-- The names of the fields in which a result is not the expected one.
abbrev pub Differs : Lifecycle.Result → Expected → Str → Str → Type 0
Differs actual want digest name =
    Noted name (str "mode") actual.mode mode
    ⊎ Noted name (str "authority") actual.authority authority
    ⊎ Noted name (str "modelDigest") actual.model_digest digest
    ⊎ Noted name (str "ok") actual.is_ok want.is_ok
    ⊎ Noted name (str "transitionId") actual.transition_id want.transition_id
    ⊎ Noted name (str "task") actual.task want.task
    ⊎ Noted name (str "refusals") actual.refusals want.refusals

or_iff : {A B C : Type 0} → B ↔ C → (A ⊎ B) ↔ (A ⊎ C)
or_iff h = (
  λ x. elim x [ inl a ↦ inl a | inr b ↦ inr (h.0 b) ],
  λ x. elim x [ inl a ↦ inl a | inr b ↦ inr (h.1 b) ],
)

trans_iff : {A B C : Type 0} → A ↔ B → B ↔ C → A ↔ C
trans_iff f g = (λ a. g.0 (f.0 a), λ c. f.1 (g.1 c))

or_none : {A : Type 0} (name : Str) → (A ⊎ Memᴰ name []) ↔ A
or_none name = (λ x. elim x [ inl a ↦ a | inr m ↦ absurd (Memᴰ.not-nil m) ], λ a. inl a)

last_note_iff :
    {A : Type 0} (eq : A → A → Bool) (decides : Decides eq) (x y : A) (name field : Str)
    → Memᴰ name (note_unless (eq x y) field) ↔ Noted name field x y
last_note_iff eq decides x y name field =
    subst (λ l. Memᴰ name l ↔ Noted name field x y) (append-nil (note_unless (eq x y) field))
      (trans_iff (note_iff eq decides x y name field []) (or_none name))

fields_iff :
    (a : Lifecycle.Result) (w : Expected) (d name : Str)
    → Memᴰ name (field_differences a w d) ↔ Differs a w d name
unfolding field_differences
fields_iff a w d name = trans_iff (note_iff str_eq str_eq_iff a.mode mode name (str "mode") _) (
    or_iff (
      trans_iff (note_iff str_eq str_eq_iff a.authority authority name (str "authority") _) (
        or_iff (
          trans_iff (note_iff str_eq str_eq_iff a.model_digest d name (str "modelDigest") _) (
            or_iff (
              trans_iff (note_iff bool_eq bool_eq_iff a.is_ok w.is_ok name (str "ok") _) (
                or_iff (
                  trans_iff
                    (note_iff str_eq str_eq_iff a.transition_id w.transition_id name
                      (str "transitionId") _)
                    (or_iff (
                      trans_iff
                        (note_iff (option_eq task_eq) (option_eq_iff task_eq task_eq_iff) a.task
                          w.task name (str "task") _)
                        (or_iff (
                          last_note_iff strings_eq strings_eq_iff a.refusals w.refusals name
                            (str "refusals")))))))))))))

same_fields :
    (a : Lifecycle.Result) (w : Expected) (d : Str) → compare_result a w d ≡ field_differences a w d
unfolding compare_result
same_fields a w d = with_whole_given _ _ (fields_whole a w d)

-- A comparison finds nothing exactly for the expected result.
pub compare-nil_iff :
    (a : Lifecycle.Result) (w : Expected) (d : Str)
    → (compare_result a w d ≡ []) ↔ (a ≡ expected_result w d)
compare-nil_iff a w d =
    let whole = fields_whole a w d in
    let equal = result_eq_iff a (expected_result w d) in
    let same = same_fields a w d in
    (λ h. equal.0 (whole.0 (sym same ∙ h)), λ h. same ∙ whole.1 (equal.1 h))

-- The comparison names exactly the fields whose values differ from the expected ones, and it is
-- empty exactly when the result is the expected one, whole.
pub compare_exact :
    (actual : Lifecycle.Result) (want : Expected) (digest name : Str)
    → (Memᴰ name (compare_result actual want digest) ↔ Differs actual want digest name)
      × ((compare_result actual want digest ≡ []) ↔ (actual ≡ expected_result want digest))
compare_exact a w d name = (
  subst (λ l. Memᴰ name l ↔ Differs a w d name) (sym (same_fields a w d)) (fields_iff a w d name),
  compare-nil_iff a w d,
)
