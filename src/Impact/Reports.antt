-- ===== src/Impact/Reports.antt =====
-- What a report of `Compare` says of the two models.
use clanker_foundry.Prelude.{
  ◌≡◌, refl, sym, ap, ◌∙◌, ◌↔◌, inl, inr, false, not, arith, Bool-cases, List, [], ◌∷◌, ok, ◌>>◌,
  Result-cases, check,
}
use clanker_foundry.Text.{Str, str_eq}
use clanker_foundry.Model.{Model}
use clanker_foundry.Model.Equal.{bool_eq, bool_eq_iff}
use clanker_foundry.Model.Normalize.{normalize}
use clanker_foundry.Model.Normalize.Sorted.{IsNormal-of, normalize-version}
use clanker_foundry.Canonical.{digest}
use clanker_foundry.Impact.{
  Binding, Change, Report, elements_of, changes_of, has_changes, report_of, compare,
  validate_bindings,
}
use clanker_foundry.Impact.Same.{changes_of-nil_iff}

module _ (sha256_hex : Str → Str) where
  -- What `Compare` has found when it returns a report.
  pub record IsReport (before after : Model) (bindings : List Binding) (r : Report) : Type 0 where
    pub old : Model
    pub new : Model
    pub old_digest : Str
    pub new_digest : Str
    pub normal_before : normalize before ≡ ok old
    pub normal_after : normalize after ≡ ok new
    pub hashed_before : digest sha256_hex old ≡ ok old_digest
    pub hashed_after : digest sha256_hex new ≡ ok new_digest
    pub consistent :
        not (str_eq old_digest new_digest)
        ≡ has_changes (changes_of (elements_of old) (elements_of new))
    pub is_report :
        r
        ≡ report_of old new old_digest new_digest bindings
            (changes_of (elements_of old) (elements_of new))

  pub compare-eq-ok :
      (before after : Model) (bindings : List Binding) (r : Report)
      → compare sha256_hex before after bindings ≡ ok r
      → IsReport before after bindings r
  unfolding compare
  compare-eq-ok before after bindings r h = elim (Result-cases (normalize before)) [
    | inr (x, e) ↦ absurd (ground (arith, e))
    | inl (b, e) ↦ elim (Result-cases (normalize after)) [
      | inr (x, f) ↦ absurd (ground (arith, e, f))
      | inl (a, f) ↦ elim (Result-cases (validate_bindings bindings)) [
        | inr (x, v) ↦ absurd (ground (arith, e, f, v))
        | inl (u, v) ↦ elim (Result-cases (digest sha256_hex b)) [
          | inr (x, g) ↦ absurd (ground (arith, e, f, v, g))
          | inl (bd, g) ↦ elim (Result-cases (digest sha256_hex a)) [
            | inr (x, d) ↦ absurd (ground (arith, e, f, v, g, d))
            | inl (ad, d) ↦ end b a bd ad e f g d (rw (e, f, v, g, d) at h)
          ]
        ]
      ]
    ]
  ]
    where
      end :
          (b a : Model) (bd ad : Str)
          → normalize before ≡ ok b
          → normalize after ≡ ok a
          → digest sha256_hex b ≡ ok bd
          → digest sha256_hex a ≡ ok ad
          → (check
                (bool_eq
                  (not (str_eq bd ad))
                  (has_changes (changes_of (elements_of b) (elements_of a))))
                clanker_foundry.Impact.invalid_review
              >> ok (report_of b a bd ad bindings (changes_of (elements_of b) (elements_of a))))
            ≡ ok r
          → IsReport before after bindings r
      end b a bd ad e f g d k =
          let changes = changes_of (elements_of b) (elements_of a) in
          elim (Bool-cases (bool_eq (not (str_eq bd ad)) (has_changes changes))) [
            | inr c ↦ absurd (ground (arith, c))
            | inl c ↦ record {
              old = b;
              new = a;
              old_digest = bd;
              new_digest = ad;
              normal_before = e;
              normal_after = f;
              hashed_before = g;
              hashed_after = d;
              consistent = (bool_eq_iff (not (str_eq bd ad)) (has_changes changes)).0 c;
              is_report = cc (rw c at k);
            }
          ]

  has_changes-false_iff : (cs : List Change) → (has_changes cs ≡ false) ↔ (cs ≡ [])
  has_changes-false_iff [] = (λ h. refl, λ h. refl)
  has_changes-false_iff (c ∷ cs) = (λ h. cc, λ h. cc)

  -- A report says that nothing changed exactly if the two models have the same normal form, and
  -- then, and only then, its list of changes is empty; nothing is assumed of the hash.
  pub compare-changed_iff :
      (before after : Model) (bindings : List Binding) (r : Report)
      → compare sha256_hex before after bindings ≡ ok r
      → ((r.changed ≡ false) ↔ (normalize before ≡ normalize after))
        × ((r.changes ≡ []) ↔ (normalize before ≡ normalize after))
  unfolding report_of
  compare-changed_iff before after bindings r h =
      let p = compare-eq-ok before after bindings r h in
      let changes = changes_of (elements_of p.old) (elements_of p.new) in
      let versions =
        normalize-version before p.old p.normal_before
        ∙ sym (normalize-version after p.new p.normal_after) in
      let (to, of) =
        changes_of-nil_iff p.old p.new (IsNormal-of before p.old p.normal_before)
          (IsNormal-of after p.new p.normal_after) versions in
      let (none_to, none_of) = has_changes-false_iff changes in
      let changed : r.changed ≡ has_changes changes =
        ap (λ x. x.changed) p.is_report ∙ p.consistent in
      let listed : r.changes ≡ changes = ap (λ x. x.changes) p.is_report in
      let same : (p.old ≡ p.new) ↔ (normalize before ≡ normalize after) = (
        λ e. p.normal_before ∙ (ap ok e ∙ sym p.normal_after),
        λ e. cc (p.normal_before, p.normal_after, e),
      ) in
      (
        (λ q. same.0 (to (none_to (sym changed ∙ q))), λ q. changed ∙ none_of (of (same.1 q))),
        (λ q. same.0 (to (sym listed ∙ q)), λ q. listed ∙ of (same.1 q)),
      )
