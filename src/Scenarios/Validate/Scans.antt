-- ===== src/Scenarios/Validate/Scans.antt =====
-- What a check of a suite that succeeds says of its IDs and counts.
use clanker_foundry.Prelude.{
  ◌+◌, ◌≤◌, ◌≡◌, refl, subst, ap, ◌∙◌, Bool, true, false, not, ◌&&◌, List, [], ◌∷◌, leb, ◌==◌,
  ==_iff, length, arith, and_split, ok, check, bind-ok, check-ok,
}
use clanker_foundry.Text.{Str, contains, str_eq}
use clanker_foundry.Text.Laws.{str_eq_iff}
use clanker_foundry.Model.{identifier}
use clanker_foundry.Scenarios.{
  Step, Case, Suite, Binding, ScenarioError, max_source_bytes, max_text_bytes, max_cases, max_steps,
  max_steps_per_case,
}
use clanker_foundry.Scenarios.Budget.{hex_digest, spend, spend_task, spend_command, spend_expected}
use clanker_foundry.Scenarios.Validate.{
  Scan, require, take_id, scan_step, scan_steps, scan_case, scan_cases, suite_json, validate_for,
}

check-true : (t : Bool) (e : ScenarioError) → check t e ≡ ok tt → t ≡ true
check-true true e h = refl
check-true false e h = cc

not-true : (t : Bool) → not t ≡ true → t ≡ false
not-true true h = cc
not-true false h = refl

-- An ID that is taken is new, and it is added.
pub take_id_lem :
    (v : Str) (s : Scan) {s' : Scan}
    → take_id v s ≡ ok s'
    → (contains s.ids v ≡ false)
      × (identifier v ≡ true)
      × (s'.ids ≡ v ∷ s.ids)
      × (s'.total ≡ s.total)
unfolding take_id
take_id_lem v s h =
    let (a, h₁) = check-ok (identifier v && not (contains s.ids v)) _ _ h in
    let (n, hn, h₂) = bind-ok (require (spend max_source_bytes v 48 s.used)) _ h₁ in
    let (p, q) = and_split _ _ a in (not-true _ q, p, cc h₂, cc h₂)

pub scan_step_lem :
    (x : Step) (s : Scan) {s' : Scan}
    → scan_step x s ≡ ok s'
    → (contains s.ids x.id ≡ false) × (s'.ids ≡ x.id ∷ s.ids) × (s'.total ≡ s.total)
unfolding scan_step
scan_step_lem x s h =
    let (a, ha, h₁) = bind-ok (take_id x.id s) _ h in
    let (b, hb, h₂) = bind-ok (require (spend_command max_source_bytes x.command a.used)) _ h₁ in
    let (d, hd, h₃) = bind-ok (require (spend_expected max_source_bytes x.expected b)) _ h₂ in
    let (new, named, ids, total) = take_id_lem x.id s ha in (new, cc, cc)

-- A case that is checked: its start, and the check of its steps.
pub record Checked (c : Case) (s s' : Scan) : Type 0 where
  pub start : Scan
  pub new : contains s.ids c.id ≡ false
  pub named : identifier c.id ≡ true
  pub ids : start.ids ≡ c.id ∷ s.ids
  pub some_steps : leb 1 (length c.steps) ≡ true
  pub few_steps : leb (length c.steps) max_steps_per_case ≡ true
  pub total : start.total ≡ s.total + length c.steps
  pub bounded : start.total ≤ max_steps
  pub steps : scan_steps c.steps start ≡ ok s'

pub scan_case-Checked : (c : Case) (s : Scan) {s' : Scan} → scan_case c s ≡ ok s' → Checked c s s'
unfolding scan_case
scan_case-Checked c s h =
    let (a, ha, h₁) = bind-ok (take_id c.id s) _ h in
    let (few, h₂) =
      check-ok (leb 1 (length c.steps) && leb (length c.steps) max_steps_per_case) _ _ h₁ in
    let (n, hn, h₃) = bind-ok (require (spend_task max_source_bytes c.initial a.used)) _ h₂ in
    let (bound, h₄) = check-ok (leb (a.total + length c.steps) max_steps) _ _ h₃ in
    let (new, named, ids, total) = take_id_lem c.id s ha in
    let (p, q) = and_split _ _ few in
    record {
      start = record a { used = n; total = a.total + length c.steps };
      new = new;
      named = named;
      ids = ids;
      some_steps = p;
      few_steps = q;
      total = ap (λ k. k + length c.steps) total;
      bounded = ground arith;
      steps = h₄;
    }

-- A suite that is checked.
pub record Valid (s : Suite) (binding : Binding) : Type 0 where
  pub start : Scan
  pub end : Scan
  pub version : s.version ≡ 1
  pub ids : start.ids ≡ s.id ∷ []
  pub total : start.total ≡ 0
  pub scanned : scan_cases s.cases start ≡ ok end
  pub some_cases : leb 1 (length s.cases) ≡ true
  pub few_cases : leb (length s.cases) max_cases ≡ true
  pub digest : hex_digest s.model_digest ≡ true

pub validate_for-Valid :
    (s : Suite) (binding : Binding)
    → validate_for s binding ≡ ok tt
    → Valid s binding
      × (s.profile_version ≡ binding.profile_version)
      × (s.model_digest ≡ binding.model_digest)
unfolding validate_for
validate_for-Valid s binding h =
    let (counts, h₁) =
      check-ok
        (s.version == 1
          && (leb 1 (length s.cases)
              && (leb (length s.cases) max_cases && hex_digest s.model_digest)))
        _ _ h in
    let (a, ha, h₂) = bind-ok (take_id s.id (record { ids = []; used = 0; total = 0 })) _ h₁ in
    let (b, hb, h₃) =
      bind-ok (require (spend max_source_bytes s.profile_version max_text_bytes a.used)) _ h₂ in
    let (d, hd, h₄) = bind-ok (scan_cases s.cases (record a { used = b })) _ h₃ in
    let (size, h₅) = check-ok (leb (length (suite_json s)) max_source_bytes) _ _ h₄ in
    let bound = check-true _ _ h₅ in
    let (new, named, ids, total) = take_id_lem s.id (record { ids = []; used = 0; total = 0 }) ha in
    let (one, rest) = and_split (s.version == 1) _ counts in
    let (two, rest') = and_split (leb 1 (length s.cases)) _ rest in
    let (three, digest) = and_split (leb (length s.cases) max_cases) _ rest' in
    let (p, q) = and_split (str_eq s.profile_version binding.profile_version) _ bound in
    (
      record {
        start = record a { used = b };
        end = d;
        version = (==_iff s.version 1).0 one;
        ids = ids;
        total = total;
        scanned = hd;
        some_cases = two;
        few_cases = three;
        digest = digest;
      },
      (str_eq_iff _ _).0 p,
      (str_eq_iff _ _).0 q,
    )

pub scan_steps_total :
    (xs : List Step) (s : Scan) {s' : Scan} → scan_steps xs s ≡ ok s' → s'.total ≡ s.total
unfolding scan_steps
scan_steps_total [] s h = cc
scan_steps_total (x ∷ xs) s h =
    let (a, one, more) = bind-ok (scan_step x s) _ h in
    scan_steps_total xs a more ∙ (scan_step_lem x s one).2

pub scan_case_total :
    (c : Case) (s s' : Scan) → Checked c s s' → s'.total ≡ s.total + length c.steps
scan_case_total c s s' k = scan_steps_total c.steps k.start k.steps ∙ k.total

-- The count of steps only grows, and stays within the bound.
pub scan_cases_total :
    (cs : List Case) (s : Scan) {s' : Scan}
    → scan_cases cs s ≡ ok s'
    → s.total ≤ max_steps
    → (s.total ≤ s'.total) × (s'.total ≤ max_steps)
unfolding scan_cases
scan_cases_total [] s {s'} h small =
    let e : s ≡ s' = cc h in
    subst (λ w. (s.total ≤ w.total) × (w.total ≤ max_steps)) e (omega arith)
scan_cases_total (c ∷ cs) s {s'} h small =
    let (a, one, more) = bind-ok (scan_case c s) _ h in
    let k = scan_case-Checked c s one in
    let t = scan_steps_total c.steps k.start k.steps in
    let rest = scan_cases_total cs a more (omega (arith, t, k.bounded)) in
    omega (arith, rest, t, k.total)
