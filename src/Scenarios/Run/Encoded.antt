-- ===== src/Scenarios/Run/Encoded.antt =====
-- Every report that a run returns is one that `encodeReportFor` encodes.
use clanker_foundry.Prelude.{
  ℕ, ◌+◌, ◌-◌, ◌≤◌, ◌≡◌, refl, sym, subst, ap, ◌∙◌, Bool, true, false, not, ◌||◌, Option, none,
  some, List, [], ◌∷◌, leb, length, ◌==◌, ==_iff, Result, ok, arith, append-nil, inl, if◌then◌else◌,
  bind-ok,
}
use clanker_foundry.Text.{Str}
use clanker_foundry.Text.Laws.{str_eq_iff}
use clanker_foundry.Lifecycle.{Task, Command}
use clanker_foundry.Lifecycle
use clanker_foundry.Scenarios.{
  Suite, Entry, Report, Binding, ScenarioError, max_report_bytes, max_cases, max_steps,
  profile_version,
}
use clanker_foundry.Scenarios.Budget.{hex_digest}
use clanker_foundry.Scenarios.Encoding.{line, content_fields}
use clanker_foundry.Json.{json_object}
use clanker_foundry.Scenarios.Reports.{
  Groups, no_groups, check_entries, check_counts, hex_pointer, last_matched, report_json,
  encode_report_for,
}
use clanker_foundry.Scenarios.Reports.Sizes.{sizes, Fits, length-report_json}
use clanker_foundry.Scenarios.Run.{
  Made, nothing_made, Ending, all_matched, mismatch, made_of, matched_of, run_cases, run_for,
  execute_for,
}
use clanker_foundry.Scenarios.Run.Cases.{Ran, ran_all, ran_part, cases-Ran}
use clanker_foundry.Scenarios.Validate.{Scan, validate_for, digest_for, decode_for}
use clanker_foundry.Scenarios.Dto.{SuiteDto, suite_to_dto}
use clanker_foundry.Scenarios.Validate.Scans.{Valid, validate_for-Valid, scan_cases_total}

-- The report of the outcome of all cases.
abbrev pub report_of : Suite → Str → Option Str → Ending → Report
report_of s digest source end = record {
  model_digest = s.model_digest;
  scenario_digest = digest;
  source_digest = source;
  matched = matched_of end;
  cases_completed = (made_of end).completed;
  steps_executed = (made_of end).executed;
  entries = (made_of end).entries;
}

module _ (binding : Binding) (provider : Bool) where
  encode_ok :
      (r : Report) (st : Groups)
      → check_counts r binding ≡ true
      → check_entries binding provider r.matched r.entries no_groups ≡ ok st
      → (r.cases_completed == (if r.matched then st.groups else st.groups - 1)) ≡ true
      → (r.matched || not (last_matched r.entries)) ≡ true
      → leb (length (line (report_json r binding provider))) max_report_bytes ≡ true
      → encode_report_for r binding provider ≡ ok (line (report_json r binding provider))
  unfolding encode_report_for
  encode_ok r st a b d e f = rw (a, b, d, e, f) refl

  counts_ok :
      (r : Report)
      → r.model_digest ≡ binding.model_digest
      → Fits r
      → r.steps_executed ≡ length r.entries
      → 1 ≤ length r.entries
      → (not r.matched || leb 1 r.cases_completed) ≡ true
      → check_counts r binding ≡ true
  unfolding check_counts
  counts_ok r same f steps one matched =
      let few : leb (length r.entries) max_steps ≡ true = ground (arith, f.steps) in
      let first : leb 1 (length r.entries) ≡ true = ground arith in
      let cases : leb r.cases_completed max_cases ≡ true = ground (arith, f.cases) in
      rw
        (
          (str_eq_iff _ _).1 same,
          f.scenario,
          f.source,
          first,
          few,
          (==_iff _ _).1 steps,
          cases,
          matched,
        )
        refl

  Fits-bytes :
      (r : Report) (p : Made) (es : List Entry)
      → binding.profile_version ≡ profile_version
      → Fits r
      → r.entries ≡ p.entries
      → p.entries ≡ es
      → p.size ≡ 4096 + sizes es
      → p.size ≤ max_report_bytes
      → leb (length (line (report_json r binding provider))) max_report_bytes ≡ true
  Fits-bytes r p es version f e e' size small =
      let most = length-report_json r binding provider version f in
      let same : sizes r.entries ≡ sizes es = ap sizes (e ∙ e') in
      ground (arith, most, same, size, small)

  nonempty : (es : List Entry) → last_matched es ≡ false → 1 ≤ length es
  unfolding last_matched
  nonempty [] h = cc h
  nonempty (e ∷ es) h = omega arith

  ending_encodes :
      (s : Suite) (digest : Str) (source : Option Str) (start stop : Scan) (end : Ending)
      → binding.profile_version ≡ profile_version
      → s.model_digest ≡ binding.model_digest
      → hex_digest s.model_digest ≡ true
      → hex_digest digest ≡ true
      → hex_pointer source ≡ true
      → 1 ≤ length s.cases
      → length s.cases ≤ max_cases
      → start.total ≡ 0
      → stop.total ≤ max_steps
      → Ran binding provider nothing_made no_groups start stop (length s.cases) end
      → encode_report_for (report_of s digest source end) binding provider
        ≡ ok (line (report_json (report_of s digest source end) binding provider))
  unfolding nothing_made no_groups check_entries
  ending_encodes s digest source start stop end version same model hex pointer one few zero small
        (ran_all p es st e v d t k h g) =
      let r = report_of s digest source (all_matched p) in
      let entries : p.entries ≡ es = v.entries in
      let f : Fits r = record {
        model = model;
        scenario = hex;
        source = pointer;
        cases = omega (arith, d, few);
        steps = omega (arith, v.executed, t, zero, small);
      } in
      subst
        (λ w.
          encode_report_for (report_of s digest source w) binding provider
          ≡ ok (line (report_json (report_of s digest source w) binding provider)))
        (sym e)
        (encode_ok r st
          (counts_ok r same f (omega (arith, v.executed, ap (λ l. length l) entries))
            (omega (arith, one, k, ap (λ l. length l) entries)) (ground (arith, d, one)))
          (rw entries (
            subst (λ l. check_entries binding provider true l no_groups ≡ ok st) (append-nil es)
              (h true [])))
          ((==_iff _ _).1 (sym g)) refl
          (Fits-bytes r p es version f refl entries v.size (v.bounded (omega arith))))
  ending_encodes s digest source start stop end version same model hex pointer one few zero small
        (ran_part p es st e v d t h m g) =
      let r = report_of s digest source (mismatch p) in
      let entries : p.entries ≡ es = v.entries in
      let f : Fits r = record {
        model = model;
        scenario = hex;
        source = pointer;
        cases = omega (arith, d, few);
        steps = omega (arith, v.executed, t, zero, small);
      } in
      subst
        (λ w.
          encode_report_for (report_of s digest source w) binding provider
          ≡ ok (line (report_json (report_of s digest source w) binding provider)))
        (sym e)
        (encode_ok r st
          (counts_ok r same f (omega (arith, v.executed, ap (λ l. length l) entries))
            (omega (arith, nonempty es m, ap (λ l. length l) entries)) refl)
          (rw entries h) ((==_iff _ _).1 (omega (arith, g))) (rw (entries, m) refl)
          (Fits-bytes r p es version f refl entries v.size (v.bounded (omega arith))))

module _ (apply : ℕ → Task → Command → Lifecycle.Result) (binding : Binding) (provider : Bool)
    (sha256_hex : Str → Str) where
  -- The parts of a run that returns a report.
  pub record Returned (s : Suite) (r : Report) : Type 0 where
    pub start : Scan
    pub stop : Scan
    pub end : Ending
    pub digest : Str
    pub valid : Valid s binding
    pub same : s.model_digest ≡ binding.model_digest
    pub hashed : (text : Str) × (digest ≡ sha256_hex text)
    pub made : r ≡ report_of s digest none end
    pub zero_steps : start.total ≡ 0
    pub few_steps : stop.total ≤ max_steps
    pub ran : Ran binding provider nothing_made no_groups start stop (length s.cases) end

  pub run-Returned :
      (s : Suite) (r : Report) → run_for apply binding provider sha256_hex s ≡ ok r → Returned s r
  unfolding run_for digest_for nothing_made no_groups
  run-Returned s r h =
      let (u, valid, h₁) = bind-ok (validate_for s binding) _ h in
      let (digest, hashed, h₂) = bind-ok (digest_for sha256_hex s binding) _ h₁ in
      let (end, ran, h₃) =
        bind-ok (run_cases apply binding provider s.model_digest s.cases nothing_made) _ h₂ in
      let (v, profile, same) = validate_for-Valid s binding valid in
      let (w, again, h₄) = bind-ok (validate_for s binding) _ hashed in
      let (grows, most) = scan_cases_total s.cases v.start v.scanned (omega (arith, v.total)) in
      record {
        start = v.start;
        stop = v.end;
        end = end;
        digest = digest;
        valid = v;
        same = same;
        hashed = (json_object (content_fields (suite_to_dto s)), cc h₄);
        made = cc h₃;
        zero_steps = v.total;
        few_steps = most;
        ran =
            cases-Ran apply binding provider s.id s.cases nothing_made v.start v.end no_groups end
              (subst (λ d. run_cases apply binding provider d s.cases nothing_made ≡ ok end) same
                ran)
              v.scanned (omega (arith, v.total)) (record { ids = v.ids; size = refl }) (inl refl)
              refl (ground (arith, v.few_cases));
      }

  source_encodes :
      (s : Suite) (r : Report) (source : Option Str)
      → ((t : Str) → hex_digest (sha256_hex t) ≡ true)
      → hex_pointer source ≡ true
      → binding.profile_version ≡ profile_version
      → run_for apply binding provider sha256_hex s ≡ ok r
      → encode_report_for (record r { source_digest = source }) binding provider
        ≡ ok (line (report_json (record r { source_digest = source }) binding provider))
  source_encodes s r source hex pointer version h =
      let t = run-Returned s r h in
      let (text, hashed) = t.hashed in
      let one : 1 ≤ length s.cases = ground (arith, t.valid.some_cases) in
      let few : length s.cases ≤ max_cases = ground (arith, t.valid.few_cases) in
      subst
        (λ w.
          encode_report_for (record w { source_digest = source }) binding provider
          ≡ ok (line (report_json (record w { source_digest = source }) binding provider)))
        (sym t.made)
        (ending_encodes binding provider s t.digest source t.start t.stop t.end version t.same
          t.valid.digest (rw hashed (hex text)) pointer one few t.zero_steps t.few_steps t.ran)

  -- If the hash is always 64 hexadecimal digits and the binding has the lifecycle's profile version,
  -- then `encodeReportFor` encodes every report that a run of a suite returns: no check of it fails,
  -- the limit on the encoded size included.
  pub run-encodes :
      (s : Suite) (r : Report)
      → ((t : Str) → hex_digest (sha256_hex t) ≡ true)
      → binding.profile_version ≡ profile_version
      → run_for apply binding provider sha256_hex s ≡ ok r
      → encode_report_for r binding provider ≡ ok (line (report_json r binding provider))
  unfolding hex_pointer
  run-encodes s r hex version h =
      let no_source : r.source_digest ≡ none =
        ap (λ w. w.source_digest) (run-Returned s r h).made in
      subst
        (λ o.
          encode_report_for (record r { source_digest = o }) binding provider
          ≡ ok (line (report_json (record r { source_digest = o }) binding provider)))
        (sym no_source) (source_encodes s r none hex refl version h)

  -- The same of the reports of `executeFor`, which hold the hash of the file too.
  pub execute-encodes :
      (strict_decode : Str → Result ScenarioError SuiteDto) (raw : Str) (r : Report)
      → ((t : Str) → hex_digest (sha256_hex t) ≡ true)
      → binding.profile_version ≡ profile_version
      → execute_for apply binding provider sha256_hex strict_decode raw ≡ ok r
      → encode_report_for r binding provider ≡ ok (line (report_json r binding provider))
  unfolding execute_for hex_pointer
  execute-encodes strict_decode raw r hex version h =
      let (d, decoded, h₁) = bind-ok (strict_decode raw) _ h in
      let (s, suite, h₂) = bind-ok (decode_for d binding) _ h₁ in
      let (r', run, h₃) = bind-ok (run_for apply binding provider sha256_hex s) _ h₂ in
      let made : record r' { source_digest = some (sha256_hex raw) } ≡ r = cc h₃ in
      subst (λ w. encode_report_for w binding provider ≡ ok (line (report_json w binding provider)))
        made (source_encodes s r' (some (sha256_hex raw)) hex (hex raw) version run)
