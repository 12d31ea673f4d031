-- ===== src/Tests/SuiteTheorems.antt =====
-- The theorems about scenarios at a suite of two steps.
use clanker_foundry.Prelude.{Memᴰ, false, err, ◌≡◌, ◌↔◌, refl, true, [], ok, arith}
use clanker_foundry.Text.{Str, str}
use clanker_foundry.Scenarios.{default_binding, report_limit}
use clanker_foundry.Scenarios.Budget.{hex_digest}
use clanker_foundry.Scenarios.Compare.{compare_result, expected_result}
use clanker_foundry.Scenarios.Compare.Laws.{compare_exact, Differs}
use clanker_foundry.Scenarios.Dto.{suite_to_dto}
use clanker_foundry.Scenarios.Encoding.{line}
use clanker_foundry.Scenarios.Parse.Roundtrip.{decode-encode}
use clanker_foundry.Scenarios.Received.{report_to_dto, decode_report, decode_report-encode}
use clanker_foundry.Scenarios.Reports.{encode_report_for, report_json}
use clanker_foundry.Scenarios.Run.Encoded.{run-encodes}
use clanker_foundry.Scenarios.Run.Expectations.{run_matched_iff, CasesMeet}
use clanker_foundry.Scenarios.Validate.{decode_for}
use clanker_foundry.Tests.Suites.{
  suite, report, once, accept, refuse, suite_is_valid, suite_runs, default_profile,
}
use clanker_foundry.Tests.Tasks.{hash}

hash_is_hex : (t : Str) → hex_digest (hash t) ≡ true
unfolding hex_digest
hash_is_hex t = refl

run-encodes_example :
    encode_report_for report default_binding true
    ≡ ok (line (report_json report default_binding true))
run-encodes_example =
    run-encodes once default_binding true hash suite report hash_is_hex default_profile
      (suite_runs true)

run_matched_iff_example : (report.matched ≡ true) ↔ CasesMeet once suite.model_digest 0 suite.cases
run_matched_iff_example =
    run_matched_iff once default_binding true hash suite report (suite_runs true)

decode-encode_example : decode_for (suite_to_dto suite) default_binding ≡ ok suite
decode-encode_example = decode-encode suite default_binding suite_is_valid (omega arith)

-- What the run of `suite` has returned, encoded for a provider and for none.
decode_report-encode_example :
    (decode_report (report_to_dto report default_binding false) default_binding false ≡ ok report)
    × (decode_report (report_to_dto report default_binding true) default_binding false
        ≡ err report_limit)
unfolding expected_result
decode_report-encode_example =
    decode_report-encode report default_binding false default_profile (omega arith) (
      run-encodes once default_binding false hash suite report hash_is_hex default_profile
        (suite_runs false))

compare_exact_example :
    (Memᴰ (str "ok") (compare_result (expected_result accept (hash [])) refuse (hash []))
      ↔ Differs (expected_result accept (hash [])) refuse (hash []) (str "ok"))
    × ((compare_result (expected_result accept (hash [])) refuse (hash []) ≡ [])
        ↔ (expected_result accept (hash []) ≡ expected_result refuse (hash [])))
compare_exact_example = compare_exact (expected_result accept (hash [])) refuse (hash []) (str "ok")
