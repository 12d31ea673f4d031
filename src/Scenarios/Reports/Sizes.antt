-- ===== src/Scenarios/Reports/Sizes.antt =====
-- The length of an encoded report: the entries, and less than the allowance for what is around
-- them.
use clanker_foundry.Prelude.{
  ℕ, ◌+◌, ◌≤◌, ◌≡◌, ap, List, [], ◌∷◌, ◌++◌, length, length-append, arith, Option, none, some, Bool,
  true, false, map, ==_iff, and_split, ◌==◌,
}
use clanker_foundry.Text.{Str, str}
use clanker_foundry.Text.Decimals.{length-decimal}
use clanker_foundry.Json.{json_object, join}
use clanker_foundry.Json.Laws.{
  length-json_string, length-json_pointer, length-join, lengths, fields_bound, length-json_object,
  items_of,
}
use clanker_foundry.Scenarios.{
  Entry, Report, Binding, mode, authority, profile_version, max_steps, max_cases,
}
use clanker_foundry.Scenarios.Budget.{hex_digest}
use clanker_foundry.Scenarios.Dto.{entry_to_dto, scenario_version}
use clanker_foundry.Scenarios.Encoding.{entry_dto_json, json_bool, json_list, line}
use clanker_foundry.Scenarios.Reports.{
  entry_size, report_json, report_head, report_tail, report_version, identity_field, hex_pointer,
}

-- The bytes that the entries add.
abbrev pub sizes : List Entry → ℕ
sizes [] = 0
sizes (e ∷ es) = entry_size e + sizes es

length-entries :
    (es : List Entry) → lengths (map (λ e. entry_dto_json (entry_to_dto e)) es) ≤ sizes es
unfolding entry_size line
length-entries [] = omega arith
length-entries (e ∷ es) =
    omega (arith, length-entries es, length-append (entry_dto_json (entry_to_dto e)) (b'\n' ∷ []))

length-list :
    (es : List Entry) → length (json_list (λ e. entry_dto_json (entry_to_dto e)) es) ≤ sizes es + 2
unfolding json_list
length-list es = omega (
  arith,
  length-append (join (map (λ e. entry_dto_json (entry_to_dto e)) es)) (b']' ∷ []),
  length-join (map (λ e. entry_dto_json (entry_to_dto e)) es),
  length-entries es,
)

pub length-hex_digest : (s : Str) → hex_digest s ≡ true → length s ≡ 64
unfolding hex_digest
length-hex_digest s h = (==_iff _ _).0 (and_split (length s == 64) _ h).0

length-hex_pointer : (o : Option Str) → hex_pointer o ≡ true → length (items_of o) ≤ 64
unfolding hex_pointer
length-hex_pointer none h = omega arith
length-hex_pointer (some s) h = omega (arith, length-hex_digest s h)

length-json_bool : (b : Bool) → length (json_bool b) ≤ 5
unfolding json_bool
length-json_bool true = omega arith
length-json_bool false = omega arith

fields_bound-append :
    (xs ys : List (Str × Str)) → fields_bound (xs ++ ys) ≡ fields_bound xs + fields_bound ys
fields_bound-append [] ys = omega arith
fields_bound-append ((n, v) ∷ xs) ys = omega (arith, fields_bound-append xs ys)

head_bound :
    (binding : Binding) (provider : Bool)
    → binding.profile_version ≡ profile_version
    → fields_bound (report_head binding provider) ≤ 800
unfolding report_head profile_version scenario_version report_version
head_bound binding true version = omega (
  arith,
  length-json_string (report_version true),
  length-json_string scenario_version,
  length-json_string binding.profile_version,
  ap (λ s. length s) version,
)
head_bound binding false version = omega (
  arith,
  length-json_string (report_version false),
  length-json_string scenario_version,
  length-json_string binding.profile_version,
  ap (λ s. length s) version,
)

source_bound : (provider : Bool) → fields_bound (identity_field provider) ≤ 300
unfolding identity_field
source_bound true = omega (arith, length-json_string (str "caller-supplied-go-binding"))
source_bound false = omega arith

-- What the check before the loop says of the sizes.
pub record Fits (r : Report) : Type 0 where
  pub model : hex_digest r.model_digest ≡ true
  pub scenario : hex_digest r.scenario_digest ≡ true
  pub source : hex_pointer r.source_digest ≡ true
  pub cases : r.cases_completed ≤ max_cases
  pub steps : r.steps_executed ≤ max_steps

tail_bound : (r : Report) → Fits r → fields_bound (report_tail r) ≤ 2600 + sizes r.entries
unfolding report_tail mode authority
tail_bound r f = omega (
  arith,
  length-json_string mode,
  length-json_string authority,
  length-json_string r.model_digest,
  length-json_string r.scenario_digest,
  length-json_pointer r.source_digest 64 (length-hex_pointer r.source_digest f.source),
  length-hex_digest r.model_digest f.model,
  length-hex_digest r.scenario_digest f.scenario,
  length-json_bool r.matched,
  length-decimal r.cases_completed,
  length-decimal r.steps_executed,
  length-list r.entries,
  f.cases,
  f.steps,
)

pub length-report_json :
    (r : Report) (binding : Binding) (provider : Bool)
    → binding.profile_version ≡ profile_version
    → Fits r
    → length (line (report_json r binding provider)) ≤ 4096 + sizes r.entries
unfolding line report_json
length-report_json r binding provider version f =
    let fields = report_head binding provider ++ (identity_field provider ++ report_tail r) in
    omega (
      arith,
      length-append (json_object fields) (b'\n' ∷ []),
      length-json_object fields,
      fields_bound-append (report_head binding provider) (identity_field provider ++ report_tail r),
      fields_bound-append (identity_field provider) (report_tail r),
      head_bound binding provider version,
      source_bound provider,
      tail_bound r f,
    )
