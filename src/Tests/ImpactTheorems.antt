-- ===== src/Tests/ImpactTheorems.antt =====
-- The theorems about comparisons at the small model with another label.
use clanker_foundry.Prelude.{inl, inr, ◌≡◌, ◌↔◌, refl, false, [], ◌∷◌, ok, Memᴰ}
use clanker_foundry.Text.{Str, str, str_eq, str_ltb}
use clanker_foundry.Sort.{sort_strings}
use clanker_foundry.Model.Validate.{validate}
use clanker_foundry.Model.Normalize.{normalize, reorder}
use clanker_foundry.Canonical.{digest, canonical_bytes, document}
use clanker_foundry.Impact.{
  Change, ElementKey, Report, compare, changes_of, elements_of, report_of, key_eq, value_eq,
  validate_bindings,
}
use clanker_foundry.Impact.Reports.{compare-changed_iff}
use clanker_foundry.Impact.Links.{cause_of}
use clanker_foundry.Impact.Linked.{linked_iff, IsListed, HasCause}
use clanker_foundry.Tests.Models.{small}
use clanker_foundry.Tests.ModelTheorems.{sorted_small, prepare}
use clanker_foundry.Tests.MergeTheorems.{right}

-- A hash that tells all texts apart.
abbrev plain : Str → Str
plain s = s

abbrev relabelling : Change
relabelling = record {
  kind = str "state";
  id = str "Draft";
  action = str "modified";
  fields = str "label" ∷ [];
}

abbrev report : Report
report = report_of sorted_small right (document sorted_small) (document right) [] (relabelling ∷ [])

compared : compare plain small right [] ≡ ok report
unfolding compare normalize validate str_eq str_ltb reorder digest canonical_bytes document
    changes_of elements_of value_eq key_eq validate_bindings sort_strings report_of
compared = refl

compare-changed_iff_example :
    ((report.changed ≡ false) ↔ (normalize small ≡ normalize right))
    × ((report.changes ≡ []) ↔ (normalize small ≡ normalize right))
compare-changed_iff_example = compare-changed_iff plain small right [] report compared

abbrev draft : ElementKey
draft = (str "state", str "Draft")

before_normal : normalize small ≡ ok sorted_small
unfolding normalize validate str_eq str_ltb reorder
before_normal = refl

after_normal : normalize right ≡ ok right
unfolding normalize validate str_eq str_ltb reorder
after_normal = refl

linked_iff_example :
    (IsListed report (str "before") (str "T_prepare") (cause_of draft)
      ↔ HasCause report sorted_small (str "T_prepare") (cause_of draft))
    × (IsListed report (str "after") (str "T_prepare") (cause_of draft)
        ↔ HasCause report right (str "T_prepare") (cause_of draft))
linked_iff_example =
    linked_iff plain small right sorted_small right [] report (str "T_prepare") (cause_of draft)
      compared before_normal after_normal

-- The left side is listed, since `prepare` leaves the state whose label has changed.
prepare_caused : HasCause report sorted_small (str "T_prepare") (cause_of draft)
unfolding report_of
prepare_caused = (
  prepare,
  Memᴰ.tail (Memᴰ.head refl),
  refl,
  (draft, inr (inr (inl refl)), (relabelling, Memᴰ.head refl, refl, refl), refl),
)
