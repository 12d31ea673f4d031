-- ===== src/Traceability/Catalog.antt =====
-- `LoadCatalog` of traceability/trace.go, from the entries of the three sections that it reads in
-- order. An entry that is not a JSON object with the three names once each is `none`.
use clanker_foundry.Prelude.{
  Bool, true, false, not, ◌&&◌, ◌||◌, Option, none, some, List, [], ◌∷◌, leb, ◌*◌, length, Result,
  ok, err, ◌>>=◌, ◌>>◌, check,
}
use clanker_foundry.Text.{Str, str, str_eq, contains, valid_string}
use clanker_foundry.Sort.{sort_by}
use clanker_foundry.Traceability.{AcceptanceCase, case_id, catalog_schema, max_bytes}

pub data CatalogError : Type 0 where
  bad_size not_json unsupported_schema bad_entry malformed_id duplicate_id unknown_status no_cases :
      CatalogError

-- A decoded catalog: the schema and the entries.
pub record CatalogDocument : Type 0 where
  pub schema : Str
  pub entries : List (Option AcceptanceCase)

unfoldable pub known_status : Str → Bool
known_status s = str_eq s (str "executable") || str_eq s (str "pending")

-- The loop over the entries, with the IDs so far.
unfoldable pub load_entries :
    List Str → List (Option AcceptanceCase) → Result CatalogError (List AcceptanceCase)
unfolding known_status
load_entries seen [] = ok []
load_entries seen (none ∷ es) = err bad_entry
load_entries seen (some c ∷ es) = do
  check (case_id c.case_id) malformed_id
  check (not (contains seen c.case_id)) duplicate_id
  check (known_status c.execution_status) unknown_status
  rest ← load_entries (c.case_id ∷ seen) es
  ok (c ∷ rest)

is_nil_list : List AcceptanceCase → Bool
is_nil_list [] = true
is_nil_list (c ∷ cs) = false

-- `decode_catalog` is what `unambiguous` and `json.Unmarshal` make of the bytes.
unfoldable pub load_catalog :
    (Str → Option CatalogDocument) → Str → Result CatalogError (List AcceptanceCase)
unfolding load_entries is_nil_list catalog_schema
load_catalog decode_catalog src = do
  check (leb (length src) (4 * max_bytes) && valid_string src) bad_size
  doc ← (elim (decode_catalog src) [ none ↦ err not_json | some d ↦ ok d ])
  check (str_eq doc.schema catalog_schema) unsupported_schema
  cases ← load_entries [] doc.entries
  check (not (is_nil_list cases)) no_cases
  ok (sort_by (λ c. c.case_id) cases)
