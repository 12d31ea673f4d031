-- ===== src/Scenarios/Run/Passes.antt =====
-- The loop of `encodeReportFor` beside the loop of `runFor`: what holds of both after some entries.
use clanker_foundry.Prelude.{
  ℕ, ◌+◌, ◌≤◌, ◌≡◌, refl, sym, ap, ◌∙◌, Bool, true, false, List, [], ◌∷◌, ◌++◌, leb, length, ok,
  arith, append_assoc, append-nil, length-append,
}
use clanker_foundry.Text.{Str, contains}
use clanker_foundry.Lifecycle.{Task}
use clanker_foundry.Scenarios.{Entry, Binding, max_report_bytes}
use clanker_foundry.Scenarios.Reports.{Groups, entry_size, check_entry, check_entries, last_matched}
use clanker_foundry.Scenarios.Reports.Sizes.{sizes}
use clanker_foundry.Scenarios.Run.{Made, Loop, go_on, stop, add_entry}
use clanker_foundry.Scenarios.Validate.{Scan}

sizes-append : (es fs : List Entry) → sizes (es ++ fs) ≡ sizes es + sizes fs
sizes-append [] fs = omega arith
sizes-append (e ∷ es) fs = omega (arith, sizes-append es fs)

-- The run made the entries `es`.
pub record Moved (p p' : Made) (es : List Entry) : Type 0 where
  pub entries : p'.entries ≡ p.entries ++ es
  pub executed : p'.executed ≡ p.executed + length es
  pub size : p'.size ≡ p.size + sizes es
  pub bounded : p.size ≤ max_report_bytes → p'.size ≤ max_report_bytes

-- The IDs that the check of the suite has and those that the check of the report has seen.
pub record Track (suite_id : Str) (scan : Scan) (p : Made) (st : Groups) : Type 0 where
  pub ids : scan.ids ≡ st.seen ++ suite_id ∷ []
  pub size : p.size ≡ st.size

module _ (binding : Binding) (provider : Bool) where
  -- The entries `es` pass the check from `st` to `st'`, whatever follows them.
  abbrev pub Passes : List Entry → Groups → Groups → Type 0
  Passes es st st' =
      (m : Bool) (rest : List Entry)
      → check_entries binding provider m (es ++ rest) st ≡ check_entries binding provider m rest st'

  pub one-Passes :
      (e : Entry) (st st' : Groups)
      → ((m is_last : Bool) → check_entry binding provider m is_last e st ≡ ok st')
      → Passes (e ∷ []) st st'
  unfolding check_entries
  one-Passes e st st' h m [] = h m true
  one-Passes e st st' h m (f ∷ rest) = rw (h m false) refl

  pub Passes-append :
      (es fs : List Entry) (a b c : Groups) → Passes es a b → Passes fs b c → Passes (es ++ fs) a c
  Passes-append es fs a b c h k m rest = rw (append_assoc es fs rest) (h m (fs ++ rest) ∙ k m rest)

  -- What a run of `n` steps of the case `id` made, beside the check of the entries.
  pub data Played (suite_id id : Str) (groups n : ℕ) (scan : Scan) (p : Made) (st : Groups)
      (out : Loop) : Type 0 where
    advanced :
        (current : Task) (p' : Made) (es : List Entry) (st' : Groups)
        → out ≡ go_on current p'
        → Moved p p' es
        → p'.completed ≡ p.completed
        → length es ≡ n
        → Passes es st st'
        → Track suite_id scan p' st'
        → st'.groups ≡ groups
        → st'.last_case ≡ id
        → contains st'.seen id ≡ true
        → Played suite_id id groups n scan p st out
    stopped :
        (p' : Made) (es : List Entry) (st' : Groups)
        → out ≡ stop p'
        → Moved p p' es
        → p'.completed ≡ p.completed
        → length es ≤ n
        → check_entries binding provider false es st ≡ ok st'
        → last_matched es ≡ false
        → st'.groups ≡ groups
        → Played suite_id id groups n scan p st out

last_matched-cons :
    (e : Entry) (es : List Entry) → last_matched es ≡ false → last_matched (e ∷ es) ≡ false
unfolding last_matched
last_matched-cons e [] h = cc
last_matched-cons e (f ∷ es) h = h

pub last_matched-append :
    (es fs : List Entry) → last_matched fs ≡ false → last_matched (es ++ fs) ≡ false
last_matched-append [] fs h = h
last_matched-append (e ∷ es) fs h = last_matched-cons e (es ++ fs) (last_matched-append es fs h)

pub none-Moved : (p : Made) → Moved p p []
none-Moved p = record {
  entries = sym (append-nil p.entries);
  executed = omega arith;
  size = omega arith;
  bounded = λ h. h;
}

pub one-Moved :
    (e : Entry) (p : Made)
    → leb (p.size + entry_size e) max_report_bytes ≡ true
    → Moved p (add_entry e p) (e ∷ [])
unfolding add_entry
one-Moved e p fits = record {
  entries = refl;
  executed = omega arith;
  size = omega arith;
  bounded = λ h. ground arith;
}

pub cons-Moved :
    (e : Entry) (p p' : Made) (es : List Entry)
    → leb (p.size + entry_size e) max_report_bytes ≡ true
    → Moved (add_entry e p) p' es
    → Moved p p' (e ∷ es)
unfolding add_entry
cons-Moved e p p' es fits v = record {
  entries = v.entries ∙ append_assoc p.entries (e ∷ []) es;
  executed = omega (arith, v.executed);
  size = omega (arith, v.size);
  bounded = λ h. v.bounded (ground arith);
}

add_completed : (e : Entry) (p : Made) → (add_entry e p).completed ≡ p.completed
unfolding add_entry
add_completed e p = refl

pub append-Moved :
    (a b c : Made) (es fs : List Entry) → Moved a b es → Moved b c fs → Moved a c (es ++ fs)
append-Moved a b c es fs v w = record {
  entries = w.entries ∙ (ap (λ l. l ++ fs) v.entries ∙ append_assoc a.entries es fs);
  executed = omega (arith, v.executed, w.executed, length-append es fs);
  size = omega (arith, v.size, w.size, sizes-append es fs);
  bounded = λ h. w.bounded (v.bounded h);
}

-- The count of completed cases is no part of it.
pub completed-Moved :
    (n : ℕ) (p p' : Made) (es : List Entry)
    → Moved p p' es
    → Moved p (record p' { completed = n }) es
completed-Moved n p p' es v = record {
  entries = v.entries;
  executed = v.executed;
  size = v.size;
  bounded = v.bounded;
}

pub completed-Track :
    (n : ℕ) (suite_id : Str) (scan : Scan) (p : Made) (st : Groups)
    → Track suite_id scan p st
    → Track suite_id scan (record p { completed = n }) st
completed-Track n suite_id scan p st t = record { ids = t.ids; size = t.size }

module _ (binding : Binding) (provider : Bool) where
  -- An entry before the others.
  pub cons-Played :
      (suite_id id : Str) (groups n : ℕ) (scan : Scan) (p : Made) (st st' : Groups) (out : Loop)
      (e : Entry)
      → leb (p.size + entry_size e) max_report_bytes ≡ true
      → Passes binding provider (e ∷ []) st st'
      → Played binding provider suite_id id groups n scan (add_entry e p) st' out
      → Played binding provider suite_id id groups (n + 1) scan p st out
  cons-Played suite_id id groups n scan p st st' out e fits first
        (advanced t p' es st'' o v d k h tr g l c) =
      advanced t p' (e ∷ es) st'' o (cons-Moved e p p' es fits v) (d ∙ add_completed e p)
        (omega (arith, k)) (Passes-append binding provider (e ∷ []) es st st' st'' first h) tr g l c
  cons-Played suite_id id groups n scan p st st' out e fits first
        (stopped p' es st'' o v d k h m g) =
      stopped p' (e ∷ es) st'' o (cons-Moved e p p' es fits v) (d ∙ add_completed e p)
        (omega (arith, k)) (first false es ∙ h) (last_matched-cons e es m) g
