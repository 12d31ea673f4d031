-- ===== src/Scenarios/Budget.antt =====
-- `budget` of scenarios/types.go: a count of text bytes with a limit, `none` where a check fails.
-- After a failed check the source never reads the count again.
use clanker_foundry.Prelude.{
  ℕ, ◌+◌, Bool, true, false, not, ◌&&◌, ◌||◌, Option, none, some, List, [], ◌∷◌, leb, ◌==◌,
  if◌then◌else◌, length, all_of,
}
use clanker_foundry.Text.{Str, valid_string, nonblank}
use clanker_foundry.Lifecycle.{Task, Command, Strings, items}
use clanker_foundry.Scenarios.{Expected, max_text_bytes, max_items}

infixl 5 ◌>>=◌ ◌>>◌
abbrev pub ◌>>=◌ : {B : Type 0} → Option ℕ → (ℕ → Option B) → Option B
none >>= f = none
some n >>= f = f n

abbrev pub ◌>>◌ : {B : Type 0} → Option ℕ → Option B → Option B
m >> k = m >>= λ _. k

-- `if !test { return false }`, with the count as it is.
abbrev pub keep : Bool → ℕ → Option ℕ
keep true used = some used
keep false used = none

unfoldable pub is_nil : Strings → Bool
is_nil none = true
is_nil (some ss) = false

unfoldable pub is_present : Option Task → Bool
is_present none = false
is_present (some t) = true

module _ (limit : ℕ) where
  unfoldable pub spend : Str → ℕ → ℕ → Option ℕ
  spend s most used =
      if leb (length s) most && valid_string s
      then (if leb (used + length s) limit then some (used + length s) else none)
      else none

  -- Texts of one bound, in order.
  unfoldable pub spend_all : List Str → ℕ → ℕ → Option ℕ
  unfolding spend
  spend_all [] most used = some used
  spend_all (s ∷ ss) most used = spend s most used >>= spend_all ss most

  unfoldable pub spend_task : Task → ℕ → Option ℕ
  unfolding spend spend_all
  spend_task t used = do
    a ← spend_all (t.id ∷ t.state ∷ t.outcome ∷ []) max_text_bytes used
    b ← keep (leb (length (items t.acceptance)) max_items) a
    d ← elim t.owner [ none ↦ some b | some o ↦ spend o max_text_bytes b ]
    spend_all (items t.acceptance) max_text_bytes d

  unfoldable pub spend_command : Command → ℕ → Option ℕ
  unfolding spend_all
  spend_command c used = do
    a ← spend_all (c.kind ∷ c.actor ∷ []) max_text_bytes used
    elim c.review [
      | none ↦ some a
      | some r ↦
          spend_all (r.task_id ∷ r.model_digest ∷ r.task_digest ∷ r.reviewer ∷ r.decision ∷ [])
            max_text_bytes a
    ]

  unfoldable pub spend_reasons : Strings → ℕ → Option ℕ
  unfolding spend_all
  spend_reasons v used = keep (leb (length (items v)) max_items) used >>= spend_all (items v) 256

  unfoldable pub spend_optional : Option Task → ℕ → Option ℕ
  unfolding spend_task
  spend_optional none used = some used
  spend_optional (some t) used = spend_task t used

  unfoldable pub spend_expected : Expected → ℕ → Option ℕ
  unfolding spend spend_reasons spend_optional is_nil is_present
  spend_expected e used = do
    a ← spend e.transition_id max_text_bytes used
    b ← keep (not (is_nil e.refusals)) a
    d ← spend_reasons e.refusals b
    f ←
        keep
          (not e.is_ok
            || is_present e.task && nonblank e.transition_id && length (items e.refusals) == 0)
          d
    g ← keep (e.is_ok || not (length (items e.refusals) == 0)) f
    spend_optional e.task g

is_hex : ℕ → Bool
is_hex c = leb b'0' c && leb c b'9' || leb b'a' c && leb c b'f'

unfoldable pub hex_digest : Str → Bool
unfolding is_hex all_of
hex_digest s = length s == 64 && all_of is_hex s
