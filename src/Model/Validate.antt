-- ===== src/Model/Validate.antt =====
-- `Validate` of model/ir.go: the bounded semantic rules, one function for each loop of the source.
-- A map that the source fills from a list of records with different IDs is that list; a map that
-- is only asked for membership is the list of its keys.
pub mod Search
pub mod Visits
pub mod Loop
pub mod Termination
pub mod Ids
pub mod Records
pub mod Transitions
pub mod Accepts
pub mod Graph
pub mod Guarantees
pub mod Guards
use clanker_foundry.Prelude.{
  ℕ, ◌+◌, suc, Bool, true, false, not, ◌&&◌, ◌||◌, Option, none, some, List, [], ◌∷◌, ◌++◌, map,
  ltb, leb, ◌==◌, if◌then◌else◌, Result, ok, err, ◌>>=◌, ◌>>◌, check, length, find_first, zero,
  select,
}
use clanker_foundry.Text.{Str, str_eq, contains}
use clanker_foundry.Model.{
  State, Requirement, Guard, Effect, Transition, Model, Invalid, identity_version,
  collection_bounds, bad_state, bad_initial_state, bad_requirement, bad_guard_identity,
  guard_not_boolean, transition_identity, ambiguous_trigger, transition_guards, guard_reference,
  assignment_order, effects_order, dead_end, missing_terminal, unreachable_state, unused_guard,
  unused_requirement, assign_owner, set_state, increment_revision, identifier, valid_text, bool,
}
use clanker_foundry.Model.Typing.{expr_type, typ_eq}

-- `add(id)`: the IDs with one more, unless it is no identifier or is taken.
unfoldable pub add_id : List Str → Str → Option (List Str)
unfolding identifier contains
add_id ids id = if not (identifier id) || contains ids id then none else some (id ∷ ids)

abbrev pub require {ℓ} : {A : Type ℓ} → Option A → Invalid → Result Invalid A
require none e = err e
require (some a) e = ok a

unfoldable pub find_state : List State → Str → Option State
unfolding find_first
find_state states id = find_first (λ s. str_eq s.id id) states

unfoldable pub state_ids : List State → List Str
state_ids states = map (λ s. s.id) states

unfoldable pub requirement_ids : List Requirement → List Str
requirement_ids requirements = map (λ r. r.id) requirements

unfoldable pub guard_ids : List Guard → List Str
guard_ids guards = map (λ g. g.id) guards

unfoldable pub check_states : List State → List Str → Result Invalid (List Str)
unfolding add_id valid_text
check_states [] ids = ok ids
check_states (s ∷ states) ids = do
  ids' ← require (add_id ids s.id) bad_state
  check (valid_text s.label 256 true) bad_state
  check_states states ids'

unfoldable pub check_requirements : List Requirement → List Str → Result Invalid (List Str)
unfolding add_id valid_text
check_requirements [] ids = ok ids
check_requirements (r ∷ requirements) ids = do
  ids' ← require (add_id ids r.id) bad_requirement
  check (valid_text r.text 4096 true) bad_requirement
  check_requirements requirements ids'

-- `count` is shared by the expressions of all guards.
unfoldable pub check_guards : List Str → List Guard → List Str → ℕ → Result Invalid (List Str)
unfolding add_id contains expr_type
check_guards requirements [] ids count = ok ids
check_guards requirements (g ∷ guards) ids count = do
  ids' ← require (add_id ids g.id) bad_guard_identity
  check (contains requirements g.requirement) bad_guard_identity
  (typ, count') ← expr_type g.condition 0 count
  check (typ_eq typ bool) guard_not_boolean
  check_guards requirements guards ids' count'

-- What the loop over the transitions fills.
pub record Scan : Type 0 where
  pub ids : List Str
  pub pairs : List Str
  pub out : List Str  -- one entry for each `out[t.From]++`
  pub edges : List (Str × Str)  -- (t.From, t.To), in the order of the appends
  pub used_guards : List Str

-- The loop over `t.Guards`, with the guards it has seen and those that are used.
unfoldable pub check_guard_refs :
    List Str → List Str → List Str → List Str → Result Invalid (List Str)
unfolding contains
check_guard_refs declared [] seen used = ok used
check_guard_refs declared (g ∷ guards) seen used = do
  check (contains declared g && not (contains seen g)) guard_reference
  check_guard_refs declared guards (g ∷ seen) (g ∷ used)

-- Three effects begin with the assignment, which is cut off.
cut_assignment : List Effect → Result Invalid (List Effect)
cut_assignment (a ∷ b ∷ c ∷ []) =
    if str_eq a.op assign_owner then ok (b ∷ c ∷ []) else err assignment_order
cut_assignment effects = ok effects

check_last_effects : List Effect → Result Invalid (Unit {0})
check_last_effects (a ∷ b ∷ []) =
    check (str_eq a.op set_state && str_eq b.op increment_revision) effects_order
check_last_effects _ = err effects_order

unfoldable pub check_effects : List Effect → Result Invalid (Unit {0})
unfolding cut_assignment check_last_effects
check_effects effects = do rest ← cut_assignment effects; check_last_effects rest

-- `t.From + "\x00" + t.Trigger`.
unfoldable pub pair_key : Transition → Str
pair_key t = t.from ++ (0 ∷ t.trigger)

unfoldable pub check_transition : List State → List Str → Transition → Scan → Result Invalid Scan
unfolding add_id find_state identifier contains check_guard_refs check_effects pair_key
check_transition states guards t scan = do
  ids ← require (add_id scan.ids t.id) transition_identity
  source ← require (find_state states t.from) transition_identity
  target ← require (find_state states t.to) transition_identity
  check (not source.terminal && identifier t.trigger) transition_identity
  check (not (contains scan.pairs (pair_key t))) ambiguous_trigger
  check (leb 1 (length t.guards) && leb (length t.guards) 64) transition_guards
  used ← check_guard_refs guards t.guards [] scan.used_guards
  check_effects t.effects
  ok record {
    ids = ids;
    pairs = pair_key t ∷ scan.pairs;
    out = t.from ∷ scan.out;
    edges = scan.edges ++ (t.from, t.to) ∷ [];
    used_guards = used;
  }

unfoldable pub check_transitions :
    List State → List Str → List Transition → Scan → Result Invalid Scan
unfolding check_transition
check_transitions states guards [] scan = ok scan
check_transitions states guards (t ∷ transitions) scan = do
  scan' ← check_transition states guards t scan
  check_transitions states guards transitions scan'

-- The number of terminal states; every other state has a way out.
unfoldable pub count_terminals : List State → List Str → ℕ → Result Invalid ℕ
unfolding contains
count_terminals [] out terminals = ok terminals
count_terminals (s ∷ states) out terminals =
    if s.terminal
    then count_terminals states out (terminals + 1)
    else (do check (contains out s.id) dead_end; count_terminals states out terminals)

pub record Queue : Type 0 where
  pub reached : List Str
  pub queue : List Str

unfoldable pub visit : Queue → Str → Queue
unfolding contains
visit q to =
    if contains q.reached to
    then q
    else record { reached = to ∷ q.reached; queue = q.queue ++ to ∷ [] }

unfoldable pub visit_all : List Str → Queue → Queue
unfolding visit
visit_all [] q = q
visit_all (to ∷ targets) q = visit_all targets (visit q to)

-- `edges[n]`.
unfoldable pub targets : List (Str × Str) → Str → List Str
unfolding select
targets edges n = map (λ e. e.1) (select (λ e. str_eq e.0 n) edges)

-- The `for len(queue) > 0` loop, on fuel.
unfoldable pub reach_from : List (Str × Str) → ℕ → Queue → Queue
unfolding visit_all targets
reach_from edges zero q = q
reach_from edges (suc fuel) q = elim q.queue [
  | [] ↦ q
  | n ∷ rest ↦ reach_from edges fuel (visit_all (targets edges n) (record q { queue = rest }))
]

abbrev pub start_queue : Str → Queue
start_queue initial = record { reached = initial ∷ []; queue = initial ∷ [] }

-- The states that the search reaches. Each edge queues its target at most once.
unfoldable pub reached_states : List (Str × Str) → Str → List Str
unfolding reach_from
reached_states edges initial = (reach_from edges (suc (length edges)) (start_queue initial)).reached

unfoldable pub check_used_guards : List Guard → List Str → Result Invalid (Unit {0})
unfolding contains
check_used_guards [] used = ok tt
check_used_guards (g ∷ guards) used = do
  check (contains used g.id) unused_guard
  check_used_guards guards used

unfoldable pub check_used_requirements : List Requirement → List Str → Result Invalid (Unit {0})
unfolding contains
check_used_requirements [] used = ok tt
check_used_requirements (r ∷ requirements) used = do
  check (contains used r.id) unused_requirement
  check_used_requirements requirements used

within : ℕ → ℕ → ℕ → Bool
within lo hi n = leb lo n && leb n hi

unfoldable pub check_bounds : Model → Result Invalid (Unit {0})
unfolding within identifier
check_bounds m = do
  check (m.version == 1 && identifier m.id && identifier m.initial) identity_version
  check
      (within 2 16 (length m.states)
        && within 1 64 (length m.guards)
        && within 1 64 (length m.requirements)
        && within 1 32 (length m.transitions))
      collection_bounds

-- From the graph on: dead ends, terminals, reachability and what is not used.
unfoldable pub check_graph : Model → Scan → Result Invalid (Unit {0})
unfolding count_terminals reached_states check_used_guards check_used_requirements
check_graph m scan = do
  terminals ← count_terminals m.states scan.out 0
  check (leb 1 terminals) missing_terminal
  check (length (reached_states scan.edges m.initial) == length m.states) unreachable_state
  check_used_guards m.guards scan.used_guards
  check_used_requirements m.requirements (map (λ g. g.requirement) m.guards)

abbrev pub new_scan : List Str → Scan
new_scan ids = record { ids = ids; pairs = []; out = []; edges = []; used_guards = [] }

-- From the IDs to the transitions.
unfoldable pub check_records : Model → Result Invalid Scan
unfolding check_states find_state check_requirements check_guards requirement_ids guard_ids
    check_transitions
check_records m = do
  ids ← check_states m.states (m.id ∷ [])
  initial ← require (find_state m.states m.initial) bad_initial_state
  ids' ← check_requirements m.requirements ids
  ids'' ← check_guards (requirement_ids m.requirements) m.guards ids' 0
  check_transitions m.states (guard_ids m.guards) m.transitions (new_scan ids'')

unfoldable pub validate : Model → Result Invalid (Unit {0})
unfolding check_bounds check_records check_graph
validate m = do check_bounds m; scan ← check_records m; check_graph m scan
