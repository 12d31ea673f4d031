-- ===== src/Topology.antt =====
-- modeling/lifecycle/topology/analysis.go: the structure of the declared state graph. `fits` says
-- whether `encode` accepts a report.
pub mod Closure
pub mod Reach
pub mod Paths
pub mod Terminals
pub mod Members
pub mod Components
pub mod Cycles
use clanker_foundry.Prelude.{
  ℕ, zero, suc, Bool, true, false, not, ◌&&◌, ◌||◌, List, [], ◌∷◌, ◌++◌, map, any_of, select,
  if◌then◌else◌, ltb, length, Result, ok, err, ◌>>=◌, ◌>>◌, check, or_error,
}
use clanker_foundry.Text.{Str, str, str_eq, contains}
use clanker_foundry.Model.{State, Transition, Model}
use clanker_foundry.Model.Validate.{state_ids}
use clanker_foundry.Model.Normalize.{normalize}
use clanker_foundry.Canonical.{digest}
use clanker_foundry.Impact.{key_eq}

-- `reach`, the matrix, as the list of the pairs of IDs where it is true.
abbrev pub Matrix : Type 0
Matrix = List (Str × Str)

unfoldable pub reaches : Matrix → Str → Str → Bool
unfolding key_eq any_of
reaches r i j = any_of (λ p. key_eq p (i, j)) r

-- `reach[i][j] = reach[i][j] || (reach[i][k] && reach[k][j])`.
unfoldable pub join : Str → Matrix → Str → Str → Matrix
unfolding reaches
join k r i j = if reaches r i k && reaches r k j then (i, j) ∷ r else r

unfoldable pub join_row : Str → Str → List Str → Matrix → Matrix
join_row k i [] r = r
join_row k i (j ∷ js) r = join_row k i js (join k r i j)

unfoldable pub join_rows : Str → List Str → List Str → Matrix → Matrix
join_rows k [] js r = r
join_rows k (i ∷ is) js r = join_rows k is js (join_row k i js r)

unfoldable pub close_through : List Str → List Str → Matrix → Matrix
close_through [] states r = r
close_through (k ∷ ks) states r = close_through ks states (join_rows k states states r)

unfoldable pub start_matrix : List Str → List Transition → Matrix
start_matrix states transitions =
    map (λ s. (s, s)) states ++ map (λ (t : Transition). (t.from, t.to)) transitions

unfoldable pub reach_of : Model → Matrix
unfolding state_ids
reach_of m =
    close_through (state_ids m.states) (state_ids m.states)
      (start_matrix (state_ids m.states) m.transitions)

-- `State` of the report.
pub record StateItem : Type 0 where
  pub id : Str
  pub has_terminal_path : Bool
  pub terminal_id : Str
  pub transition_ids : List Str

pub record Cycle : Type 0 where
  pub states : List Str
  pub internal : List Str
  pub outgoing : List Str

pub record TopologyReport : Type 0 where
  pub version : Str
  pub mode : Str
  pub authority : Str
  pub model_id : Str
  pub model_digest : Str
  pub initial : Str
  pub states : List StateItem
  pub cycles : List Cycle

-- A `node` of the queue: ID and path.
abbrev pub Node : Type 0
Node = Str × List Str

pub record Search : Type 0 where
  pub seen : List Str
  pub queue : List Node

-- One edge of the current node.
unfoldable pub push_edge : List Str → Search → Transition → Search
unfolding contains
push_edge path q t =
    if contains q.seen t.to
    then q
    else record { seen = t.to ∷ q.seen; queue = q.queue ++ (t.to, path ++ t.id ∷ []) ∷ [] }

unfoldable pub push_edges : List Str → List Transition → Search → Search
unfolding push_edge
push_edges path [] q = q
push_edges path (t ∷ ts) q = push_edges path ts (push_edge path q t)

-- `terminal[id]`, false for an ID that is no state's.
unfoldable pub is_terminal : List State → Str → Bool
is_terminal states id = any_of (λ (s : State). str_eq s.id id && s.terminal) states

abbrev found_at : Str → Node → StateItem
found_at id n = record {
  id = id;
  has_terminal_path = true;
  terminal_id = n.0;
  transition_ids = n.1;
}

abbrev not_found : Str → StateItem
not_found id = record { id = id; has_terminal_path = false; terminal_id = []; transition_ids = [] }

-- The loop over the queue, on fuel.
unfoldable pub search : List State → List Transition → Str → ℕ → Search → StateItem
unfolding push_edges is_terminal
search states ts id zero q = not_found id
search states ts id (suc fuel) q = elim q.queue [
  | [] ↦ not_found id
  | n ∷ rest ↦
      let later = search states ts id fuel (
        push_edges (n.1) (select (λ (t : Transition). str_eq t.from (n.0)) ts)
          (record { seen = q.seen; queue = rest })) in
      if is_terminal states (n.0) then found_at id n else later
]

-- Each transition puts its target on the queue at most once.
unfoldable pub state_item : Model → State → StateItem
unfolding search
state_item m s =
    search m.states m.transitions s.id (suc (length m.transitions))
      (record { seen = s.id ∷ []; queue = (s.id, []) ∷ [] })

-- The strongly connected component of `i` among the unused states.
unfoldable pub component_of : Matrix → List Str → Str → List Str → List Str
unfolding reaches contains
component_of r used i states =
    select (λ j. not (contains used j) && (reaches r i j && reaches r j i)) states

unfoldable pub cycle_of : List Transition → List Str → Cycle
unfolding contains
cycle_of ts members = record {
  states = members;
  internal =
      map (λ (t : Transition). t.id)
        (select (λ (t : Transition). contains members t.from && contains members t.to) ts);
  outgoing =
      map (λ (t : Transition). t.id)
        (select (λ (t : Transition). contains members t.from && not (contains members t.to)) ts);
}

unfoldable pub has_self_loop : List Transition → List Str → Bool
unfolding contains
has_self_loop ts members =
    any_of
      (λ (t : Transition). contains members t.from && (contains members t.to && str_eq t.from t.to))
      ts

unfoldable pub cycles_from : Matrix → List Transition → List Str → List Str → List Str → List Cycle
unfolding component_of cycle_of has_self_loop
cycles_from r ts states used [] = []
cycles_from r ts states used (i ∷ is) =
    let members = component_of r used i states in
    let skipped = cycles_from r ts states used is in
    let later = cycles_from r ts states (members ++ used) is in
    if contains used i
    then skipped
    else if ltb 1 (length members) || has_self_loop ts members
    then cycle_of ts members ∷ later
    else later

pub data TopologyError : Type 0 where
  invalid_model : TopologyError

unfoldable pub analyze :
    (Str → Str) → (TopologyReport → Bool) → Model → Result TopologyError TopologyReport
analyze sha256_hex fits input = do
  m ← or_error (normalize input) invalid_model
  d ← or_error (digest sha256_hex m) invalid_model
  let out : TopologyReport = record {
    version = str "lifecycle-structural-topology/v1";
    mode = str "structural-only";
    authority = str "none";
    model_id = m.id;
    model_digest = d;
    initial = m.initial;
    states = map (state_item m) m.states;
    cycles = cycles_from (reach_of m) m.transitions (state_ids m.states) [] (state_ids m.states);
  }
  check (fits out) invalid_model
  ok out
