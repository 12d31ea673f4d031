-- ===== src/Tests/TopologyTheorems.antt =====
-- The theorems about the state graph of the small model.
use clanker_foundry.Prelude.{
  ok, List, inl, ◌≢◌, ◌≡◌, ◌↔◌, refl, true, false, [], ◌∷◌, map, Memᴰ, any_of, select, All,
}
use clanker_foundry.Text.{Str, str, str_eq, contains}
use clanker_foundry.Text.Laws.{str_eq_iff}
use clanker_foundry.Model.{Model}
use clanker_foundry.Model.Validate.{validate, state_ids}
use clanker_foundry.Model.Validate.Search.{Walk, here, step}
use clanker_foundry.Model.Validate.Transitions.{edge_of}
use clanker_foundry.Topology.{
  Cycle, cycles_from, start_matrix, close_through, join_rows, join_row, join, reaches, reach_of,
  state_item, is_terminal,
}
use clanker_foundry.Topology.Reach.{reach_of_iff}
use clanker_foundry.Topology.Paths.{PathTo, state_item-PathTo}
use clanker_foundry.Topology.Cycles.{cycles_from_iff}
use clanker_foundry.Topology.Components.{IsPart, OnCycle}
use clanker_foundry.Topology.Terminals.{state_item_iff}
use clanker_foundry.Tests.Models.{moves, small, small_valid, state_of}

ready : Memᴰ (str "Ready") (state_ids small.states)
unfolding state_ids
ready = Memᴰ.head refl

reach_of_iff_example :
    (reaches (reach_of small) (str "Ready") (str "Done") ≡ true)
    ↔ Walk (map edge_of small.transitions) (str "Ready") (str "Done")
reach_of_iff_example = reach_of_iff small small_valid (str "Ready") (str "Done") ready

-- The search from Draft takes both transitions.
two_steps :
    (state_item small (state_of "Draft" false)).transition_ids
    ≡ str "T_prepare" ∷ str "T_finish" ∷ []
unfolding state_item str_eq contains any_of is_terminal select
two_steps = refl

has_path : (state_item small (state_of "Draft" false)).has_terminal_path ≡ true
unfolding state_item str_eq contains any_of is_terminal select
has_path = refl

state_item-PathTo_example :
    PathTo small.transitions
      (str "Draft")
      (state_item small (state_of "Draft" false)).terminal_id
      (state_item small (state_of "Draft" false)).transition_ids
    × (is_terminal small.states (state_item small (state_of "Draft" false)).terminal_id ≡ true)
state_item-PathTo_example = state_item-PathTo small (state_of "Draft" false) has_path

state_item_iff_example : ((state_item small (state_of "Draft" false)).has_terminal_path ≡ true) ↔ (
    (w : Str) × Walk (map edge_of small.transitions) (str "Draft") w
    × (is_terminal small.states w ≡ true))
state_item_iff_example = state_item_iff small (state_of "Draft" false)

-- The small model with a way back.
abbrev looping : Model
looping = record small {
  transitions = moves "T_back" "Ready" "back" "Draft" (str "G_outcome" ∷ []) ∷ small.transitions;
}

looping_valid : validate looping ≡ ok tt
unfolding validate str_eq
looping_valid = refl

abbrev loop : Cycle
loop = record {
  states = str "Ready" ∷ str "Draft" ∷ [];
  internal = str "T_back" ∷ str "T_prepare" ∷ [];
  outgoing = str "T_finish" ∷ [];
}

loop_reported : Memᴰ loop (
    cycles_from
      (reach_of looping)
      looping.transitions
      (state_ids looping.states)
      []
      (state_ids looping.states))
unfolding cycles_from reach_of start_matrix close_through join_rows join_row join state_ids str_eq
    contains any_of select
loop_reported = Memᴰ.head refl

abbrev edges : List (Str × Str)
edges = map edge_of looping.transitions

apart : str_eq (str "Ready") (str "Draft") ≡ false
unfolding str_eq
apart = refl

ready_draft : str "Ready" ≢ str "Draft"
ready_draft h = cc (apart, (str_eq_iff (str "Ready") (str "Draft")).1 h)

ready-OnCycle : OnCycle looping looping_valid (str "Ready")
unfolding state_ids
ready-OnCycle = inl (
  str "Draft",
  Memᴰ.tail (Memᴰ.head refl),
  ready_draft,
  (step here (Memᴰ.head refl), step here (Memᴰ.tail (Memᴰ.head refl))),
)

ready_state : Memᴰ (str "Ready") (state_ids looping.states)
unfolding state_ids
ready_state = Memᴰ.head refl

abbrev reported_cycles : List Cycle
reported_cycles =
    cycles_from (reach_of looping) looping.transitions (state_ids looping.states) []
      (state_ids looping.states)

cycles_from_iff_example :
    All (IsPart looping looping_valid) reported_cycles
    × (((c : Cycle) × Memᴰ c reported_cycles × Memᴰ (str "Ready") c.states)
        ↔ OnCycle looping looping_valid (str "Ready"))
cycles_from_iff_example = cycles_from_iff looping looping_valid (str "Ready") ready_state

ready_reported : (c : Cycle) × Memᴰ c reported_cycles × Memᴰ (str "Ready") c.states
ready_reported = (cycles_from_iff looping looping_valid (str "Ready") ready_state).1.1 ready-OnCycle
