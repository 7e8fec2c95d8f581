-- ===== src/StateRes/Resolve.antt =====
-- `Resolve` (internal/usecase/state_res_sort.go). The check of a candidate is the resolver's
-- field `authResolver`, here the argument `check`.
pub mod Candidates
pub mod Steps
pub mod Deterministic
use dragonite.Base.{
  ℕ, ◌≡◌, String, Bool, true, false, ◌&&◌, ◌||◌, Option, none, some, List, [], ◌∷◌, ◌++◌, ◌==◌,
  string_eq, if◌then◌else◌,
}
use dragonite.Base.Map.{Map, keys, lookup, insert, copy}
use dragonite.Domain.{
  Evento, StateTuple, tuple_eq, new_state_tuple, StateMap, StateResolutionInput, Decoder,
}
use dragonite.StateRes.Partition.{MapOrder, Partition, partition_state}
use dragonite.StateRes.Sort.{sort_events_topologically}

abbrev pub Check : Type 0
Check = Evento → StateMap → Map String Evento → Bool

-- The ids that a set has under the conflicted tuples.
unfoldable pub collect_set : List StateTuple → StateMap → Map String Bool → Map String Bool
unfolding lookup insert
collect_set [] set ids = ids
collect_set (t ∷ ts) set ids =
    collect_set ts set (elim (lookup t set) [ none ↦ ids | some id ↦ insert id true ids ])

unfoldable pub collect_ids : List StateTuple → List StateMap → Map String Bool → Map String Bool
unfolding collect_set
collect_ids ts [] ids = ids
collect_ids ts (set ∷ sets) ids = collect_ids ts sets (collect_set ts set ids)

pub data Phase : Type 0 where
  phase1 phase2 phase3 : Phase

-- The switch on ev.Tipo.
unfoldable pub phase_of : String → Phase
phase_of tipo =
    if tipo == "m.room.create" || (tipo == "m.room.power_levels" || tipo == "m.room.join_rules")
    then phase1
    else if tipo == "m.room.member" || tipo == "m.room.third_party_invite"
    then phase2
    else phase3

abbrev pub phase_beq : Phase → Phase → Bool
phase_beq phase1 phase1 = true
phase_beq phase2 phase2 = true
phase_beq phase3 phase3 = true
phase_beq _ _ = false

-- The ids of one phase, in the order in which they were visited; unknown events are skipped.
unfoldable pub ids_of_phase : Phase → Map String Evento → List String → List String
unfolding lookup phase_of
ids_of_phase p events [] = []
ids_of_phase p events (id ∷ ids) =
    let rest = ids_of_phase p events ids in
    elim (lookup id events) [
      | none ↦ rest
      | some ev ↦ if phase_beq (phase_of ev.tipo) p then id ∷ rest else rest
    ]

-- `resolvedState` and `plEvent`, which the phases update.
pub record Accum : Type 0 where
  pub resolved : StateMap
  pub pl_event : Option Evento

-- One candidate with its event: a write, if the check lets it pass.
unfoldable pub apply_known : Check → Map String Evento → String → Evento → Accum → Accum
unfolding insert new_state_tuple
apply_known check events id ev acc =
    let tuple = new_state_tuple ev.tipo ev.state_key in
    if check ev acc.resolved events
    then record {
      resolved = insert tuple id acc.resolved;
      pl_event =
          if tuple.event_type == "m.room.power_levels" && tuple.state_key == ""
          then some ev
          else acc.pl_event;
    }
    else acc

-- A sorted id is that of a known event: the caller has filtered the others out.
unfoldable pub apply_found : Check → Map String Evento → String → Option Evento → Accum → Accum
unfolding apply_known
apply_found check events id none acc = acc
apply_found check events id (some ev) acc = apply_known check events id ev acc

unfoldable pub apply_event : Check → Map String Evento → String → Accum → Accum
unfolding lookup apply_found
apply_event check events id acc = apply_found check events id (lookup id events) acc

unfoldable pub apply_events : Check → Map String Evento → List String → Accum → Accum
unfolding apply_event
apply_events check events [] acc = acc
apply_events check events (id ∷ ids) acc =
    apply_events check events ids (apply_event check events id acc)

-- `applyPhase`: sort by the power levels known when the phase begins, then apply.
unfoldable pub apply_phase :
    Decoder → (List String → List String) → Check → Map String Evento → List String → Accum → Accum
unfolding apply_events sort_events_topologically
apply_phase d visit check events ids acc =
    apply_events check events (sort_events_topologically d visit ids events acc.pl_event) acc

-- The event of the unconflicted power levels, if it is known.
unfoldable pub unconflicted_levels : StateMap → Map String Evento → Option Evento
unfolding lookup
unconflicted_levels state events =
    elim (lookup (record { event_type = "m.room.power_levels"; state_key = "" }) state) [
      | none ↦ none
      | some id ↦ lookup id events
    ]

-- allEventsMap
unfoldable pub all_events : StateResolutionInput → Map String Evento
unfolding copy
all_events input = copy (copy [] input.events_map) input.auth_events_map

unfoldable pub conflicted_ids : MapOrder → List StateTuple → List StateMap → List String
unfolding collect_ids keys
conflicted_ids order ts sets = order.ids 0 (keys (collect_ids ts sets []))

-- The three phases, from the unconflicted state.
unfoldable pub run_phases :
    Decoder → MapOrder → Check → Map String Evento → List String → StateMap → Accum
unfolding apply_phase ids_of_phase unconflicted_levels copy
run_phases d order check events ids unconflicted =
    let start : Accum = record {
      resolved = copy [] unconflicted;
      pl_event = unconflicted_levels unconflicted events;
    } in
    let after1 = apply_phase d (order.ids 1) check events (ids_of_phase phase1 events ids) start in
    let after2 = apply_phase d (order.ids 2) check events (ids_of_phase phase2 events ids) after1 in
    apply_phase d (order.ids 3) check events (ids_of_phase phase3 events ids) after2

-- More than one set: what is in conflict is resolved on top of the rest.
unfoldable pub resolve_parts :
    Decoder → MapOrder → Check → Map String Evento → List StateMap → Partition → StateMap
unfolding run_phases conflicted_ids
resolve_parts d order check events sets p = elim p.conflicted [
  | [] ↦ p.unconflicted
  | _ ∷ _ ↦
      (run_phases d order check events (conflicted_ids order p.conflicted sets)
        p.unconflicted).resolved
]

-- `none` is the error "no state sets provided for resolution".
unfoldable pub resolve_sets :
    Decoder → MapOrder → Check → Map String Evento → List StateMap → Option StateMap
unfolding resolve_parts partition_state
resolve_sets d order check events [] = none
resolve_sets d order check events (set ∷ []) = some set
resolve_sets d order check events (set ∷ other ∷ sets) = some (
    resolve_parts d order check events (set ∷ other ∷ sets)
      (partition_state order (set ∷ other ∷ sets)))

unfoldable pub resolve : Decoder → MapOrder → Check → StateResolutionInput → Option StateMap
unfolding resolve_sets all_events
resolve d order check input = resolve_sets d order check (all_events input) input.state_sets
