-- ===== src/Rooms/Genesis.antt =====
-- The first events of a room (internal/usecase/dag_manage.go). `none` is an error of the hash or the
-- signature, or the nil state key of a member event, which the Go code dereferences.
pub mod Chain
use dragonite.Base.{
  ℕ, suc, String, Bool, true, false, ◌&&◌, Option, none, some, List, [], ◌∷◌, ◌++◌, ◌==◌, nat_eq,
  string_eq, if◌then◌else◌,
}
use dragonite.Base.Int.{ℤ, pos, incr}
use dragonite.Base.Map.{Map, lookup, insert}
use dragonite.Domain.{Evento}
use dragonite.Rooms.{Env, hash_matrix_event}
use Prim.Native.String.{◌++◌ as append}

pub record GenesisState : Type 0 where
  pub latest_depth : ℤ
  pub latest_event_id : String
  pub auth_cache : Map String String

-- fmt.Sprintf("%s|%s", eventType, stateKey)
cache_key : String → String → String
cache_key tipo key = append tipo (append "|" key)

unfoldable pub get_auth : GenesisState → String → String → Option String
unfolding lookup cache_key
get_auth s tipo key = lookup (cache_key tipo key) s.auth_cache

-- `appendAuth`
unfoldable pub append_auth : GenesisState → String → String → List String → List String
unfolding get_auth
append_auth s tipo key auths = elim (get_auth s tipo key) [
  | none ↦ auths
  | some id ↦ auths ++ id ∷ []
]

-- The member event is about its sender.
unfoldable pub is_own : Evento → Option Bool
is_own ev =
    if ev.tipo == "m.room.member"
    then elim ev.state_key [ none ↦ none | some key ↦ some (key == ev.sender) ]
    else some false

unfoldable pub auths_for : Evento → GenesisState → Bool → List String
unfolding append_auth
auths_for ev s own =
    let base = append_auth s "m.room.create" "" [] in
    if own
    then append_auth s "m.room.power_levels" "" base
    else (let known =
          append_auth s "m.room.member" ev.sender (append_auth s "m.room.power_levels" "" base) in
        if ev.tipo == "m.room.member" then append_auth s "m.room.join_rules" "" known else known)

unfoldable pub resolve_genesis_auth : Evento → GenesisState → Option (List String)
unfolding is_own auths_for
resolve_genesis_auth ev s =
    if ev.tipo == "m.room.create"
    then some []
    else elim (is_own ev) [ none ↦ none | some own ↦ some (auths_for ev s own) ]

-- Step 1: the event's place in the line.
unfoldable pub link_timeline : ℕ → Evento → GenesisState → Evento
link_timeline i ev s =
    if i == 0
    then record ev { prev_eventos = []; depth = pos 0 }
    else record ev { prev_eventos = s.latest_event_id ∷ []; depth = incr s.latest_depth }

-- Step 4: the tracker for the next event.
unfoldable pub track : Evento → GenesisState → GenesisState
unfolding insert cache_key
track ev s = record {
  latest_depth = ev.depth;
  latest_event_id = ev.id;
  auth_cache = elim ev.state_key [
    | none ↦ s.auth_cache
    | some key ↦ insert (cache_key ev.tipo key) ev.id s.auth_cache
  ];
}

-- Steps 3: the id and the signature.
unfoldable pub seal : Env → Evento → Option Evento
unfolding hash_matrix_event
seal env ev = elim (hash_matrix_event env ev) [
  | none ↦ none
  | some id ↦ elim (env.sign_matrix_event (record ev { id = id })) [
    | none ↦ none
    | some sigs ↦ some (record ev { id = id; signatures = sigs })
  ]
]

-- Steps 1 to 3 for one event.
unfoldable pub link_event : Env → ℕ → Evento → GenesisState → Option Evento
unfolding link_timeline resolve_genesis_auth seal
link_event env i ev s =
    let placed = link_timeline i ev s in
    elim (resolve_genesis_auth placed s) [
      | none ↦ none
      | some auths ↦ seal env (record placed { auth_eventos = auths })
    ]

unfoldable pub cons_some : Evento → Option (List Evento) → Option (List Evento)
cons_some ev none = none
cons_some ev (some evs) = some (ev ∷ evs)

unfoldable pub link_events : Env → ℕ → List Evento → GenesisState → Option (List Evento)
unfolding link_event cons_some track
link_events env i [] s = some []
link_events env i (ev ∷ evs) s = elim (link_event env i ev s) [
  | none ↦ none
  | some linked ↦ cons_some linked (link_events env (suc i) evs (track linked s))
]

unfoldable pub link_and_hash_genesis : Env → List Evento → Option (List Evento)
unfolding link_events
link_and_hash_genesis env events =
    link_events env 0 events
      (record { latest_depth = pos 0; latest_event_id = ""; auth_cache = [] })
