-- ===== src/Rooms/Build/Initial.antt =====
-- A client's initial state cannot touch the events that the server makes itself.
use dragonite.Base.{String, ◌≡◌, ◌⊎◌, true, false, none, some, List, [], ◌∷◌, string_eq, elem}
use dragonite.Domain.{Evento}
use dragonite.Rooms.Build.{StateEventParams}

-- The state that a room gets from the server, whatever the client asks for.
abbrev pub made_by_server : List String
made_by_server =
    "m.room.create" ∷ "m.room.member" ∷ "m.room.power_levels" ∷ "m.room.join_rules"
    ∷ "m.room.history_visibility" ∷ "m.room.name" ∷ "m.room.topic" ∷ "m.room.canonical_alias" ∷ []

-- An event that asks for what the client did; a missing key is blank.
abbrev pub Answers : String → String → StateEventParams → Evento → Type 0
Answers canal creator req ev =
    (ev.tipo ≡ req.tipo)
    × (ev.content ≡ req.content)
    × (ev.sender ≡ creator)
    × (ev.canal_id ≡ canal)
    × ((req.state_key ≡ ev.state_key) ⊎ ((req.state_key ≡ none) × (ev.state_key ≡ some "")))

-- The events answer, in order, the requests for what the server does not make itself.
pub data AreInitial (canal creator : String) : List StateEventParams → List Evento → Type 0 where
  done : AreInitial canal creator [] []
  refused :
      (req : StateEventParams) (reqs : List StateEventParams) (evs : List Evento)
      → elem req.tipo made_by_server ≡ true
      → AreInitial canal creator reqs evs
      → AreInitial canal creator (req ∷ reqs) evs
  granted :
      (req : StateEventParams) (ev : Evento) (reqs : List StateEventParams) (evs : List Evento)
      → elem req.tipo made_by_server ≡ false
      → Answers canal creator req ev
      → AreInitial canal creator reqs evs
      → AreInitial canal creator (req ∷ reqs) (ev ∷ evs)
