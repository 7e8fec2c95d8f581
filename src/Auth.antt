-- ===== src/Auth.antt =====
-- `CheckAuth` (internal/usecase/auth_rule_resolver.go): whether a candidate event is authorized
-- by a partial room state.
pub mod Rules
use dragonite.Base.{
  ◌≡◌, String, Bool, true, false, not, ◌&&◌, ◌||◌, Option, none, some, ◌==◌, string_eq,
  if◌then◌else◌,
}
use dragonite.Base.Int.{ℤ, pos, ltb_ℤ, leb_ℤ, int_eq}
use dragonite.Base.Map.{Map, lookup}
use dragonite.Domain.{
  RawMessage, Evento, StateTuple, tuple_eq, new_state_tuple, StateMap, UserLevels, EventLevels,
  Decoder,
}
use dragonite.StateRes.Levels.{level_of}

-- `getStateEvent`: a key without an event, and an event that is not in the map, are nil.
unfoldable pub get_state_event : StateMap → Map String Evento → String → String → Option Evento
unfolding lookup new_state_tuple
get_state_event state events e_type s_key =
    elim (lookup (new_state_tuple e_type (some s_key)) state) [
      | none ↦ none
      | some id ↦ lookup id events
    ]

-- The level of the room's creator while there are no power levels.
unfoldable pub creator_level : Option Evento → String → ℤ
creator_level none user = pos 0
creator_level (some create) user = if create.sender == user then pos 100 else pos 0

-- `getUserPowerLevel`
unfoldable pub get_user_power_level : Decoder → Option Evento → Option Evento → String → ℤ
unfolding level_of creator_level
get_user_power_level d none create user = creator_level create user
get_user_power_level d (some pl) create user = elim (d.user_levels pl.content) [
  | none ↦ pos 0
  | some levels ↦ level_of user levels
]

-- `targetUserID`
unfoldable pub key_or_empty : Option String → String
key_or_empty none = ""
key_or_empty (some k) = k

-- case "m.room.member"
unfoldable pub check_member : Decoder → Evento → Option Evento → Option Evento → Bool
unfolding get_user_power_level key_or_empty
check_member d ev pl create = elim (d.membership ev.content) [
  | none ↦ false
  | some membership ↦
      (let target = key_or_empty ev.state_key in
        if membership == "join" && target == ev.sender
        then true
        else if not (target == ev.sender)
        then ltb_ℤ (get_user_power_level d pl create target)
            (get_user_power_level d pl create ev.sender)
        else true)
]

-- The level that an `events` entry or the given default asks for.
unfoldable pub listed_level : String → EventLevels → ℤ → ℤ
unfolding lookup
listed_level tipo levels default = elim (lookup tipo levels.events) [
  | some pl ↦ pl
  | none ↦ default
]

-- case "m.room.power_levels": 100, unless the power levels say otherwise
unfoldable pub power_level_requirement : Decoder → Option Evento → ℤ
unfolding listed_level
power_level_requirement d none = pos 100
power_level_requirement d (some pl) = elim (d.event_levels pl.content) [
  | none ↦ pos 100
  | some levels ↦
      listed_level "m.room.power_levels" levels
        (if ltb_ℤ (pos 0) levels.state_default then levels.state_default else pos 100)
]

-- default: 50, unless the power levels say otherwise
unfoldable pub state_requirement : Decoder → Option Evento → String → ℤ
unfolding listed_level
state_requirement d none tipo = pos 50
state_requirement d (some pl) tipo = elim (d.event_levels pl.content) [
  | none ↦ pos 50
  | some levels ↦
      listed_level tipo levels
        (if not (levels.state_default == pos 0) then levels.state_default else pos 50)
]

-- The sender's own member event says "join".
unfoldable pub is_joined : Decoder → Option Evento → Bool
is_joined d none = false
is_joined d (some member) = elim (d.membership member.content) [
  | none ↦ false
  | some membership ↦ membership == "join"
]

-- The switch, over the events that the state has for the power levels, the creation and the
-- sender's membership.
unfoldable pub authorize : Decoder → Evento → Option Evento → Option Evento → Option Evento → Bool
authorize d ev pl create member =
    if ev.tipo == "m.room.create"
    then true
    else if ev.tipo == "m.room.member"
    then check_member d ev pl create
    else if ev.tipo == "m.room.power_levels"
    then leb_ℤ (power_level_requirement d pl) (get_user_power_level d pl create ev.sender)
    else is_joined d member
      && leb_ℤ (state_requirement d pl ev.tipo) (get_user_power_level d pl create ev.sender)

unfoldable pub check_auth : Decoder → Evento → StateMap → Map String Evento → Bool
check_auth d ev state events =
    authorize d ev (get_state_event state events "m.room.power_levels" "")
      (get_state_event state events "m.room.create" "")
      (get_state_event state events "m.room.member" ev.sender)
