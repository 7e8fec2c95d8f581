-- ===== src/Auth/Rules.antt =====
-- What `CheckAuth` guarantees of the events that it lets pass.
use dragonite.Base.{
  ◌≡◌, ◌≢◌, ◌∙◌, sym, refl, String, true, false, inl, inr, Option, none, some, arith, string_eq,
  Bool-cases,
}
use dragonite.Base.Int.{ℤ, ltb_ℤ, ltb_ℤ_asym}
use dragonite.Base.Map.{Map, lookup}
use dragonite.Domain.{Evento, StateTuple, tuple_eq, new_state_tuple, StateMap, Decoder}
use dragonite.Auth.{
  get_state_event, get_user_power_level, creator_level, check_member, key_or_empty,
  power_level_requirement, state_requirement, authorize, check_auth,
}
use text.Mathlib.TextEquality.{eq_iff}

get_state_event-same :
    (s s' : StateMap) (events : Map String Evento) (e_type s_key : String)
    → ((t : StateTuple) → lookup t s ≡ lookup t s')
    → get_state_event s events e_type s_key ≡ get_state_event s' events e_type s_key
unfolding get_state_event
get_state_event-same s s' events e_type s_key same =
    ground (arith, same (new_state_tuple e_type (some s_key)))

-- States with the same entries authorize the same events.
pub check_auth-same :
    (d : Decoder) (ev : Evento) (s s' : StateMap) (events : Map String Evento)
    → ((t : StateTuple) → lookup t s ≡ lookup t s')
    → check_auth d ev s events ≡ check_auth d ev s' events
unfolding check_auth
check_auth-same d ev s s' events same = cc (
  get_state_event-same s s' events "m.room.power_levels" "" same,
  get_state_event-same s s' events "m.room.create" "" same,
  get_state_event-same s s' events "m.room.member" ev.sender same,
)

-- With no power levels, and no creator or another one, nobody has a level.
authorize_creator :
    (d : Decoder) (ev : Evento) (create member : Option Evento)
    → authorize d ev none create member ≡ true
    → ev.tipo ≢ "m.room.create"
    → (ev.tipo ≡ "m.room.member" → key_or_empty ev.state_key ≢ ev.sender)
    → (c : Evento) × (create ≡ some c) × (c.sender ≡ ev.sender)
unfolding authorize check_member get_user_power_level creator_level power_level_requirement
    state_requirement
authorize_creator d ev none member passed tipo other = absurd (
    ground (
      arith,
      eq_iff ev.tipo "m.room.create",
      eq_iff ev.tipo "m.room.member",
      eq_iff (key_or_empty ev.state_key) ev.sender,
    ))
authorize_creator d ev (some c) member passed tipo other = (
  c,
  refl,
  ground (
    arith,
    eq_iff ev.tipo "m.room.create",
    eq_iff ev.tipo "m.room.member",
    eq_iff (key_or_empty ev.state_key) ev.sender,
    eq_iff c.sender ev.sender,
  ),
)

-- While the state has no power levels only the room's creator passes: an event that is let pass is
-- an m.room.create, a member event about its own sender, or sent by the sender of the
-- m.room.create event in the state.
pub no_levels_creator_only :
    (d : Decoder) (ev : Evento) (state : StateMap) (events : Map String Evento)
    → get_state_event state events "m.room.power_levels" "" ≡ none
    → check_auth d ev state events ≡ true
    → ev.tipo ≢ "m.room.create"
    → (ev.tipo ≡ "m.room.member" → key_or_empty ev.state_key ≢ ev.sender)
    → (c : Evento) × (get_state_event state events "m.room.create" "" ≡ some c)
      × (c.sender ≡ ev.sender)
unfolding check_auth
no_levels_creator_only d ev state events no_pl passed =
    authorize_creator d ev (get_state_event state events "m.room.create" "")
      (get_state_event state events "m.room.member" ev.sender) (rw no_pl at passed)

check_member_target :
    (d : Decoder) (ev : Evento) (pl create : Option Evento) (target : String)
    → ev.state_key ≡ some target
    → target ≢ ev.sender
    → check_member d ev pl create ≡ true
    → ltb_ℤ (get_user_power_level d pl create target) (get_user_power_level d pl create ev.sender)
      ≡ true
unfolding check_member key_or_empty
check_member_target d ev pl create target k ne passed = ground (arith, eq_iff target ev.sender)

authorize_member :
    (d : Decoder) (ev : Evento) (pl create member : Option Evento)
    → ev.tipo ≡ "m.room.member"
    → authorize d ev pl create member ≡ check_member d ev pl create
unfolding authorize
authorize_member d ev pl create member t = rw t

-- Nobody can act on a user who could act on them: of two member events, each about the other's
-- sender, one state lets at most one pass.
pub member_change_asym :
    (d : Decoder) (a b : Evento) (state : StateMap) (events : Map String Evento)
    → a.tipo ≡ "m.room.member"
    → b.tipo ≡ "m.room.member"
    → a.state_key ≡ some b.sender
    → b.state_key ≡ some a.sender
    → a.sender ≢ b.sender
    → check_auth d a state events ≡ true
    → check_auth d b state events ≡ false
unfolding check_auth
member_change_asym d a b state events ta tb ka kb ne passed =
    elim (Bool-cases (check_auth d b state events)) [
      | inl too ↦ absurd (
          ground (
            arith,
            ltb_ℤ_asym (level b.sender) (level a.sender) (
                check_member_target d a pl create b.sender ka (λ e. ne (sym e))
                  (sym (authorize_member d a pl create (member a) ta) ∙ passed)),
            check_member_target d b pl create a.sender kb ne
                (sym (authorize_member d b pl create (member b) tb) ∙ too),
          ))
      | inr refused ↦ refused
    ]
  where
    pl : Option Evento
    pl = get_state_event state events "m.room.power_levels" ""

    create : Option Evento
    create = get_state_event state events "m.room.create" ""

    member : Evento → Option Evento
    member ev = get_state_event state events "m.room.member" ev.sender

    level : String → ℤ
    level user = get_user_power_level d pl create user
