-- ===== src/Rooms/Admin.antt =====
-- Making a room (internal/usecase/room_admin.go). The new room's id, which is random, is an argument.
pub mod Founding
use dragonite.Base.{
  String, Bool, Option, none, some, List, [], ◌∷◌, ◌++◌, ◌==◌, string_eq, if◌then◌else◌,
}
use dragonite.Base.Map.{lookup, insert}
use dragonite.Domain.{Evento}
use dragonite.Store.{
  Tables, Canal, tip_eq, insert_tip, save_evento, upsert_current_state, upsert_membership,
  update_forward_extremities,
}
use dragonite.Store.Action.{
  hash_failure, db_failure, Action, ◌>>=◌, ◌>>◌, return, of_option, read, write, execute,
}
use dragonite.Rooms.{Env}
use dragonite.Rooms.Build.{
  StateEventParams, build_create_event, build_join_event, build_power_level_event,
  build_join_rules_event, build_name_event, build_topic_event, build_alias_event,
  build_initial_state_events,
}
use dragonite.Rooms.Genesis.{link_and_hash_genesis}
use dragonite.Rooms.Membership.{profile_names}
use dragonite.Rooms.Membership.Invite.{invite_user}
use Prim.Native.String.{◌++◌ as append}

pub record CreateRoomParams : Type 0 where
  pub creator_id : String
  pub alias : String
  pub name : String
  pub version : String
  pub topic : String
  pub invite : List String
  pub is_direct : Bool
  pub initial_state : List StateEventParams
  pub preset : Option String

unfoldable pub version_or_default : String → String
version_or_default v = if v == "" then "11" else v

-- The switch on the preset.
unfoldable pub rule_of_preset : Option String → String
rule_of_preset none = "invite"
rule_of_preset (some preset) = if preset == "public_chat" then "public" else "invite"

-- fmt.Sprintf("#%s:%s", props.Alias, s.serverName), or "" without an alias
unfoldable pub full_alias : Env → String → String
full_alias env alias =
    if alias == "" then "" else append "#" (append alias (append ":" env.server_name))

-- An event for a text that is not empty.
unfoldable pub event_for : String → Evento → List Evento
event_for value ev = if value == "" then [] else ev ∷ []

-- eventsToSave
unfoldable pub events_to_save : Env → String → CreateRoomParams → String × String → List Evento
unfolding build_create_event build_join_event build_power_level_event build_join_rules_event
    build_name_event build_topic_event build_alias_event build_initial_state_events
    version_or_default rule_of_preset full_alias event_for
events_to_save env room p names =
    build_create_event env room p.creator_id (version_or_default p.version)
    ∷ build_join_event env room p.creator_id (names.0) (names.1)
    ∷ build_power_level_event env room p.creator_id
    ∷ build_join_rules_event env room p.creator_id (rule_of_preset p.preset)
    ∷ (event_for p.name (build_name_event env room p.creator_id p.name)
        ++ (event_for p.topic (build_topic_event env room p.creator_id p.topic)
            ++ (event_for p.alias (build_alias_event env room p.creator_id (full_alias env p.alias))
                ++ build_initial_state_events env room p.creator_id p.initial_state)))

-- Create: a plain INSERT, which fails on a room that exists.
unfoldable pub create_canal : String → String → String → Tables → Tables
unfolding insert version_or_default
create_canal room creator version t = record t {
  canais = insert room (record { versao = version_or_default version; criador = creator }) t.canais;
}

unfoldable pub create : String → String → String → Action (Unit {0})
unfolding read lookup write create_canal
create room creator version = do
  taken ← read (λ t. lookup room t.canais)
  of_option db_failure (elim taken [ none ↦ some tt | some _ ↦ none ])
  write (create_canal room creator version)

unfoldable pub save_state : String → Evento → Option String → Action (Unit {0})
unfolding write upsert_current_state
save_state room ev none = return tt
save_state room ev (some key) =
    write (upsert_current_state room (record { event_type = ev.tipo; state_key = key }) ev.id)

unfoldable pub save_all : String → List Evento → Action (Unit {0})
unfolding write save_evento save_state
save_all room [] = return tt
save_all room (ev ∷ evs) = do
  write (save_evento ev)
  save_state room ev ev.state_key
  save_all room evs

-- The last event and the second one, which is the creator's join.
unfoldable pub last_of : Evento → List Evento → Evento
last_of ev [] = ev
last_of ev (next ∷ evs) = last_of next evs

unfoldable pub join_id : List Evento → String
join_id (create ∷ join ∷ rest) = join.id
join_id _ = ""

unfoldable pub save_alias : String → String → Tables → Tables
unfolding insert_tip
save_alias room alias t = record t {
  aliases = insert_tip (record { canal = room; evento = alias }) t.aliases;
}

unfoldable pub save_full_alias : String → String → Action (Unit {0})
unfolding write save_alias
save_full_alias room alias = if alias == "" then return tt else write (save_alias room alias)

-- The transaction. AddDirectMessage, whose error is dropped and which writes account data only, is
-- left out.
unfoldable pub create_body :
    Env → String → CreateRoomParams → Evento → List Evento → Action (Unit {0})
unfolding create save_all write update_forward_extremities last_of upsert_membership join_id
    save_full_alias full_alias
create_body env room p first evs = do
  create room p.creator_id p.version
  save_all room (first ∷ evs)
  write (update_forward_extremities room (last_of first evs).id (last_of first evs).prev_eventos)
  write (upsert_membership room p.creator_id "join" (join_id (first ∷ evs)))
  save_full_alias room (full_alias env p.alias)

unfoldable pub invite_all : Env → String → CreateRoomParams → List String → Action (Unit {0})
unfolding invite_user
invite_all env room p [] = return tt
invite_all env room p (invitee ∷ invitees) = do
  invite_user env room p.creator_id invitee "" p.is_direct
  invite_all env room p invitees

unfoldable pub save_room : Env → String → CreateRoomParams → List Evento → Action (Unit {0})
unfolding execute create_body
save_room env room p [] = return tt
save_room env room p (first ∷ evs) = execute (create_body env room p first evs)

unfoldable pub create_room : Env → String → CreateRoomParams → Action (Option Canal)
unfolding profile_names events_to_save link_and_hash_genesis save_room invite_all read lookup
create_room env room p = do
  names ← profile_names p.creator_id
  linked ← of_option hash_failure (link_and_hash_genesis env (events_to_save env room p names))
  save_room env room p linked
  invite_all env room p p.invite
  read (λ t. lookup room t.canais)
