-- ===== src/Rooms/Build.antt =====
-- The builders of events (internal/usecase/event_builder.go).
pub mod Initial
use dragonite.Base.{
  String, Bool, true, false, ◌||◌, Option, none, some, List, [], ◌∷◌, ◌++◌, ◌==◌, string_eq,
  if◌then◌else◌,
}
use dragonite.Base.Int.{pos}
use dragonite.Domain.{RawMessage, Evento}
use dragonite.Rooms.{Value, text, number, numbers, Fields, Env}

-- The fields that are not set have their zero value.
unfoldable pub new_base_event : Env → String → String → String → Option String → RawMessage → Evento
new_base_event env canal sender tipo key content = record {
  id = "";
  tipo = tipo;
  content = content;
  canal_id = canal;
  sender = sender;
  origem_servidor_ts = env.now;
  stream_ordering = pos 0;
  state_key = key;
  redacts = "";
  prev_eventos = [];
  auth_eventos = [];
  depth = pos 0;
  hashes = "";
  signatures = "";
  unsigned = "";
}

unfoldable pub build_create_event : Env → String → String → String → Evento
unfolding new_base_event
build_create_event env canal creator version =
    new_base_event env canal creator "m.room.create" (some "")
      (env.marshal (("creator", text creator) ∷ ("room_version", text version) ∷ []))

-- A field for a text that is not empty.
unfoldable pub text_field : String → String → Fields
text_field name value = if value == "" then [] else (name, text value) ∷ []

unfoldable pub build_join_event : Env → String → String → String → String → Evento
unfolding new_base_event text_field
build_join_event env canal user display_name avatar_url =
    new_base_event env canal user "m.room.member" (some user) (
      env.marshal (
        ("membership", text "join")
        ∷ (text_field "displayname" display_name ++ text_field "avatar_url" avatar_url)))

-- The names are not used.
unfoldable pub build_leave_event : Env → String → String → String → String → Evento
unfolding new_base_event
build_leave_event env canal sender display_name avatar_url =
    new_base_event env canal sender "m.room.member" (some sender)
      (env.marshal (("membership", text "leave") ∷ []))

unfoldable pub build_power_level_event : Env → String → String → Evento
unfolding new_base_event
build_power_level_event env canal creator =
    new_base_event env canal creator "m.room.power_levels" (some "") (
      env.marshal (
        ("users_default", number (pos 0))
        ∷ ("events_default", number (pos 0))
        ∷ ("state_default", number (pos 50))
        ∷ ("ban", number (pos 50))
        ∷ ("kick", number (pos 50))
        ∷ ("redact", number (pos 50))
        ∷ ("invite", number (pos 0))
        ∷ ("users", numbers ((creator, pos 100) ∷ []))
        ∷ ("events", numbers (("m.room.name", pos 50) ∷ ("m.room.power_levels", pos 100) ∷ []))
        ∷ []))

unfoldable pub build_join_rules_event : Env → String → String → String → Evento
unfolding new_base_event
build_join_rules_event env canal creator rule =
    new_base_event env canal creator "m.room.join_rules" (some "")
      (env.marshal (("join_rule", text rule) ∷ []))

unfoldable pub build_name_event : Env → String → String → String → Evento
unfolding new_base_event
build_name_event env canal sender name =
    new_base_event env canal sender "m.room.name" (some "") (env.marshal (("name", text name) ∷ []))

unfoldable pub build_topic_event : Env → String → String → String → Evento
unfolding new_base_event
build_topic_event env canal sender topic =
    new_base_event env canal sender "m.room.topic" (some "")
      (env.marshal (("topic", text topic) ∷ []))

unfoldable pub build_alias_event : Env → String → String → String → Evento
unfolding new_base_event
build_alias_event env canal sender alias =
    new_base_event env canal sender "m.room.canonical_alias" (some "")
      (env.marshal (("alias", text alias) ∷ []))

unfoldable pub is_protected_genesis_event : String → Bool
is_protected_genesis_event t =
    t == "m.room.create"
    || (t == "m.room.member"
        || (t == "m.room.power_levels"
            || (t == "m.room.join_rules"
                || (t == "m.room.history_visibility"
                    || (t == "m.room.name"
                        || (t == "m.room.topic" || t == "m.room.canonical_alias"))))))

-- The content is the JSON text of what the client gave.
pub record StateEventParams : Type 0 where
  pub state_key : Option String
  pub tipo : String
  pub content : RawMessage

unfoldable pub key_or_blank : Option String → String
key_or_blank none = ""
key_or_blank (some k) = k

unfoldable pub build_initial_state_events :
    Env → String → String → List StateEventParams → List Evento
unfolding is_protected_genesis_event new_base_event key_or_blank
build_initial_state_events env canal creator [] = []
build_initial_state_events env canal creator (req ∷ reqs) =
    let rest = build_initial_state_events env canal creator reqs in
    if is_protected_genesis_event req.tipo
    then rest
    else new_base_event env canal creator req.tipo (some (key_or_blank req.state_key)) req.content
      ∷ rest
