-- ===== src/Tests/Rooms.antt =====
-- A public room that Alice leaves and Bob joins, and the first events of a room.
use dragonite.Base.{◌≡◌, inl, refl, true, false, none, some, List, [], ◌∷◌, string_eq}
use dragonite.Base.Int.{pos}
use dragonite.Base.Map.{lookup}
use dragonite.Domain.{Evento}
use dragonite.Store.{Tables, membership_of, state_event_id}
use dragonite.Store.Action.{Db, ok, db_failure, ◌>>=◌, of_option, fail_if, return}
use dragonite.Rooms.{Env, is_remote_user}
use dragonite.Base.{length}
use dragonite.Rooms.Admin.{CreateRoomParams, events_to_save}
use dragonite.Rooms.Admin.Founding.{events_to_save-IsLine}
use dragonite.Rooms.Build.{StateEventParams}
use dragonite.Rooms.Genesis.{link_and_hash_genesis}
use dragonite.Rooms.Genesis.Chain.{IsLine, IsBacked, link_and_hash_genesis-IsLine}
use dragonite.Rooms.Membership.{join_rule_of, leave_room, join_local_room}
use dragonite.Rooms.Membership.Invite.{invite_user}
use dragonite.Rooms.Membership.Joining.{MayJoin}
use dragonite.Rooms.Membership.Invites.{MayMeet, invite_user_invites, invite_user_guarded}
use dragonite.Rooms.Membership.Outcome.{
  leave_room_undone, invite_user_undone, join_local_room_joins, join_local_room_guarded,
}
use dragonite.Tests.Samples.{blank, create_event, join_event, topic_a}

-- A server on which an event is named by its type.
abbrev pub env : Env
env = record {
  server_name = "x";
  now = pos 7;
  marshal = λ fields. "{}";
  join_rule = λ content. some content;
  invite_levels = λ content. none;
  digest = λ ev. some ev.tipo;
  sign_matrix_event = λ ev. some "sig";
  send_invite_call = λ server room version ev state. none;
}

abbrev pub rules : Evento
rules = record blank { id = "$r"; tipo = "m.room.join_rules"; content = "public" }

abbrev pub tables : Tables
tables = record {
  canais = ("!r:x", record { versao = "11"; criador = "@alice:x" }) ∷ [];
  eventos = ("$r", rules) ∷ [];
  evento_serial = 0;
  estado_atual =
      (
        record {
          canal = "!r:x";
          tuple = record { event_type = "m.room.join_rules"; state_key = "" };
        },
        "$r",
      )
      ∷ [];
  memberships =
      (record { canal = "!r:x"; usuario = "@alice:x" }, record { kind = "join"; evento = "$j" })
      ∷ [];
  extremidades = record { canal = "!r:x"; evento = "$r" } ∷ [];
  perfis = [];
  aliases = [];
  recibos = [];
  digitando = [];
  mensagens = [];
  mensagem_serial = 0;
  versoes = [];
  versao_serial = 0;
  chaves = [];
  dispositivos = [];
  chaves_dispositivo = [];
  chaves_uso_unico = [];
  uso_unico_serial = 0;
  chaves_fallback = [];
  account_data = [];
}

abbrev pub calm : Db
calm = record { tables = tables; faults = []; woken = []; outgoing = [] }

invite_user_invites_example :
    (db : Db) × (invite_user env "!r:x" "@alice:x" "@bob:x" "" false calm ≡ (ok tt, db))
    × (membership_of "!r:x" "@bob:x" db.tables ≡ "invite")
unfolding membership_of lookup state_event_id is_remote_user
invite_user_invites_example =
    invite_user_invites env "!r:x" "@alice:x" "@bob:x" "" false calm refl
      (refl, (λ e. absurd cc), (λ e. absurd cc)) tt (λ ev. (ev.tipo, refl)) refl

invite_user_guarded_example :
    (membership_of "!r:x" "@bob:x"
        (invite_user env "!r:x" "@alice:x" "@bob:x" "" false calm).1.tables
      ≡ "invite")
    × MayMeet "!r:x" "@alice:x" "@bob:x" tables
unfolding invite_user ◌>>=◌ of_option fail_if return
invite_user_guarded_example =
    invite_user_guarded env "!r:x" "@alice:x" "@bob:x" "" false calm
      (invite_user env "!r:x" "@alice:x" "@bob:x" "" false calm).1 refl

-- The thirteenth statement fails: a write inside the transaction.
abbrev pub shaky : Db
shaky = record calm {
  faults =
      false ∷ false ∷ false ∷ false ∷ false ∷ false ∷ false ∷ false ∷ false ∷ false ∷ false ∷ false
      ∷ true ∷ [];
}

join_local_room_joins_example :
    (db : Db) × (join_local_room env "@bob:x" "!r:x" calm ≡ (ok tt, db))
    × (membership_of "!r:x" "@bob:x" db.tables ≡ "join")
unfolding lookup join_rule_of
join_local_room_joins_example = join_local_room_joins env "@bob:x" "!r:x" calm refl (inl refl)

leave_room_undone_example : (leave_room env "@alice:x" "!r:x" shaky).1.tables ≡ tables
unfolding leave_room ◌>>=◌ fail_if
leave_room_undone_example =
    leave_room_undone env "@alice:x" "!r:x" shaky (leave_room env "@alice:x" "!r:x" shaky).1
      db_failure refl

join_local_room_guarded_example :
    (membership_of "!r:x" "@bob:x" (join_local_room env "@bob:x" "!r:x" calm).1.tables ≡ "join")
    × MayJoin env "@bob:x" "!r:x" tables
unfolding join_local_room ◌>>=◌ of_option fail_if
join_local_room_guarded_example =
    join_local_room_guarded env "@bob:x" "!r:x" calm (join_local_room env "@bob:x" "!r:x" calm).1
      refl

invite_user_undone_example :
    (invite_user env "!r:x" "@alice:x" "@bob:x" "" false shaky).1.tables ≡ tables
unfolding invite_user ◌>>=◌ of_option fail_if return
invite_user_undone_example =
    invite_user_undone env "!r:x" "@alice:x" "@bob:x" "" false shaky
      (invite_user env "!r:x" "@alice:x" "@bob:x" "" false shaky).1 db_failure refl

abbrev first_events : List Evento
first_events = create_event ∷ join_event ∷ topic_a ∷ []

abbrev linked : List Evento
linked = elim (link_and_hash_genesis env first_events) [ none ↦ [] | some evs ↦ evs ]

link_and_hash_genesis-IsLine_example : IsLine linked × IsBacked [] linked
unfolding link_and_hash_genesis
link_and_hash_genesis-IsLine_example = link_and_hash_genesis-IsLine env first_events linked refl

abbrev wishes : List StateEventParams
wishes =
    record { state_key = none; tipo = "m.room.power_levels"; content = "mine" }
    ∷ record { state_key = none; tipo = "m.room.avatar"; content = "picture" }
    ∷ []

abbrev params : CreateRoomParams
params = record {
  creator_id = "@alice:x";
  alias = "tea";
  name = "Tea";
  version = "";
  topic = "";
  invite = [];
  is_direct = false;
  initial_state = wishes;
  preset = some "public_chat";
}

events_to_save-IsLine_example :
    (out : List Evento) × (link_and_hash_genesis env
        (events_to_save env "!t:x" params ("Alice", ""))
      ≡ some out)
    × (length out ≡ length (events_to_save env "!t:x" params ("Alice", "")))
    × IsLine out
    × IsBacked [] out
events_to_save-IsLine_example =
    events_to_save-IsLine env (λ ev. (ev.tipo, refl)) (λ ev. ("sig", refl)) "!t:x" params
      ("Alice", "")
