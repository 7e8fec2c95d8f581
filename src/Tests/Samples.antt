-- ===== src/Tests/Samples.antt =====
-- A small room: its creation, its power levels, the creator's membership and two topics.
use dragonite.Base.{
  String, ◌≡◌, refl, Option, none, some, List, [], ◌∷◌, ◌++◌, arith, Eq, ◌==◌, string_eq, count,
  count-append, if◌then◌else◌,
}
use dragonite.Base.Int.{pos}
use dragonite.Base.Map.{Map}
use dragonite.Domain.{Evento, StateTuple, tuple_eq, StateMap, UserLevels, EventLevels, Decoder}
use dragonite.StateRes.Partition.{MapOrder}

abbrev pub blank : Evento
blank = record {
  id = "";
  tipo = "";
  content = "";
  canal_id = "!r:x";
  sender = "@alice:x";
  origem_servidor_ts = pos 0;
  stream_ordering = pos 0;
  state_key = some "";
  redacts = "";
  prev_eventos = [];
  auth_eventos = [];
  depth = pos 0;
  hashes = "";
  signatures = "";
  unsigned = "";
}

abbrev pub create_event : Evento
create_event = record blank { id = "$c"; tipo = "m.room.create" }

abbrev pub levels_event : Evento
levels_event = record blank {
  id = "$p";
  tipo = "m.room.power_levels";
  content = "levels";
  auth_eventos = "$c" ∷ [];
}

abbrev pub join_event : Evento
join_event = record blank {
  id = "$j";
  tipo = "m.room.member";
  content = "join";
  state_key = some "@alice:x";
  auth_eventos = "$c" ∷ [];
}

abbrev pub topic_a : Evento
topic_a = record blank {
  id = "$a";
  tipo = "m.room.topic";
  origem_servidor_ts = pos 5;
  auth_eventos = "$c" ∷ "$j" ∷ [];
}

abbrev pub topic_b : Evento
topic_b = record blank {
  id = "$b";
  tipo = "m.room.topic";
  origem_servidor_ts = pos 3;
  auth_eventos = "$c" ∷ "$a" ∷ [];
}

abbrev pub events : Map String Evento
events =
    ("$c", create_event)
    ∷ ("$p", levels_event)
    ∷ ("$j", join_event)
    ∷ ("$a", topic_a)
    ∷ ("$b", topic_b)
    ∷ []

-- A decoder of three texts.
abbrev pub user_levels_of : String → Option UserLevels
user_levels_of t =
    if t == "levels"
    then some
        (record { users = ("@alice:x", pos 100) ∷ ("@bob:x", pos 50) ∷ []; users_default = pos 0 })
    else none

abbrev pub event_levels_of : String → Option EventLevels
event_levels_of t =
    if t == "levels" then some (record { events = []; state_default = pos 50 }) else none

abbrev pub decoder : Decoder
decoder = record {
  user_levels = user_levels_of;
  event_levels = event_levels_of;
  membership = λ t. some t;
}

-- Maps visited in the order of insertion, and backwards.
abbrev pub forwards : MapOrder
forwards = record {
  ids = λ n l. l;
  tuples = λ n l. l;
  ids_keep = λ n a l. refl;
  tuples_keep = λ n t l. refl;
}

module _ {A : Type 0} ⦃e : Eq A⦄ where
  unfoldable pub reversed : List A → List A
  reversed [] = []
  reversed (x ∷ xs) = reversed xs ++ x ∷ []

  pub count-reversed : (a : A) (l : List A) → count a (reversed l) ≡ count a l
  unfolding reversed count
  count-reversed a [] = refl
  count-reversed a (x ∷ xs) =
      omega (arith, count-append a (reversed xs) (x ∷ []), count-reversed a xs)

abbrev pub backwards : MapOrder
backwards = record {
  ids = λ n l. reversed l;
  tuples = λ n l. reversed l;
  ids_keep = λ n a l. count-reversed a l;
  tuples_keep = λ n t l. count-reversed t l;
}

abbrev pub topic : StateTuple
topic = record { event_type = "m.room.topic"; state_key = "" }

abbrev pub joined : StateTuple
joined = record { event_type = "m.room.member"; state_key = "@alice:x" }

abbrev pub levels : StateTuple
levels = record { event_type = "m.room.power_levels"; state_key = "" }

abbrev pub sets : List StateMap
sets =
    ((joined, "$j") ∷ (levels, "$p") ∷ (topic, "$a") ∷ [])
    ∷ ((joined, "$j") ∷ (levels, "$p") ∷ (topic, "$b") ∷ [])
    ∷ []
