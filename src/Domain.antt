-- ===== src/Domain.antt =====
-- The data model (internal/domain/evento.go, internal/domain/state_res.go) and what the program
-- reads out of a JSON text. `json.RawMessage` is the text itself; what `json.Unmarshal` makes of
-- it is the parameter `Decoder`, since the decoder is not part of this repository.
pub mod Delivery
pub mod Keys
use dragonite.Base.{
  String, ◌≡◌, ◌↔◌, Bool, true, ◌&&◌, Option, none, some, List, arith, Eq, ◌==◌, string_eq,
}
use dragonite.Base.Int.{ℤ}
use dragonite.Base.Map.{Map}
use text.Mathlib.TextEquality.{eq_iff}

abbrev pub RawMessage : Type 0
RawMessage = String

pub record Evento : Type 0 where
  pub id : String
  pub tipo : String
  pub content : RawMessage
  pub canal_id : String
  pub sender : String
  pub origem_servidor_ts : ℤ
  pub stream_ordering : ℤ
  pub state_key : Option String
  pub redacts : String
  pub prev_eventos : List String
  pub auth_eventos : List String
  pub depth : ℤ
  pub hashes : RawMessage
  pub signatures : RawMessage
  pub unsigned : RawMessage

pub record StrippedEvento : Type 0 where
  pub tipo : String
  pub content : RawMessage
  pub state_key : Option String
  pub sender : String

pub record StateTuple : Type 0 where
  pub event_type : String
  pub state_key : String

abbrev pub tuple_beq : StateTuple → StateTuple → Bool
tuple_beq a b = a.event_type == b.event_type && a.state_key == b.state_key

pub tuple_beq_iff : (a b : StateTuple) → (tuple_beq a b ≡ true) ↔ (a ≡ b)
tuple_beq_iff a b = ground (arith, eq_iff a.event_type b.event_type, eq_iff a.state_key b.state_key)

instance abbrev pub tuple_eq : Eq StateTuple
tuple_eq = record { beq = tuple_beq; beq_iff = tuple_beq_iff }

-- A nil pointer is the empty text.
unfoldable pub new_state_tuple : String → Option String → StateTuple
new_state_tuple t none = record { event_type = t; state_key = "" }
new_state_tuple t (some k) = record { event_type = t; state_key = k }

abbrev pub StateMap : Type 0
StateMap = Map StateTuple String

pub record StateResolutionInput : Type 0 where
  pub room_id : String
  pub state_sets : List StateMap
  pub auth_events_map : Map String Evento
  pub events_map : Map String Evento

-- The anonymous structs that power-level contents are decoded into.
pub record UserLevels : Type 0 where
  pub users : Map String ℤ
  pub users_default : ℤ

pub record EventLevels : Type 0 where
  pub events : Map String ℤ
  pub state_default : ℤ

-- `json.Unmarshal` into each of these; `none` is an error.
pub record Decoder : Type 0 where
  pub user_levels : RawMessage → Option UserLevels
  pub event_levels : RawMessage → Option EventLevels
  pub membership : RawMessage → Option String
