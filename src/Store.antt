-- ===== src/Store.antt =====
-- The database of a room (internal/infrastructure/postgres: the tables of the migrations, as far as
-- the room services use them) and what a service does to it. A service call is an Action: it
-- returns a result or an error and leaves a database. Each statement may fail, as a schedule of
-- faults says; an empty schedule is a database without failures. The users that are woken and the
-- events that are queued for other servers are recorded beside the tables.
pub mod Action
pub mod Invariants
pub mod Outcome
pub mod Rules
pub mod Triples
use dragonite.Base.{
  ℕ, suc, String, ◌≡◌, ◌↔◌, Bool, true, false, ◌&&◌, ◌||◌, not, Option, none, some, List, [], ◌∷◌,
  ◌++◌, arith, Eq, ◌==◌, string_eq, elem, if◌then◌else◌,
}
use dragonite.Base.Int.{ℤ, pos, ltb_ℤ}
use dragonite.Base.Map.{Map, lookup, insert}
use dragonite.Domain.{RawMessage, Evento, StateTuple, tuple_eq, tuple_beq_iff}
use dragonite.Domain.Delivery.{
  ToDeviceMessage, VersaoBackup, ChaveBackup, Receipt, Typing, AccountData,
}
use dragonite.Domain.Keys.{Dispositivo, ChavesDispositivo, ChaveUsoUnico, FallbackId, ChaveFallback}
use text.Mathlib.TextEquality.{eq_iff}

-- The primary keys of Canal_Estado_Atual, Canal_Membership and Canal_Extremidades.
pub record StateId : Type 0 where
  pub canal : String
  pub tuple : StateTuple

pub record MemberId : Type 0 where
  pub canal : String
  pub usuario : String

pub record Tip : Type 0 where
  pub canal : String
  pub evento : String

abbrev pub state_id_beq : StateId → StateId → Bool
state_id_beq a b = a.canal == b.canal && a.tuple == b.tuple

pub state_id_beq_iff : (a b : StateId) → (state_id_beq a b ≡ true) ↔ (a ≡ b)
state_id_beq_iff a b = ground (arith, eq_iff a.canal b.canal, tuple_beq_iff a.tuple b.tuple)

instance abbrev pub state_id_eq : Eq StateId
state_id_eq = record { beq = state_id_beq; beq_iff = state_id_beq_iff }

abbrev pub member_id_beq : MemberId → MemberId → Bool
member_id_beq a b = a.canal == b.canal && a.usuario == b.usuario

pub member_id_beq_iff : (a b : MemberId) → (member_id_beq a b ≡ true) ↔ (a ≡ b)
member_id_beq_iff a b = ground (arith, eq_iff a.canal b.canal, eq_iff a.usuario b.usuario)

instance abbrev pub member_id_eq : Eq MemberId
member_id_eq = record { beq = member_id_beq; beq_iff = member_id_beq_iff }

abbrev pub tip_beq : Tip → Tip → Bool
tip_beq a b = a.canal == b.canal && a.evento == b.evento

pub tip_beq_iff : (a b : Tip) → (tip_beq a b ≡ true) ↔ (a ≡ b)
tip_beq_iff a b = ground (arith, eq_iff a.canal b.canal, eq_iff a.evento b.evento)

instance abbrev pub tip_eq : Eq Tip
tip_eq = record { beq = tip_beq; beq_iff = tip_beq_iff }

-- A row of Canal_Membership.
pub record Membership : Type 0 where
  pub kind : String
  pub evento : String

-- A row of Canal.
pub record Canal : Type 0 where
  pub versao : String
  pub criador : String

pub record Profile : Type 0 where
  pub display_name : Option String
  pub avatar_url : Option String

-- A serial is the last value that a BIGSERIAL column took. A transaction that is rolled back gives
-- its values back here, where PostgreSQL skips them: only their order is used.
pub record Tables : Type 0 where
  pub canais : Map String Canal
  pub eventos : Map String Evento
  pub evento_serial : ℕ
  pub estado_atual : Map StateId String
  pub memberships : Map MemberId Membership
  pub extremidades : List Tip
  pub perfis : Map String Profile
  pub aliases : List Tip
  pub recibos : Map MemberId Receipt
  pub digitando : Map MemberId Typing
  pub mensagens : List ToDeviceMessage
  pub mensagem_serial : ℕ
  pub versoes : List VersaoBackup
  pub versao_serial : ℕ
  pub chaves : List ChaveBackup
  pub dispositivos : Map String Dispositivo
  pub chaves_dispositivo : Map String ChavesDispositivo
  pub chaves_uso_unico : List ChaveUsoUnico
  pub uso_unico_serial : ℕ
  pub chaves_fallback : Map FallbackId ChaveFallback
  pub account_data : List AccountData

-- INSERT INTO Evento ... ON CONFLICT (id_evento) DO NOTHING: a new event takes the next
-- stream_ordering and no `redacts`, and one that is there keeps its own.
unfoldable pub save_evento : Evento → Tables → Tables
unfolding lookup insert
save_evento ev t = elim (lookup ev.id t.eventos) [
  | none ↦ record t {
    eventos =
        insert ev.id (record ev { redacts = ""; stream_ordering = pos (suc t.evento_serial) })
          t.eventos;
    evento_serial = suc t.evento_serial;
  }
  | some _ ↦ record t { evento_serial = suc t.evento_serial }
]

-- INSERT INTO Canal_Estado_Atual ... ON CONFLICT ... DO UPDATE
unfoldable pub upsert_current_state : String → StateTuple → String → Tables → Tables
unfolding insert
upsert_current_state canal tuple id t = record t {
  estado_atual = insert (record { canal = canal; tuple = tuple }) id t.estado_atual;
}

-- INSERT INTO Canal_Membership ... ON CONFLICT ... DO UPDATE
unfoldable pub upsert_membership : String → String → String → String → Tables → Tables
unfolding insert
upsert_membership canal user kind id t = record t {
  memberships =
      insert (record { canal = canal; usuario = user }) (record { kind = kind; evento = id })
        t.memberships;
}

-- DELETE FROM Canal_Extremidades WHERE id_canal = $1 AND id_evento = ANY($2)
unfoldable pub delete_tips : String → List String → List Tip → List Tip
unfolding elem
delete_tips canal prevs [] = []
delete_tips canal prevs (tip ∷ tips) =
    let rest = delete_tips canal prevs tips in
    if tip.canal == canal && elem tip.evento prevs then rest else tip ∷ rest

-- INSERT INTO Canal_Extremidades ... ON CONFLICT DO NOTHING
unfoldable pub insert_tip : Tip → List Tip → List Tip
unfolding elem
insert_tip tip tips = if elem tip tips then tips else tips ++ tip ∷ []

unfoldable pub update_forward_extremities : String → String → List String → Tables → Tables
unfolding delete_tips insert_tip
update_forward_extremities canal id prevs t = record t {
  extremidades =
      insert_tip (record { canal = canal; evento = id }) (delete_tips canal prevs t.extremidades);
}

-- SELECT id_evento FROM Canal_Extremidades WHERE id_canal = $1
unfoldable pub tips_of : String → List Tip → List String
tips_of canal [] = []
tips_of canal (tip ∷ tips) =
    let rest = tips_of canal tips in if tip.canal == canal then tip.evento ∷ rest else rest

-- A user without a row has left.
unfoldable pub membership_of : String → String → Tables → String
unfolding lookup
membership_of canal user t =
    elim (lookup (record { canal = canal; usuario = user }) t.memberships) [
      | none ↦ "leave"
      | some row ↦ row.kind
    ]

unfoldable pub state_event_id : String → String → String → Tables → Option String
unfolding lookup
state_event_id canal tipo key t =
    lookup (record { canal = canal; tuple = record { event_type = tipo; state_key = key } })
      t.estado_atual

-- SELECT COALESCE(MAX(depth), 0) FROM Evento WHERE id_evento = ANY($1)
unfoldable pub max_depth : List String → Map String Evento → Option ℤ
unfolding elem
max_depth ids [] = none
max_depth ids ((id, ev) ∷ rest) =
    let deepest = max_depth ids rest in
    if elem id ids
    then elim deepest [
      | none ↦ some ev.depth
      | some d ↦ some (if ltb_ℤ d ev.depth then ev.depth else d)
    ]
    else deepest

unfoldable pub max_depth_from_eventos : List String → Tables → ℤ
unfolding max_depth
max_depth_from_eventos [] t = pos 0
max_depth_from_eventos (id ∷ ids) t = elim (max_depth (id ∷ ids) t.eventos) [
  | none ↦ pos 0
  | some d ↦ d
]
