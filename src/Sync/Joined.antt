-- ===== src/Sync/Joined.antt =====
-- The joined rooms of one response (GetJoinedRooms of internal/usecase/sync_service.go).
use dragonite.Base.{
  String, ◌≡◌, refl, sym, ◌∙◌, ap, Bool, true, false, ◌&&◌, Option, none, some, List, [], ◌∷◌, map,
  arith, ◌==◌, ◌⊎◌, inl, inr, Bool-cases, Option-cases, string_eq, elem, if◌then◌else◌,
}
use mathlib.Core.Path.{subst}
use dragonite.Base.Map.{Map, lookup, insert, lookup-insert}
use dragonite.Domain.{Evento}
use dragonite.Domain.Delivery.{SyncToken}
use dragonite.Store.{Tables, MemberId, Membership, member_id_beq_iff, member_id_eq}
use dragonite.Store.Action.{ok, Db, return, read, read_or, attempt, ◌>>=◌, Ensures}
use dragonite.Store.Triples.{
  read-Ensures, read_or-Ensures, return-Ensures, bind-Ensures, attempt-Ensures, Ensures-map,
}
use dragonite.Store.Outcome.{attained}
use dragonite.Sync.{
  kind_in, get_user_rooms, get_events_of_canal_since, get_current_state_events,
  get_account_data_of_canal,
}
use dragonite.Sync.Unsigned.{Codec}
use dragonite.Sync.View.{
  EventoWithoutCanalId, JoinedRoom, state_event, timeline_event, state_among, timeline_of,
  is_first_sync, state_of, is_nothing, joined_room, add_room, each_room, get_joined_rooms,
}
use text.Mathlib.TextEquality.{eq_iff}

-- The events that the joined rooms of a response show of a room.
unfoldable pub shown : String → Map String JoinedRoom → List EventoWithoutCanalId
unfolding lookup
shown canal rooms = elim (lookup canal rooms) [ none ↦ [] | some room ↦ room.timeline.events ]

shown-insert :
    (canal at : String) (room : JoinedRoom) (held : Map String JoinedRoom)
    → shown canal (insert at room held)
      ≡ (if at == canal then room.timeline.events else shown canal held)
unfolding shown
shown-insert canal at room held = ground (arith, lookup-insert at canal room held)

rooms-elem :
    (canal user : String) (rows : Map MemberId Membership) (row : Membership)
    → lookup (record { canal = canal; usuario = user }) rows ≡ some row
    → row.kind ≡ "join"
    → elem canal (get_user_rooms "join" user rows) ≡ true
unfolding get_user_rooms lookup elem
rooms-elem canal user [] row found joined = absurd cc
rooms-elem canal user ((id, x) ∷ rows) row found joined = ground (
  arith,
  found,
  joined,
  member_id_beq_iff id (record { canal = canal; usuario = user }),
  eq_iff id.canal canal,
  eq_iff id.usuario user,
  eq_iff x.kind "join",
  rooms-elem canal user rows row,
)

module _ (c : Codec) (user canal : String) (since : SyncToken) (t : Tables) where
  unfoldable pub events_in : String → List EventoWithoutCanalId
  events_in at =
      map (timeline_event c user) (get_events_of_canal_since user at since.timeline_position t)

  -- What is made of a room: it is left out only if it has no new event.
  abbrev Makes : String → Option JoinedRoom → Type 0
  Makes at none = events_in at ≡ []
  Makes at (some room) = room.timeline.events ≡ events_in at

  state_of-Ensures :
      (at : String) (events : List Evento) (Q : List EventoWithoutCanalId → Tables → Type 0)
      → ((state : List EventoWithoutCanalId) → Q state t)
      → Ensures (Unit {0}) (state_of at since events) Q t
  unfolding state_of
  state_of-Ensures at events Q q = go (is_first_sync since)
    where
      go :
          (b : Bool)
          → Ensures
              (Unit {0})
              (if b
                then (read (λ t. get_current_state_events at t.estado_atual t.eventos) >>= λ state.
                    return (map state_event state))
                else return (state_among events))
              Q
              t
      go true =
          bind-Ensures (Unit {0}) _ _ Q t
            (read-Ensures (Unit {0}) _ _ t (return-Ensures (Unit {0}) _ Q t (q _)))
      go false = return-Ensures (Unit {0}) _ Q t (q _)

  nothing-shown :
      (evs : List Evento) (a b : Bool)
      → (a && (is_nothing evs && b)) ≡ true
      → map (timeline_event c user) evs ≡ []
  unfolding is_nothing
  nothing-shown [] a b h = refl
  nothing-shown (ev ∷ evs) a b h = absurd (ground (arith, h))

  either-Makes :
      (at : String) (quiet : Bool) (room : JoinedRoom)
      → (quiet ≡ true → events_in at ≡ [])
      → room.timeline.events ≡ events_in at
      → Makes at (if quiet then none else some room)
  either-Makes at true room empty full = empty refl
  either-Makes at false room empty full = full

  joined_room-Ensures :
      (at : String)
      → Ensures (Unit {0}) (joined_room c user since at) (λ o u. (u ≡ t) × Makes at o) t
  unfolding joined_room timeline_of events_in
  joined_room-Ensures at =
      bind-Ensures (Unit {0}) (read (get_events_of_canal_since user at since.timeline_position)) _ _
        t
        (read-Ensures (Unit {0}) _ _ t (
          bind-Ensures (Unit {0}) (state_of at since new) _ _ t (
            state_of-Ensures at new _ λ state.
              bind-Ensures (Unit {0}) (read (get_account_data_of_canal user at)) _ _ t (
                read-Ensures (Unit {0}) _ _ t (
                  return-Ensures (Unit {0}) _ _ t
                    (refl, either-Makes at _ _ (nothing-shown new _ _) refl))))))
    where
      new : List Evento
      new = get_events_of_canal_since user at since.timeline_position t

  -- The room shows nothing yet, or all of it.
  abbrev IsDue : Map String JoinedRoom → Type 0
  IsDue held = (shown canal held ≡ []) ⊎ (shown canal held ≡ events_in canal)

  here_full :
      (at : String) (room : JoinedRoom) (held : Map String JoinedRoom)
      → Makes at (some room)
      → (at == canal) ≡ true
      → shown canal (insert at room held) ≡ events_in canal
  here_full at room held made here =
      ground (arith, shown-insert canal at room held, here)
      ∙ made
      ∙ ap events_in ((eq_iff at canal).0 here)

  add-IsDue :
      (at : String) (o : Option JoinedRoom) (held : Map String JoinedRoom)
      → Makes at o
      → IsDue held
      → IsDue (add_room at (some o) held)
  unfolding add_room
  add-IsDue at none held made due = due
  add-IsDue at (some room) held made due = elim (Bool-cases (at == canal)) [
    | inl here ↦ inr (here_full at room held made here)
    | inr other ↦ elim due [
      | inl empty ↦ inl (ground (arith, shown-insert canal at room held, other, empty))
      | inr full ↦ inr (ground (arith, shown-insert canal at room held, other, full))
    ]
  ]

  add-here :
      (o : Option JoinedRoom) (held : Map String JoinedRoom)
      → Makes canal o
      → IsDue held
      → shown canal (add_room canal (some o) held) ≡ events_in canal
  unfolding add_room
  add-here none held made (inl empty) = empty ∙ sym made
  add-here none held made (inr full) = full
  add-here (some room) held made due =
      ground (arith, shown-insert canal canal room held, made, eq_iff canal canal)

  add-full :
      (at : String) (o : Option JoinedRoom) (held : Map String JoinedRoom)
      → Makes at o
      → shown canal held ≡ events_in canal
      → shown canal (add_room at (some o) held) ≡ events_in canal
  unfolding add_room
  add-full at none held made full = full
  add-full at (some room) held made full = elim (Bool-cases (at == canal)) [
    | inl here ↦ here_full at room held made here
    | inr other ↦ ground (arith, shown-insert canal at room held, other, full)
  ]

  each_full-Ensures :
      (canais : List String) (held : Map String JoinedRoom)
      → shown canal held ≡ events_in canal
      → Ensures
          (Unit {0})
          (each_room (joined_room c user since) canais held)
          (λ rooms u. shown canal rooms ≡ events_in canal)
          t
  unfolding each_room add_room
  each_full-Ensures [] held full = return-Ensures (Unit {0}) held _ t full
  each_full-Ensures (at ∷ canais) held full =
      bind-Ensures (Unit {0}) (attempt (joined_room c user since at)) _ _ t (
        attempt-Ensures (Unit {0}) (joined_room c user since at) _ t tt (
          Ensures-map (Unit {0}) (joined_room c user since at) _ _ t
            (λ o u (same, made).
              subst
                (Ensures (Unit {0})
                  (each_room (joined_room c user since) canais (add_room at (some o) held))
                  (λ rooms u. shown canal rooms ≡ events_in canal))
                (sym same)
                (each_full-Ensures canais (add_room at (some o) held)
                  (add-full at o held made full)))
            (joined_room-Ensures at)))

  each_due-Ensures :
      (canais : List String) (held : Map String JoinedRoom)
      → elem canal canais ≡ true
      → IsDue held
      → Ensures
          (Unit {0})
          (each_room (joined_room c user since) canais held)
          (λ rooms u. shown canal rooms ≡ events_in canal)
          t
  unfolding each_room add_room elem
  each_due-Ensures [] held among due = absurd cc
  each_due-Ensures (at ∷ canais) held among due =
      bind-Ensures (Unit {0}) (attempt (joined_room c user since at)) _ _ t (
        attempt-Ensures (Unit {0}) (joined_room c user since at) _ t tt (
          Ensures-map (Unit {0}) (joined_room c user since at) _ _ t
            (λ o u (same, made).
              subst
                (Ensures (Unit {0})
                  (each_room (joined_room c user since) canais (add_room at (some o) held))
                  (λ rooms u. shown canal rooms ≡ events_in canal))
                (sym same)
                (next o made (λ later.
                  each_due-Ensures canais (add_room at (some o) held) later
                    (add-IsDue at o held made due))))
            (joined_room-Ensures at)))
    where
      next :
          (o : Option JoinedRoom)
          → Makes at o
          → (elem canal canais ≡ true
              → Ensures
                  (Unit {0})
                  (each_room (joined_room c user since) canais (add_room at (some o) held))
                  (λ rooms u. shown canal rooms ≡ events_in canal)
                  t)
          → Ensures
              (Unit {0})
              (each_room (joined_room c user since) canais (add_room at (some o) held))
              (λ rooms u. shown canal rooms ≡ events_in canal)
              t
      next o made further = elim (Bool-cases (at == canal)) [
        | inl here ↦
            let own : at ≡ canal = (eq_iff at canal).0 here in
            each_full-Ensures canais (add_room at (some o) held) (
              subst (λ x. Makes x o → shown canal (add_room x (some o) held) ≡ events_in canal)
                (sym own) (λ m. add-here o held m due) made)
        | inr other ↦ further (ground (arith, among, other))
      ]

  -- Where no statement fails, the response shows all events of a joined room after the token.
  pub get_joined_rooms-shown :
      (db : Db)
      → db.tables ≡ t
      → db.faults ≡ []
      → kind_in canal user t ≡ some "join"
      → (rooms : Map String JoinedRoom) × (end : Db) × (get_joined_rooms c user since db
          ≡ (ok rooms, end))
        × (shown canal rooms ≡ events_in canal)
  unfolding get_joined_rooms shown kind_in
  get_joined_rooms-shown db same calm member =
      attained (get_joined_rooms c user since) (λ rooms u. shown canal rooms ≡ events_in canal) db
        (subst (Ensures (Unit {0}) (get_joined_rooms c user since) _) (sym same) (
          bind-Ensures (Unit {0}) (read_or [] (λ t. get_user_rooms "join" user t.memberships)) _ _ t
            (read_or-Ensures (Unit {0}) [] (λ t. get_user_rooms "join" user t.memberships) _ t
              (each_due-Ensures (get_user_rooms "join" user t.memberships) [] (joins member)
                (inl refl))
              (λ n. absurd (n tt)))))
        calm
    where
      joins :
          kind_in canal user t ≡ some "join"
          → elem canal (get_user_rooms "join" user t.memberships) ≡ true
      joins h =
          elim (Option-cases (lookup (record { canal = canal; usuario = user }) t.memberships)) [
            | inl missing ↦ absurd (ground (arith, missing, h))
            | inr (row, found) ↦
                rooms-elem canal user t.memberships row found (ground (arith, found, h))
          ]
