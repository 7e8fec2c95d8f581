-- ===== src/Sync/Hidden.antt =====
-- Whom the timelines of a response show the transaction id of an event (GetJoinedRooms of
-- internal/usecase/sync_service.go).
use dragonite.Base.{
  String, ◌≡◌, refl, Bool, true, false, Option, none, some, List, [], ◌∷◌, map, ◌==◌, ◌⊎◌, inl, inr,
  Bool-cases, string_eq, if◌then◌else◌,
}
use dragonite.Base.Map.{Map, insert}
use dragonite.Domain.{Evento}
use dragonite.Domain.Delivery.{SyncToken}
use dragonite.Store.{Tables}
use dragonite.Store.Action.{
  Action, Result, ok, err, Db, read, read_or, attempt, ◌>>=◌, and_then, Ensures, Meets,
}
use dragonite.Store.Triples.{return-Ensures}
use dragonite.Store.Outcome.{observed}
use dragonite.Sync.{get_user_rooms, get_events_of_canal_since, get_account_data_of_canal}
use dragonite.Sync.Unsigned.{
  Codec, erase, ReadsBack, shows_transaction, unsigned_for_recipient, unsigned_for_recipient-hides,
}
use dragonite.Sync.View.{
  EventoWithoutCanalId, JoinedRoom, timeline_event, timeline_of, state_of, joined_room, add_room,
  each_room, get_joined_rooms,
}

-- Each event is the user's own, or shows no transaction id.
abbrev pub Hides : Codec → String → List EventoWithoutCanalId → Type 0
Hides c user [] = Unit
Hides c user (ev ∷ evs) =
    ((ev.sender == user) ≡ true ⊎ (shows_transaction c ev.unsigned ≡ false)) × Hides c user evs

abbrev pub HidesAll : Codec → String → Map String JoinedRoom → Type 0
HidesAll c user [] = Unit
HidesAll c user ((canal, room) ∷ rooms) = Hides c user room.timeline.events × HidesAll c user rooms

-- The JSON library finds no object in an empty text, and reads back what it writes.
pub record IsFaithful (c : Codec) : Type 0 where
  pub empty : c.decode "" ≡ none
  pub reads_back :
      (text : String) (fields : Map String String)
      → c.decode text ≡ some fields
      → ReadsBack c (erase "transaction_id" fields)

-- What holds of a result, whatever came before.
any-Ensures {ℓ κ} :
    {A : Type ℓ} {B : Type κ} (m : Action A) (f : A → Action B) (P : B → Type 0) (t : Tables)
    → ((a : A) (u : Tables) → Ensures ⊥ (f a) (λ b v. P b) u)
    → Ensures ⊥ (m >>= f) (λ b v. P b) t
unfolding ◌>>=◌
any-Ensures {A = A} m f P t rest = record { run = λ db e h. go (m db) }
  where
    go : (o : Result A × Db) → Meets ⊥ (λ b v. P b) (and_then o f)
    go (ok a, db) = (rest a db.tables).run db refl (λ never. absurd never)
    go (err e, db) = λ never. never

tried-Ensures {ℓ κ} :
    {A : Type ℓ} {B : Type κ} (m : Action A) (f : Option A → Action B) (S : A → Type 0)
    (P : B → Type 0) (t : Tables)
    → Ensures ⊥ m (λ a u. S a) t
    → ((u : Tables) → Ensures ⊥ (f none) (λ b v. P b) u)
    → ((a : A) → S a → (u : Tables) → Ensures ⊥ (f (some a)) (λ b v. P b) u)
    → Ensures ⊥ (attempt m >>= f) (λ b v. P b) t
unfolding ◌>>=◌ attempt
tried-Ensures {A = A} m f S P t made lost rest = record {
  run = λ db e h. go db (m db) refl (made.run db e h);
}
  where
    go :
        (db : Db) (o : Result A × Db)
        → m db ≡ o
        → Meets ⊥ (λ a u. S a) o
        → Meets ⊥ (λ b v. P b) ((attempt m >>= f) db)
    go db (ok a, db') ran (s, left) =
        rw ran ((rest a s db'.tables).run db' refl (λ never. absurd never))
    go db (err e, db') ran n = rw ran ((lost db'.tables).run db' refl (λ never. absurd never))

module _ (c : Codec) (faithful : IsFaithful c) (user : String) where
  timeline-Hides : (evs : List Evento) → Hides c user (map (timeline_event c user) evs)
  unfolding timeline_event
  timeline-Hides [] = tt
  timeline-Hides (ev ∷ evs) = (one, timeline-Hides evs)
    where
      one :
          (ev.sender == user) ≡ true
          ⊎ (shows_transaction c (unsigned_for_recipient c ev.unsigned ev.sender user) ≡ false)
      one = elim (Bool-cases (ev.sender == user)) [
        | inl own ↦ inl own
        | inr other ↦ inr (
            unsigned_for_recipient-hides c ev.unsigned ev.sender user faithful.empty
              (faithful.reads_back ev.unsigned) other)
      ]

  abbrev RoomHides : Option JoinedRoom → Type 0
  RoomHides none = Unit
  RoomHides (some room) = Hides c user room.timeline.events

  either-Hides :
      (quiet : Bool) (room : JoinedRoom)
      → Hides c user room.timeline.events
      → RoomHides (if quiet then none else some room)
  either-Hides true room h = tt
  either-Hides false room h = h

  joined_room-Hides :
      (since : SyncToken) (canal : String) (t : Tables)
      → Ensures ⊥ (joined_room c user since canal) (λ o u. RoomHides o) t
  unfolding joined_room timeline_of
  joined_room-Hides since canal t =
      any-Ensures (read (get_events_of_canal_since user canal since.timeline_position)) _ RoomHides
        t
        λ events u. any-Ensures (state_of canal since events) _ RoomHides u λ state v.
          any-Ensures (read (get_account_data_of_canal user canal)) _ RoomHides v
            λ account w. return-Ensures ⊥ _ _ w (either-Hides _ _ (timeline-Hides events))

  insert-HidesAll :
      (canal : String) (room : JoinedRoom) (held : Map String JoinedRoom)
      → Hides c user room.timeline.events
      → HidesAll c user held
      → HidesAll c user (insert canal room held)
  unfolding insert
  insert-HidesAll canal room [] h all = (h, tt)
  insert-HidesAll canal room ((at, x) ∷ held) h (here, all) = elim (Bool-cases (at == canal)) [
    | inl same ↦ rw same (h, all)
    | inr other ↦ rw other (here, insert-HidesAll canal room held h all)
  ]

  each_room-HidesAll :
      (since : SyncToken) (canais : List String) (held : Map String JoinedRoom) (t : Tables)
      → HidesAll c user held
      → Ensures ⊥
          (each_room (joined_room c user since) canais held)
          (λ rooms u. HidesAll c user rooms)
          t
  unfolding each_room add_room
  each_room-HidesAll since [] held t all = return-Ensures ⊥ held _ t all
  each_room-HidesAll since (canal ∷ canais) held t all =
      tried-Ensures (joined_room c user since canal) _ RoomHides (HidesAll c user) t
        (joined_room-Hides since canal t) (λ u. each_room-HidesAll since canais held u all)
        (λ o h u. each_room-HidesAll since canais (add_room canal (some o) held) u (added o h))
    where
      added : (o : Option JoinedRoom) → RoomHides o → HidesAll c user (add_room canal (some o) held)
      added none h = all
      added (some room) h = insert-HidesAll canal room held h all

-- If the JSON library finds no object in an empty text, and reads back the object that it writes
-- without the transaction id, then in the timelines of the joined rooms that GetJoinedRooms gives a
-- user, whatever statements fail, only the events that the user sent show a transaction id.
pub get_joined_rooms-HidesAll :
    (c : Codec) (user : String) (since : SyncToken) (rooms : Map String JoinedRoom) (db db' : Db)
    → IsFaithful c
    → get_joined_rooms c user since db ≡ (ok rooms, db')
    → HidesAll c user rooms
unfolding get_joined_rooms
get_joined_rooms-HidesAll c user since rooms db db' faithful ran =
    observed (get_joined_rooms c user since) (λ rooms u. HidesAll c user rooms) rooms db db'
      (any-Ensures (read_or [] (λ t. get_user_rooms "join" user t.memberships)) _ (HidesAll c user)
        db.tables (λ canais u. each_room-HidesAll c faithful user since canais [] u tt))
      ran
