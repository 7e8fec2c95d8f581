-- ===== src/Sync/Shown.antt =====
-- What consecutive responses show of a room that the user has joined (GetJoinedRooms and
-- generateNextSinceToken of internal/usecase/sync_service.go).
use dragonite.Base.{String, ◌≡◌, refl, false, some, List, [], ◌∷◌, ◌++◌, map, string_eq}
use dragonite.Base.Int.{pos, ltb_ℤ}
use dragonite.Base.Map.{Map}
use dragonite.Domain.{Evento}
use dragonite.Domain.Delivery.{SyncToken}
use dragonite.Store.{member_id_eq}
use dragonite.Store.Action.{ok, Db}
use dragonite.Sync.{kind_in, get_events_of_canal_since, generate_next_since_token}
use dragonite.Sync.Token.{IsOrdered}
use dragonite.Sync.Unsigned.{Codec}
use dragonite.Sync.View.{EventoWithoutCanalId, JoinedRoom, timeline_event, get_joined_rooms}
use dragonite.Sync.Later.{Later}
use dragonite.Sync.Timeline.{timelines-join}
use dragonite.Sync.Joined.{events_in, get_joined_rooms-shown, shown}

-- GetJoinedRooms succeeds with these rooms.
abbrev pub Joins : Codec → String → SyncToken → Db → Map String JoinedRoom → Type 0
Joins c user since db rooms = (end : Db) × (get_joined_rooms c user since db ≡ (ok rooms, end))

map-append :
    (f : Evento → EventoWithoutCanalId) (xs ys : List Evento)
    → map f (xs ++ ys) ≡ map f xs ++ map f ys
map-append f [] ys = refl
map-append f (x ∷ xs) ys = cc (map-append f xs ys)

-- Where no statement fails, consecutive responses lose no event of a joined room and repeat none.
-- Let a user be a member of a room now and later, hold a token that is not ahead of the stored
-- events, and be given the next token, with no event saved between; and let events be saved since.
-- Then GetJoinedRooms succeeds now with the first token, later with the next token and later with
-- the first token, and what it shows of the room the third time is what it showed the first time,
-- followed by what it shows the second time.
pub joined_rooms-join :
    (c : Codec) (user canal : String) (since next : SyncToken) (db db' later : Db)
    → db.faults ≡ []
    → later.faults ≡ []
    → IsOrdered db.tables
    → ltb_ℤ (pos db.tables.evento_serial) since.timeline_position ≡ false
    → kind_in canal user db.tables ≡ some "join"
    → generate_next_since_token user since db ≡ (ok next, db')
    → Later db.tables later.tables
    → kind_in canal user later.tables ≡ some "join"
    → (first second whole : Map String JoinedRoom) × Joins c user since db first
      × Joins c user next later second
      × Joins c user since later whole
      × (shown canal whole ≡ shown canal first ++ shown canal second)
unfolding events_in
joined_rooms-join c user canal since next db db' later calm still ordered fits member ran after
      present =
    let (first, end₁, ran₁, shown₁) =
      get_joined_rooms-shown c user canal since db.tables db refl calm member in
    let (second, end₂, ran₂, shown₂) =
      get_joined_rooms-shown c user canal next later.tables later refl still present in
    let (whole, end₃, ran₃, shown₃) =
      get_joined_rooms-shown c user canal since later.tables later refl still present in
    (
      first,
      second,
      whole,
      (end₁, ran₁),
      (end₂, ran₂),
      (end₃, ran₃),
      cc (
        shown₁,
        shown₂,
        shown₃,
        timelines-join user canal "join" since next db db' later.tables ordered fits member ran
            after present,
        map-append (timeline_event c user)
            (get_events_of_canal_since user canal since.timeline_position db.tables)
            (get_events_of_canal_since user canal next.timeline_position later.tables),
      ),
    )
