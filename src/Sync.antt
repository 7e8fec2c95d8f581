-- ===== src/Sync.antt =====
-- What a client is sent (internal/usecase/sync_service.go): the statements of
-- internal/infrastructure/postgres/evento_storage.go, canal_storage.go and usuario_storage.go that it
-- uses, and the tokens of internal/domain/sync_token.go and internal/util/matrix.go.
pub mod Unsigned
pub mod View
pub mod Client
pub mod Token
pub mod Advance
pub mod Hidden
pub mod Later
pub mod Joined
pub mod Shown
pub mod Timeline
use dragonite.Base.{
  String, Bool, true, false, not, ◌&&◌, ◌||◌, Option, none, some, List, [], ◌∷◌, ◌++◌, ◌==◌,
  string_eq, if◌then◌else◌,
}
use dragonite.Base.Int.{ℤ, pos, ltb_ℤ}
use dragonite.Base.Map.{Map, lookup}
use dragonite.Base.Paging.{keep}
use dragonite.Base.Rows.{order_by}
use dragonite.Domain.{Evento}
use dragonite.Domain.Delivery.{SyncToken, AccountData}
use dragonite.Store.{StateId, MemberId, Membership, Tables, member_id_eq}
use dragonite.Store.Action.{Action, ◌>>=◌, return, read}

-- The rows of Evento.
unfoldable pub rows : Map String Evento → List Evento
rows [] = []
rows ((id, ev) ∷ rest) = ev ∷ rows rest

unfoldable pub max_ordering : List Evento → Option ℤ
max_ordering [] = none
max_ordering (ev ∷ evs) = elim (max_ordering evs) [
  | none ↦ some ev.stream_ordering
  | some top ↦ some (if ltb_ℤ top ev.stream_ordering then ev.stream_ordering else top)
]

-- SELECT COALESCE(MAX(stream_ordering), 0) FROM Evento
unfoldable pub get_max_stream_ordering : Tables → ℤ
unfolding max_ordering rows
get_max_stream_ordering t = elim (max_ordering (rows t.eventos)) [ none ↦ pos 0 | some top ↦ top ]

unfoldable pub kind_in : String → String → Tables → Option String
unfolding lookup
kind_in canal user t = elim (lookup (record { canal = canal; usuario = user }) t.memberships) [
  | none ↦ none
  | some row ↦ some row.kind
]

unfoldable pub takes_part : Option String → Bool
takes_part none = false
takes_part (some kind) = kind == "join" || kind == "invite"

unfoldable pub is_about : String → Evento → Bool
is_about user ev = elim ev.state_key [
  | none ↦ false
  | some key ↦ ev.tipo == "m.room.member" && key == user
]

unfoldable pub is_visible : String → ℤ → Tables → Evento → Bool
unfolding kind_in takes_part is_about
is_visible user since t ev =
    ltb_ℤ since ev.stream_ordering && (takes_part (kind_in ev.canal_id user t) || is_about user ev)

unfoldable pub get_since : String → ℤ → Tables → List Evento
unfolding order_by keep is_visible rows
get_since user since t =
    order_by (λ ev. ev.stream_ordering) (keep (is_visible user since t) (rows t.eventos))

unfoldable pub is_in_since : String → ℤ → Evento → Bool
is_in_since canal since ev = ev.canal_id == canal && ltb_ℤ since ev.stream_ordering

unfoldable pub get_events_of_canal_since : String → String → ℤ → Tables → List Evento
unfolding kind_in order_by keep is_in_since rows
get_events_of_canal_since user canal since t = elim (kind_in canal user t) [
  | none ↦ []
  | some kind ↦
      order_by (λ ev. ev.stream_ordering) (keep (is_in_since canal since) (rows t.eventos))
]

-- The ordering of the event with which the user left; without one no row compares.
unfoldable pub left_at : String → String → Tables → Option ℤ
unfolding lookup
left_at canal user t = elim (lookup (record { canal = canal; usuario = user }) t.memberships) [
  | none ↦ none
  | some row ↦
      if row.kind == "leave"
      then elim (lookup row.evento t.eventos) [ none ↦ none | some ev ↦ some ev.stream_ordering ]
      else none
]

unfoldable pub get_events_of_canal_since_left : String → String → ℤ → Tables → List Evento
unfolding left_at order_by keep is_in_since rows
get_events_of_canal_since_left user canal since t = elim (left_at canal user t) [
  | none ↦ []
  | some end ↦
      order_by (λ ev. ev.stream_ordering)
        (keep (λ ev. is_in_since canal since ev && not (ltb_ℤ end ev.stream_ordering))
          (rows t.eventos))
]

unfoldable pub get_user_rooms : String → String → Map MemberId Membership → List String
get_user_rooms kind user [] = []
get_user_rooms kind user ((id, row) ∷ rest) =
    let further = get_user_rooms kind user rest in
    if id.usuario == user && row.kind == kind then id.canal ∷ further else further

unfoldable pub get_current_state_events :
    String → Map StateId String → Map String Evento → List Evento
unfolding lookup
get_current_state_events canal [] eventos = []
get_current_state_events canal ((key, id) ∷ rest) eventos =
    let further = get_current_state_events canal rest eventos in
    if key.canal == canal
    then elim (lookup id eventos) [ none ↦ further | some ev ↦ ev ∷ further ]
    else further

unfoldable pub get_global_account_data : String → Tables → List AccountData
unfolding keep
get_global_account_data user t = keep (λ d. d.usuario == user) t.account_data

unfoldable pub get_account_data_of_canal : String → String → Tables → List AccountData
unfolding keep
get_account_data_of_canal user canal t =
    keep (λ d. d.usuario == user && d.canal == canal) t.account_data

-- The invitations of a user, with their events.
unfoldable pub invites_of : String → Map MemberId Membership → Map String Evento → List Evento
unfolding lookup
invites_of user [] eventos = []
invites_of user ((id, row) ∷ rest) eventos =
    let further = invites_of user rest eventos in
    if id.usuario == user && row.kind == "invite"
    then elim (lookup row.evento eventos) [ none ↦ further | some ev ↦ ev ∷ further ]
    else further

unfoldable pub get_invite_events_since : String → ℤ → Tables → List Evento
unfolding order_by keep invites_of
get_invite_events_since user since t =
    order_by (λ ev. ev.stream_ordering)
      (keep (λ ev. ltb_ℤ since ev.stream_ordering) (invites_of user t.memberships t.eventos))

unfoldable pub last_ordering : ℤ → List Evento → ℤ
last_ordering k [] = k
last_ordering k (ev ∷ evs) = last_ordering ev.stream_ordering evs

-- `GenerateNextSinceToken`
unfoldable pub next_token : SyncToken → List Evento → SyncToken
unfolding last_ordering
next_token since events = record since {
  timeline_position = last_ordering since.timeline_position events;
}

unfoldable pub advance : SyncToken → ℤ → SyncToken
advance since top =
    if ltb_ℤ since.timeline_position top then record since { timeline_position = top } else since

unfoldable pub token_after : SyncToken → List Evento → Action SyncToken
unfolding read get_max_stream_ordering next_token advance
token_after since [] = do top ← read get_max_stream_ordering; return (advance since top)
token_after since (ev ∷ evs) = return (next_token since (ev ∷ evs))

unfoldable pub generate_next_since_token : String → SyncToken → Action SyncToken
unfolding read get_since token_after
generate_next_since_token user since =
    read (get_since user since.timeline_position) >>= token_after since
