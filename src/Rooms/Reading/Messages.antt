-- ===== src/Rooms/Reading/Messages.antt =====
-- GetMessages of internal/usecase/room_interaction.go.
use dragonite.Base.{
  ℕ, String, Bool, not, ◌&&◌, none, some, List, [], ◌∷◌, ◌==◌, string_eq, if◌then◌else◌,
}
use dragonite.Base.Int.{ℤ, pos, negsuc, ltb_ℤ, int_eq}
use dragonite.Base.Paging.{keep, take}
use dragonite.Base.Rows.{order_by}
use dragonite.Domain.{Evento}
use dragonite.Store.{Tables, member_id_eq}
use dragonite.Store.Action.{bad_content, Action, ◌>>=◌, ◌>>◌, return, fail_if, read}
use dragonite.Rooms.Messages.{require_join}
use dragonite.Sync.{rows}
use dragonite.Rooms.Reading.{Format, parse_token, zero_token}

-- ORDER BY stream_ordering DESC is an ascending order of the negated numbers.
abbrev pub negated : ℤ → ℤ
negated (pos ℕ.zero) = pos 0
negated (pos (ℕ.suc n)) = negsuc n
negated (negsuc n) = pos (ℕ.suc n)

unfoldable pub is_in : String → Evento → Bool
is_in canal ev = ev.canal_id == canal

unfoldable pub is_beyond : String → ℤ → Evento → Bool
is_beyond canal k ev = ev.canal_id == canal && ltb_ℤ k ev.stream_ordering

unfoldable pub is_up_to : String → ℤ → Evento → Bool
is_up_to canal k ev = ev.canal_id == canal && not (ltb_ℤ k ev.stream_ordering)

unfoldable pub get_room_messages_history : String → ℤ → String → ℕ → Tables → List Evento
unfolding take order_by keep is_in is_beyond is_up_to rows
get_room_messages_history canal from dir limit t =
    if dir == "b"
    then (if from == pos 0
        then take limit
            (order_by (λ ev. negated ev.stream_ordering) (keep (is_in canal) (rows t.eventos)))
        else take limit (
            order_by (λ ev. negated ev.stream_ordering)
              (keep (is_up_to canal from) (rows t.eventos))))
    else take limit
        (order_by (λ ev. ev.stream_ordering) (keep (is_beyond canal from) (rows t.eventos)))

pub record GetMessagesResponse : Type 0 where
  pub start : String
  pub end : String
  pub chunk : List Evento

-- A token, or else a number, or else 0.
unfoldable pub from_token : Format → String → ℤ
unfolding parse_token
from_token c from =
    if from == ""
    then pos 0
    else if not ((parse_token c from).timeline_position == pos 0)
    then (parse_token c from).timeline_position
    else elim (c.parse_int from) [ none ↦ pos 0 | some n ↦ n ]

unfoldable pub token_at : Format → ℤ → String
token_at c k = c.encode (record zero_token { timeline_position = k })

unfoldable pub start_token : Format → String → List Evento → String
unfolding token_at from_token
start_token c from events =
    if from == ""
    then elim events [
      | [] ↦ token_at c (from_token c from)
      | ev ∷ evs ↦ token_at c ev.stream_ordering
    ]
    else from

unfoldable pub end_token : Format → List Evento → String
unfolding token_at
end_token c [] = ""
end_token c (ev ∷ []) = token_at c ev.stream_ordering
end_token c (ev ∷ next ∷ evs) = end_token c (next ∷ evs)

unfoldable pub get_messages :
    Format → String → String → String → String → ℕ → Action GetMessagesResponse
unfolding require_join read get_room_messages_history from_token start_token end_token
get_messages c canal user from dir limit = do
  require_join canal user
  fail_if (not (dir == "b") && not (dir == "f")) bad_content
  events ← read (get_room_messages_history canal (from_token c from) dir limit)
  return (record { start = start_token c from events; end = end_token c events; chunk = events })
