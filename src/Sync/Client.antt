-- ===== src/Sync/Client.antt =====
-- SyncClient and GetEventsSince of internal/usecase/sync_service.go. Waiting for news is the
-- parameter `wait`, during which others may act; `canceled` says whether the error with which a call
-- left the database comes from a request that was cancelled.
use dragonite.Base.{
  String, Bool, true, false, not, ◌||◌, Option, none, some, List, [], ◌∷◌, ◌==◌, string_eq,
  if◌then◌else◌,
}
use dragonite.Base.Int.{ℤ, pos, ltb_ℤ}
use dragonite.Base.Map.{Map}
use dragonite.Domain.{StrippedEvento}
use dragonite.Domain.Delivery.{SyncToken, AccountData}
use dragonite.Store.Action.{Result, ok, err, Db, Action, ◌>>=◌, return, attempt, read}
use dragonite.DeviceKeys.{count_one_time_keys}
use dragonite.ToDevice.{ToDeviceEventSync, get_to_device_sync}
use dragonite.Sync.{get_global_account_data, generate_next_since_token}
use dragonite.Sync.Unsigned.{Codec}
use dragonite.Sync.View.{
  JoinedRoom, LeftRoom, is_nothing, get_invite_rooms, get_joined_rooms, get_leave_rooms,
}

pub record SyncClientResponse : Type 0 where
  pub account_data : List AccountData
  pub otk_count : Map String ℤ
  pub next_batch : SyncToken
  pub invite : Map String (List StrippedEvento)
  pub join : Map String JoinedRoom
  pub leave : Map String LeftRoom
  pub to_device : Option (List ToDeviceEventSync)

-- A call that fails is logged: there is no message, and the position stays.
unfoldable pub to_device_or :
    SyncToken → Option (Option (List ToDeviceEventSync) × ℤ) → Option (List ToDeviceEventSync) × ℤ
to_device_or since none = (none, since.to_device_position)
to_device_or since (some answer) = answer

unfoldable pub counts_or : Option (Map String ℤ) → Map String ℤ
counts_or none = []
counts_or (some counts) = counts

unfoldable pub otk_counts : String → Action (Map String ℤ)
unfolding attempt read count_one_time_keys counts_or
otk_counts device =
    if device == ""
    then return []
    else (attempt (read (λ t. count_one_time_keys device t.chaves_uso_unico)) >>= λ counts.
        return (counts_or counts))

unfoldable pub get_events_since : Codec → String → String → SyncToken → Action SyncClientResponse
unfolding read get_global_account_data get_invite_rooms get_joined_rooms get_leave_rooms attempt
    get_to_device_sync to_device_or otk_counts
get_events_since c user device since = do
  account ← read (get_global_account_data user)
  invites ← get_invite_rooms user since
  joined ← get_joined_rooms c user since
  left ← get_leave_rooms c user since
  messages ← attempt (get_to_device_sync user device since)
  counts ← otk_counts device
  return (record {
    account_data = account;
    otk_count = counts;
    next_batch = record since { to_device_position = (to_device_or since messages).1 };
    invite = invites;
    join = joined;
    leave = left;
    to_device = (to_device_or since messages).0;
  })

unfoldable pub is_quiet : Map String JoinedRoom → Bool
unfolding is_nothing
is_quiet [] = true
is_quiet ((canal, room) ∷ rest) =
    let further = is_quiet rest in
    if not (is_nothing room.timeline.events) || not (is_nothing room.state) then false else further

unfoldable pub has_messages : Option (List ToDeviceEventSync) → Bool
unfolding is_nothing
has_messages none = false
has_messages (some events) = not (is_nothing events)

unfoldable pub is_response_empty : SyncClientResponse → Bool
unfolding is_nothing has_messages is_quiet
is_response_empty r =
    if not (is_nothing r.invite) || not (is_nothing r.leave)
    then false
    else if has_messages r.to_device
    then false
    else is_quiet r.join

-- The token of the response: a new place in the timeline, and the place the messages came to.
unfoldable pub with_token : String → SyncToken → SyncClientResponse → Action SyncClientResponse
unfolding generate_next_since_token
with_token user since r = do
  next ← generate_next_since_token user since
  return (record r {
    next_batch = record next { to_device_position = r.next_batch.to_device_position };
  })

-- SyncClientResponse{}
abbrev pub empty_response : SyncClientResponse
empty_response = record {
  account_data = [];
  otk_count = [];
  next_batch = record {
    timeline_position = pos 0;
    presence_position = pos 0;
    receipt_position = pos 0;
    to_device_position = pos 0;
  };
  invite = [];
  join = [];
  leave = [];
  to_device = none;
}

-- A call whose error, if errors.Is(err, context.Canceled), ends the request with an empty response.
unfoldable pub caught {ℓ} : {A : Type ℓ} → (Db → Bool) → Action A → Action (Option A)
caught {A = A} canceled m db = handled (m db)
  where
    handled : Result A × Db → Result (Option A) × Db
    handled (ok a, db') = (ok (some a), db')
    handled (err e, db') = (if canceled db' then ok none else err e, db')

pub data Wait : Type 0 where
  notified timed_out : Wait

-- What the second look gives.
unfoldable pub answer : String → SyncToken → Option SyncClientResponse → Action SyncClientResponse
unfolding with_token
answer user since none = return empty_response
answer user since (some r) = with_token user since r

-- After the wait.
unfoldable pub resume :
    (Db → Bool)
    → Codec
    → String
    → String
    → SyncToken
    → SyncClientResponse
    → Option Wait
    → Action SyncClientResponse
unfolding with_token get_events_since caught answer
resume canceled c user device since r none = return empty_response
resume canceled c user device since r (some timed_out) = with_token user since r
resume canceled c user device since r (some notified) =
    caught canceled (get_events_since c user device since) >>= answer user since

-- After the first look.
unfoldable pub respond :
    (Db → Bool)
    → Codec
    → Action Wait
    → String
    → String
    → SyncToken
    → ℤ
    → Option SyncClientResponse
    → Action SyncClientResponse
unfolding is_response_empty with_token caught resume
respond canceled c wait user device since timeout none = return empty_response
respond canceled c wait user device since timeout (some r) =
    if not (is_response_empty r) || not (ltb_ℤ (pos 0) timeout)
    then with_token user since r
    else (caught canceled wait >>= resume canceled c user device since r)

unfoldable pub sync_client :
    (Db → Bool) → Codec → Action Wait → String → String → SyncToken → ℤ → Action SyncClientResponse
unfolding get_events_since caught respond
sync_client canceled c wait user device since timeout =
    caught canceled (get_events_since c user device since)
    >>= respond canceled c wait user device since timeout
