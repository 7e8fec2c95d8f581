-- ===== src/Tests/Sync.antt =====
-- Alice syncs, an event is saved in her room, and she syncs again.
use dragonite.Base.{
  String, ◌≡◌, refl, Bool, false, Option, some, none, [], ◌∷◌, ◌++◌, ◌==◌, string_eq, if◌then◌else◌,
  Bool-cases, inl, inr,
}
use mathlib.Core.Path.{subst}
use dragonite.Base.Int.{pos}
use dragonite.Base.Map.{Map, lookup}
use dragonite.Base.Rows.{are_rising, are_up_to, are_above}
use dragonite.Domain.Delivery.{SyncToken}
use dragonite.Store.{save_evento}
use dragonite.Store.Action.{Action, Result, ok, err, Db, return, ◌>>=◌, read}
use dragonite.Sync.{rows, kind_in, generate_next_since_token}
use dragonite.Sync.Unsigned.{Codec, erase, ReadsBack}
use dragonite.Sync.Client.{SyncClientResponse, Wait, timed_out, sync_client}
use dragonite.Sync.Advance.{Answers, sync_client-Advances}
use dragonite.Sync.Later.{same, saved}
use dragonite.Sync.View.{JoinedRoom, get_joined_rooms}
use dragonite.Sync.Hidden.{IsFaithful, HidesAll, get_joined_rooms-HidesAll}
use dragonite.Sync.Joined.{shown}
use dragonite.Sync.Shown.{Joins, joined_rooms-join}
use dragonite.Tests.Rooms.{tables, calm, rules}

abbrev with_txn : Map String String
with_txn = ("transaction_id", "t1") ∷ ("age", "5") ∷ []

-- Two texts that are objects.
abbrev decoded : String → Option (Map String String)
decoded text =
    if text == "A" then some with_txn else if text == "B" then some (("age", "5") ∷ []) else none

abbrev codec : Codec
codec = record { decode = decoded; encode = λ fields. some "B" }

abbrev or_nothing : Option (Map String String) → Map String String
or_nothing none = []
or_nothing (some fields) = fields

abbrev start : SyncToken
start = record {
  timeline_position = pos 0;
  presence_position = pos 0;
  receipt_position = pos 0;
  to_device_position = pos 0;
}

abbrev waiting : Action Wait
waiting = return timed_out

abbrev filled : Db
filled = record calm {
  tables = save_evento (record rules { id = "$n" }) (record tables { eventos = [] });
}

abbrev later : Db
later = record calm { tables = save_evento (record rules { id = "$m" }) filled.tables }

abbrev following : SyncToken
following = record start { timeline_position = pos 1 }

joined_rooms-join_example :
    (first second whole : Map String JoinedRoom) × Joins codec "@alice:x" start filled first
    × Joins codec "@alice:x" following later second
    × Joins codec "@alice:x" start later whole
    × (shown "!r:x" whole ≡ shown "!r:x" first ++ shown "!r:x" second)
unfolding save_evento lookup rows are_rising are_up_to are_above kind_in generate_next_since_token
    ◌>>=◌ read return
joined_rooms-join_example =
    joined_rooms-join codec "@alice:x" "!r:x" start following filled
      (generate_next_since_token "@alice:x" start filled).1 later refl refl (refl, refl) refl refl
      refl (saved filled.tables (record rules { id = "$m" }) same) refl

-- Bob's event carries his transaction id.
abbrev sent_by_bob : Db
sent_by_bob = record calm {
  tables =
      save_evento (record rules { id = "$n"; sender = "@bob:x"; unsigned = "A" })
        (record tables { eventos = [] });
}

abbrev showing : Map String JoinedRoom
showing = fst_or (get_joined_rooms codec "@alice:x" start sent_by_bob)
  where
    fst_or : Result (Map String JoinedRoom) × Db → Map String JoinedRoom
    fst_or (ok rooms, db) = rooms
    fst_or (err e, db) = []

abbrev ReadsAny : Option (Map String String) → Type 0
ReadsAny none = Unit
ReadsAny (some fields) = ReadsBack codec (erase "transaction_id" fields)

decoded-ReadsAny : (text : String) → ReadsAny (decoded text)
unfolding erase
decoded-ReadsAny text = elim (Bool-cases (text == "A")) [
  | inl first ↦ rw first ("B", refl, refl)
  | inr n ↦ elim (Bool-cases (text == "B")) [
    | inl second ↦ rw (n, second) ("B", refl, refl)
    | inr m ↦ rw (n, m) tt
  ]
]

codec-IsFaithful : IsFaithful codec
codec-IsFaithful = record {
  empty = refl;
  reads_back = λ text fields h. subst ReadsAny h (decoded-ReadsAny text);
}

get_joined_rooms-HidesAll_example : HidesAll codec "@alice:x" showing
unfolding get_joined_rooms ◌>>=◌ return save_evento
get_joined_rooms-HidesAll_example =
    get_joined_rooms-HidesAll codec "@alice:x" start showing sent_by_bob
      (get_joined_rooms codec "@alice:x" start sent_by_bob).1 codec-IsFaithful refl

-- Bob, who is in no room, waits for news in vain.
abbrev nothing_new : SyncClientResponse
nothing_new = record {
  account_data = [];
  otk_count = [];
  next_batch = record start { timeline_position = pos 1 };
  invite = [];
  join = [];
  leave = [];
  to_device = none;
}

abbrev never : Db → Bool
never db = false

sync_client-Advances_example : Answers never start nothing_new
unfolding sync_client ◌>>=◌ save_evento return
sync_client-Advances_example =
    sync_client-Advances never codec waiting "@bob:x" "D" start (pos 1) nothing_new filled
      (sync_client never codec waiting "@bob:x" "D" start (pos 1) filled).1 refl
