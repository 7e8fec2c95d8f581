-- ===== src/Tests/Presence.antt =====
-- Alice and Bob share a room; Alice sets her status and Bob reads it.
use dragonite.Base.{String, ◌≡◌, ◌⊎◌, refl, true, none, some, [], ◌∷◌}
use dragonite.Base.Int.{pos}
use dragonite.Presence.{Presence, ok, Stores, get_status, set_status}
use dragonite.Presence.Visibility.{HasCommonRoom, get_status-HasCommonRoom, get_status-set_status}

abbrev alice : String
alice = "@alice:x"

abbrev bob : String
bob = "@bob:x"

abbrev online : Presence
online = record {
  id_usuario = "@alice:x";
  state = "online";
  status_msg = none;
  last_active_at = pos 7;
}

abbrev before : Stores
before = record {
  joined_rooms = λ user. some ("!r:x" ∷ []);
  presences = [];
  reads = true;
  writes = true;
  timestamptz = λ time. time;
}

abbrev after : Stores
after = record before { presences = ("@alice:x", online) ∷ [] }

get_status-HasCommonRoom_example : (bob ≡ alice) ⊎ HasCommonRoom after "@bob:x" "@alice:x"
unfolding get_status
get_status-HasCommonRoom_example = get_status-HasCommonRoom after "@bob:x" "@alice:x" online refl

get_status-set_status_example : get_status after "@alice:x" "@alice:x" ≡ ok online
unfolding set_status
get_status-set_status_example =
    get_status-set_status (pos 7) before after after "@alice:x" "online" none refl refl refl
