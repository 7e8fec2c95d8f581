-- ===== src/Tests/DeviceKeys.antt =====
-- A device uploads a one-time key, which is claimed; then only the fallback key is left.
use dragonite.Base.{◌≡◌, refl, Option, some, [], ◌∷◌, ◌++◌}
use dragonite.Base.Int.{pos}
use dragonite.Base.Paging.{keep}
use dragonite.Base.Rows.{order_by, are_rising, are_up_to}
use dragonite.Domain.Keys.{ChaveUsoUnico}
use dragonite.Store.Action.{Db, ok, returning}
use dragonite.DeviceKeys.{
  add_one_time_key, has_key, upsert_fallback_key, is_for, oldest, first_of, without,
  claim_one_time_key,
}
use dragonite.DeviceKeys.Claim.{claim_for, Claimed}
use dragonite.DeviceKeys.Queue.{queue, row_added}
use dragonite.DeviceKeys.Claims.{State, Steps, adds, claims, stop, step, fresh, steps-claimed_once}
use dragonite.DeviceKeys.Handing.{Hands, claim_for-Hands}
use dragonite.Tests.Rooms.{tables, calm}

abbrev key : ChaveUsoUnico
key = record {
  id = pos 0;
  dispositivo_id = "D";
  key_id = "curve:1";
  algorithm = "curve";
  key_data = "{}";
}

abbrev stored : ChaveUsoUnico
stored = record key { id = pos 1 }

abbrev uploaded : State
uploaded = record { tables = add_one_time_key "D" key tables; claimed = []; added = stored ∷ [] }

abbrev holding : Db
holding = record calm { tables = add_one_time_key "D" key tables }

abbrev taken : State
taken = record {
  tables = (claim_one_time_key "D" "curve" holding).1.tables;
  claimed = stored ∷ [];
  added = stored ∷ [];
}

abbrev one_claim : Steps "D" "curve" (fresh "D" "curve" tables) taken
unfolding queue keep is_for row_added has_key add_one_time_key claim_one_time_key returning oldest
    order_by first_of without
one_claim =
    step (fresh "D" "curve" tables) uploaded taken (adds (fresh "D" "curve" tables) "D" key) (
      step uploaded taken taken
        (claims uploaded holding (claim_one_time_key "D" "curve" holding).1 (some stored) refl refl)
        (stop taken))

steps-claimed_once_example : (stored ∷ []) ++ queue "D" "curve" taken.tables ≡ stored ∷ []
unfolding are_rising are_up_to upsert_fallback_key
steps-claimed_once_example = steps-claimed_once "D" "curve" tables taken (refl, refl) one_claim

abbrev falling_back : Db
falling_back = record calm { tables = upsert_fallback_key "D" "curve" "curve:f" "{}" tables }

claim_for-Hands_example :
    (got : Option Claimed) × (db : Db) × (claim_for "D" "curve" falling_back ≡ (ok got, db))
    × Hands "D" "curve" falling_back.tables got db.tables
unfolding are_rising are_up_to upsert_fallback_key
claim_for-Hands_example = claim_for-Hands "D" "curve" falling_back refl (refl, refl)
