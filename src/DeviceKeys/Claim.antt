-- ===== src/DeviceKeys/Claim.antt =====
-- ClaimKeys of internal/usecase/keys_service.go.
use dragonite.Base.{
  String, Option, none, some, List, [], ◌∷◌, ◌++◌, ◌==◌, string_eq, nat_eq, if◌then◌else◌,
}
use dragonite.Base.Int.{int_eq}
use dragonite.Base.Map.{Map, insert, get_or}
use dragonite.Domain.Keys.{ChaveUsoUnico, ChaveFallback, fallback_id_eq}
use dragonite.Store.Action.{Action, ◌>>=◌, return, attempt}
use dragonite.Rooms.{extract_domain_from_user_id}
use dragonite.DeviceKeys.{claim_fallback_key, claim_one_time_key}

-- A key as it is handed out: its id and its text.
pub record Claimed : Type 0 where
  pub key_id : String
  pub key_data : String

unfoldable pub fallback_claimed : Option (Option ChaveFallback) → Option Claimed
fallback_claimed none = none
fallback_claimed (some none) = none
fallback_claimed (some (some k)) = some (record { key_id = k.key_id; key_data = k.key_data })

-- A query that fails skips the device; without a one-time key its fallback key is tried.
unfoldable pub claim_or_fall_back :
    String → String → Option (Option ChaveUsoUnico) → Action (Option Claimed)
unfolding attempt claim_fallback_key fallback_claimed
claim_or_fall_back device algorithm none = return none
claim_or_fall_back device algorithm (some (some k)) =
    return (some (record { key_id = k.key_id; key_data = k.key_data }))
claim_or_fall_back device algorithm (some none) = do
  fallback ← attempt (claim_fallback_key device algorithm)
  return (fallback_claimed fallback)

unfoldable pub claim_for : String → String → Action (Option Claimed)
unfolding attempt claim_one_time_key claim_or_fall_back
claim_for device algorithm =
    attempt (claim_one_time_key device algorithm) >>= claim_or_fall_back device algorithm

-- user -> device -> key id -> key
abbrev pub OneTimeKeys : Type 0
OneTimeKeys = Map String (Map String (Map String String))

unfoldable pub add_claimed_key : String → String → Option Claimed → OneTimeKeys → OneTimeKeys
unfolding get_or insert
add_claimed_key user device none dst = dst
add_claimed_key user device (some k) dst =
    insert user
      (insert device (insert k.key_id k.key_data (get_or device [] (get_or user [] dst)))
        (get_or user [] dst))
      dst

unfoldable pub claim_devices : String → Map String String → OneTimeKeys → Action OneTimeKeys
unfolding claim_for add_claimed_key
claim_devices user [] dst = return dst
claim_devices user ((device, algorithm) ∷ rest) dst = do
  k ← claim_for device algorithm
  claim_devices user rest (add_claimed_key user device k dst)

unfoldable pub claim_local :
    String → Map String (Map String String) → OneTimeKeys → Action OneTimeKeys
unfolding extract_domain_from_user_id claim_devices
claim_local server [] dst = return dst
claim_local server ((user, devices) ∷ rest) dst =
    if extract_domain_from_user_id user == server
    then (claim_devices user devices dst >>= claim_local server rest)
    else claim_local server rest dst

abbrev pub Remote : Type 0
Remote = Map String (Map String (Map String String))

unfoldable pub claims_by_server : String → Map String (Map String String) → Remote → Remote
unfolding extract_domain_from_user_id insert get_or
claims_by_server server [] remote = remote
claims_by_server server ((user, devices) ∷ rest) remote =
    if extract_domain_from_user_id user == server
    then claims_by_server server rest remote
    else claims_by_server server rest (
        insert (extract_domain_from_user_id user)
          (insert user devices (get_or (extract_domain_from_user_id user) [] remote)) remote)

unfoldable pub merge_devices : String → Map String (Map String String) → OneTimeKeys → OneTimeKeys
unfolding insert get_or
merge_devices user [] dst = insert user (get_or user [] dst) dst
merge_devices user ((device, ks) ∷ rest) dst =
    merge_devices user rest (insert user (insert device ks (get_or user [] dst)) dst)

unfoldable pub merge_users : OneTimeKeys → OneTimeKeys → OneTimeKeys
unfolding merge_devices
merge_users [] dst = dst
merge_users ((user, devices) ∷ rest) dst = merge_users rest (merge_devices user devices dst)

pub record ClaimKeysResult : Type 0 where
  pub one_time_keys : OneTimeKeys
  pub failures : List String

unfoldable pub claim_remote :
    (String → Map String (Map String String) → Option OneTimeKeys)
    → Remote
    → ClaimKeysResult
    → ClaimKeysResult
unfolding merge_users
claim_remote call [] result = result
claim_remote call ((server, request) ∷ rest) result =
    claim_remote call rest (elim (call server request) [
      | none ↦ record result { failures = result.failures ++ server ∷ [] }
      | some users ↦ record result { one_time_keys = merge_users users result.one_time_keys }
    ])

unfoldable pub claim_keys :
    String
    → (String → Map String (Map String String) → Option OneTimeKeys)
    → Map String (Map String String)
    → Action ClaimKeysResult
unfolding claim_local claims_by_server claim_remote
claim_keys server call requested = do
  here ← claim_local server requested []
  return (
      claim_remote call (claims_by_server server requested [])
        (record { one_time_keys = here; failures = [] }))
