-- ===== src/DeviceKeys.antt =====
-- The keys of devices: uploading and claiming (UploadKeys and ClaimKeys of
-- internal/usecase/keys_service.go) on the statements of
-- internal/infrastructure/postgres/device_keys_storage.go. A Go map is given in the order of its
-- iteration; the call to another server is the parameter `claim_keys_call`.
pub mod Queue
pub mod Claim
pub mod Claims
pub mod Handing
use dragonite.Base.{
  ℕ, suc, String, Bool, true, false, not, ◌&&◌, Option, none, some, List, [], ◌∷◌, ◌++◌, ◌==◌,
  string_eq, nat_eq, if◌then◌else◌,
}
use dragonite.Base.Int.{ℤ, pos, incr, int_eq}
use dragonite.Base.Map.{Map, lookup, insert, get_or}
use dragonite.Base.Paging.{keep}
use dragonite.Base.Rows.{order_by}
use dragonite.Domain.Keys.{
  ChavesDispositivo, ChaveUsoUnico, FallbackId, ChaveFallback, fallback_id_eq,
}
use dragonite.Store.{Tables}
use dragonite.Store.Action.{Action, ◌>>=◌, ◌>>◌, return, attempt, read, returning, write, execute}
use dragonite.Rooms.{extract_domain_from_user_id}
use Prim.Native.Char.{code}

-- strings.Cut(keyID, ":"), the part before the colon or all of the text
unfoldable pub before_colon : String → String
before_colon String.[] = String.[]
before_colon (String.◌∷◌ c rest) =
    let further = before_colon rest in if code c == 58 then String.[] else String.◌∷◌ c further

-- The statements.
unfoldable pub upsert_device_keys : ChavesDispositivo → Tables → Tables
unfolding insert
upsert_device_keys k t = record t {
  chaves_dispositivo = insert k.dispositivo_id k t.chaves_dispositivo;
}

unfoldable pub has_key : String → String → List ChaveUsoUnico → Bool
has_key device id [] = false
has_key device id (k ∷ ks) =
    let rest = has_key device id ks in
    if k.dispositivo_id == device && k.key_id == id then true else rest

-- INSERT ... ON CONFLICT (fk_id_dispositivo, key_id) DO NOTHING: a new key takes the next id.
unfoldable pub add_one_time_key : String → ChaveUsoUnico → Tables → Tables
unfolding has_key
add_one_time_key device k t =
    if has_key device k.key_id t.chaves_uso_unico
    then record t { uso_unico_serial = suc t.uso_unico_serial }
    else record t {
      chaves_uso_unico =
          t.chaves_uso_unico
          ++ record k { id = pos (suc t.uso_unico_serial); dispositivo_id = device } ∷ [];
      uso_unico_serial = suc t.uso_unico_serial;
    }

unfoldable pub upsert_one_time_keys : String → List ChaveUsoUnico → Action (Unit {0})
unfolding write add_one_time_key
upsert_one_time_keys device [] = return tt
upsert_one_time_keys device (k ∷ ks) =
    write (add_one_time_key device k) >> upsert_one_time_keys device ks

unfoldable pub upsert_fallback_key : String → String → String → String → Tables → Tables
unfolding insert
upsert_fallback_key device algorithm id json t = record t {
  chaves_fallback =
      insert (record { dispositivo = device; algorithm = algorithm })
        (record { key_id = id; key_data = json; usada = false }) t.chaves_fallback;
}

unfoldable pub is_for : String → String → ChaveUsoUnico → Bool
is_for device algorithm k = k.dispositivo_id == device && k.algorithm == algorithm

unfoldable pub first_of : List ChaveUsoUnico → Option ChaveUsoUnico
first_of [] = none
first_of (k ∷ ks) = some k

-- ORDER BY id ASC LIMIT 1
unfoldable pub oldest : String → String → Tables → Option ChaveUsoUnico
unfolding keep is_for order_by first_of
oldest device algorithm t =
    first_of (order_by (λ k. k.id) (keep (is_for device algorithm) t.chaves_uso_unico))

unfoldable pub without : Option ChaveUsoUnico → Tables → Tables
unfolding keep
without none t = t
without (some k) t = record t {
  chaves_uso_unico = keep (λ row. not (row.id == k.id)) t.chaves_uso_unico;
}

-- DELETE FROM Chave_Uso_Unico WHERE id = (...) RETURNING ...: no key is nil.
unfoldable pub claim_one_time_key : String → String → Action (Option ChaveUsoUnico)
unfolding returning oldest without
claim_one_time_key device algorithm =
    returning (λ t. some (oldest device algorithm t)) (λ t. without (oldest device algorithm t) t)

unfoldable pub fallback_of : String → String → Tables → Option ChaveFallback
unfolding lookup
fallback_of device algorithm t =
    lookup (record { dispositivo = device; algorithm = algorithm }) t.chaves_fallback

unfoldable pub used : String → String → Option ChaveFallback → Tables → Tables
unfolding insert
used device algorithm none t = t
used device algorithm (some k) t = record t {
  chaves_fallback =
      insert (record { dispositivo = device; algorithm = algorithm }) (record k { usada = true })
        t.chaves_fallback;
}

unfoldable pub claim_fallback_key : String → String → Action (Option ChaveFallback)
unfolding returning fallback_of used
claim_fallback_key device algorithm =
    returning (λ t. some (fallback_of device algorithm t))
      (λ t. used device algorithm (fallback_of device algorithm t) t)

-- SELECT algorithm, COUNT(*) ... GROUP BY algorithm
unfoldable pub count_one_time_keys : String → List ChaveUsoUnico → Map String ℤ
unfolding insert get_or
count_one_time_keys device [] = []
count_one_time_keys device (k ∷ ks) =
    let counts = count_one_time_keys device ks in
    if k.dispositivo_id == device
    then insert k.algorithm (incr (get_or k.algorithm (pos 0) counts)) counts
    else counts

pub record UploadKeysParams : Type 0 where
  pub user_id : String
  pub device_id : String
  pub algorithms : List String
  pub identity_keys : String
  pub signatures : String
  pub one_time_keys : Map String String
  pub fallback_keys : Map String String

unfoldable pub one_time_keys_of : String → Map String String → List ChaveUsoUnico
unfolding before_colon
one_time_keys_of device [] = []
one_time_keys_of device ((id, json) ∷ rest) =
    record {
      id = pos 0;
      dispositivo_id = device;
      key_id = id;
      algorithm = before_colon id;
      key_data = json;
    }
    ∷ one_time_keys_of device rest

unfoldable pub upsert_identity : UploadKeysParams → List String → Action (Unit {0})
unfolding write upsert_device_keys
upsert_identity p [] = return tt
upsert_identity p (algorithm ∷ rest) = write (
    upsert_device_keys (record {
      dispositivo_id = p.device_id;
      usuario_id = p.user_id;
      algorithms = algorithm ∷ rest;
      keys_json = p.identity_keys;
      signatures = p.signatures;
    }))

unfoldable pub upsert_fallback_keys : String → Map String String → Action (Unit {0})
unfolding write upsert_fallback_key before_colon
upsert_fallback_keys device [] = return tt
upsert_fallback_keys device ((id, json) ∷ rest) =
    write (upsert_fallback_key device (before_colon id) id json) >> upsert_fallback_keys device rest

unfoldable pub upload_body : UploadKeysParams → Action (Map String ℤ)
unfolding upsert_identity upsert_one_time_keys one_time_keys_of upsert_fallback_keys read
    count_one_time_keys
upload_body p = do
  upsert_identity p p.algorithms
  upsert_one_time_keys p.device_id (one_time_keys_of p.device_id p.one_time_keys)
  upsert_fallback_keys p.device_id p.fallback_keys
  read (λ t. count_one_time_keys p.device_id t.chaves_uso_unico)

unfoldable pub upload_keys : UploadKeysParams → Action (Map String ℤ)
unfolding execute upload_body
upload_keys p = execute (upload_body p)
