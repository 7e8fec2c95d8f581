-- ===== src/Backup.antt =====
-- The server-side backup of room keys: internal/usecase/backup_service.go on the statements of
-- internal/infrastructure/postgres/backup_storage.go. strconv.ParseInt is the parameter `parse`.
pub mod Count
pub mod Service
pub mod History
use dragonite.Base.{
  ℕ, suc, String, Bool, true, false, ◌&&◌, Option, none, some, List, [], ◌∷◌, ◌++◌, map, length,
  ◌==◌, string_eq, if◌then◌else◌,
}
use dragonite.Base.Int.{ℤ, pos, incr, ltb_ℤ, int_eq}
use dragonite.Base.Paging.{keep}
use dragonite.Domain.Delivery.{VersaoBackup, ChaveBackup}
use dragonite.Store.{Tables}
use dragonite.Store.Action.{
  not_found, wrong_version, Action, ◌>>=◌, ◌>>◌, return, fail, of_option, read, returning, write,
  execute,
}

-- The statements. A new version takes the next id and becomes the last row.
unfoldable pub numbered : VersaoBackup → Tables → VersaoBackup
numbered v t = record v { id_versao = pos (suc t.versao_serial) }

unfoldable pub add_version : VersaoBackup → Tables → Tables
unfolding numbered
add_version v t = record t {
  versoes = t.versoes ++ numbered v t ∷ [];
  versao_serial = suc t.versao_serial;
}

unfoldable pub newer : Option VersaoBackup → VersaoBackup → VersaoBackup
newer none v = v
newer (some w) v = if ltb_ℤ v.id_versao w.id_versao then w else v

-- WHERE id_usuario = $1 ORDER BY id_versao DESC LIMIT 1
unfoldable pub latest_version : String → List VersaoBackup → Option VersaoBackup
unfolding newer
latest_version user [] = none
latest_version user (v ∷ vs) =
    let rest = latest_version user vs in if v.id_usuario == user then some (newer rest v) else rest

unfoldable pub version_by_id : String → ℤ → List VersaoBackup → Option VersaoBackup
version_by_id user id [] = none
version_by_id user id (v ∷ vs) =
    let rest = version_by_id user id vs in
    if v.id_usuario == user && v.id_versao == id then some v else rest

unfoldable pub is_of : ℤ → ChaveBackup → Bool
is_of version k = k.id_versao == version

unfoldable pub keys_of : ℤ → List ChaveBackup → List ChaveBackup
unfolding keep is_of
keys_of version ks = keep (is_of version) ks

-- INSERT INTO ChaveBackup ... ON CONFLICT (id_versao, id_canal, id_sessao) DO UPDATE
unfoldable pub put_key : ℤ → ChaveBackup → List ChaveBackup → List ChaveBackup
put_key version k [] = record k { id_versao = version } ∷ []
put_key version k (row ∷ rows) =
    let rest = put_key version k rows in
    if row.id_versao == version && (row.id_canal == k.id_canal && row.id_sessao == k.id_sessao)
    then record row {
      first_message_index = k.first_message_index;
      forwarded_count = k.forwarded_count;
      is_verified = k.is_verified;
      session_data = k.session_data;
    }
      ∷ rows
    else row ∷ rest

unfoldable pub upsert_key : ℤ → ChaveBackup → Tables → Tables
unfolding put_key
upsert_key version k t = record t { chaves = put_key version k t.chaves }

unfoldable pub delete_keys : ℤ → List ChaveBackup → List ChaveBackup
delete_keys version [] = []
delete_keys version (k ∷ ks) =
    let rest = delete_keys version ks in if k.id_versao == version then rest else k ∷ rest

unfoldable pub remove_keys : ℤ → Tables → Tables
unfolding delete_keys
remove_keys version t = record t { chaves = delete_keys version t.chaves }

-- UPDATE VersaoBackup SET count = ..., etag = etag + 1 WHERE id_versao = $1
unfoldable pub set_count : ℤ → ℤ → List VersaoBackup → List VersaoBackup
set_count version total [] = []
set_count version total (v ∷ vs) =
    let rest = set_count version total vs in
    if v.id_versao == version
    then record v { total = total; etag = incr v.etag } ∷ rest
    else v ∷ rest

unfoldable pub etag_of : ℤ → List VersaoBackup → Option ℤ
etag_of version [] = none
etag_of version (v ∷ vs) =
    let rest = etag_of version vs in if v.id_versao == version then some v.etag else rest

unfoldable pub next_etag : Option ℤ → Option ℤ
next_etag none = none
next_etag (some n) = some (incr n)

unfoldable pub counted : ℤ → Tables → Tables
unfolding set_count keys_of
counted version t = record t {
  versoes = set_count version (pos (length (keys_of version t.chaves))) t.versoes;
}

-- RETURNING count, etag
unfoldable pub returned : ℤ → ℤ → Option ℤ → Option (ℤ × ℤ)
unfolding next_etag
returned version total none = none
returned version total (some n) = some (total, incr n)

unfoldable pub put_each : ℤ → List ChaveBackup → Action (Unit {0})
unfolding write upsert_key
put_each version [] = return tt
put_each version (k ∷ ks) = write (upsert_key version k) >> put_each version ks

-- PutRoomKeys and DeleteRoomKeys of the storage: the number of keys and the etag.
unfoldable pub store_keys : ℤ → List ChaveBackup → Action (ℤ × ℤ)
unfolding put_each returning returned keys_of etag_of counted
store_keys version ks = do
  put_each version ks
  returning
      (λ t. returned version (pos (length (keys_of version t.chaves))) (etag_of version t.versoes))
      (counted version)

unfoldable pub emptied : ℤ → Tables → Tables
unfolding set_count
emptied version t = record t { versoes = set_count version (pos 0) t.versoes }

unfoldable pub clear_keys : ℤ → Action (ℤ × ℤ)
unfolding write remove_keys returning returned etag_of emptied
clear_keys version = do
  write (remove_keys version)
  returning (λ t. returned version (pos 0) (etag_of version t.versoes)) (emptied version)

pub record CreateBackupParams : Type 0 where
  pub user_id : String
  pub algorithm : String
  pub auth_data : String

unfoldable pub new_version : CreateBackupParams → VersaoBackup
new_version p = record {
  id_versao = pos 0;
  id_usuario = p.user_id;
  algorithm = p.algorithm;
  auth_data = p.auth_data;
  total = pos 0;
  etag = pos 0;
}

unfoldable pub create_backup_version : CreateBackupParams → Action VersaoBackup
unfolding returning numbered new_version add_version
create_backup_version p =
    returning (λ t. some (numbered (new_version p) t)) (add_version (new_version p))

unfoldable pub get_latest_backup_version : String → Action VersaoBackup
unfolding read latest_version of_option
get_latest_backup_version user = do
  found ← read (λ t. latest_version user t.versoes)
  of_option not_found found

unfoldable pub get_room_keys : (String → Option ℤ) → String → String → Action (List ChaveBackup)
unfolding of_option read version_by_id keys_of
get_room_keys parse user version = do
  id ← of_option not_found (parse version)
  found ← read (λ t. version_by_id user id t.versoes)
  backup ← of_option not_found found
  read (λ t. keys_of id t.chaves)

unfoldable pub assign : ℤ → ChaveBackup → ChaveBackup
assign version k = record k { id_versao = version }

-- Keys go to the latest version only.
unfoldable pub put_in_latest : String → ℤ → List ChaveBackup → VersaoBackup → Action (ℤ × ℤ)
unfolding read version_by_id of_option execute store_keys assign
put_in_latest user id ks latest =
    if latest.id_versao == id
    then execute (store_keys id (map (assign id) ks))
    else (read (λ t. version_by_id user id t.versoes) >>= λ found.
        of_option not_found found >>= λ backup. fail (wrong_version latest.id_versao))

unfoldable pub put_room_keys :
    (String → Option ℤ) → String → String → List ChaveBackup → Action (ℤ × ℤ)
unfolding of_option read latest_version put_in_latest
put_room_keys parse user version ks = do
  id ← of_option not_found (parse version)
  found ← read (λ t. latest_version user t.versoes)
  latest ← of_option not_found found
  put_in_latest user id ks latest

unfoldable pub delete_room_keys : (String → Option ℤ) → String → String → Action (ℤ × ℤ)
unfolding of_option read version_by_id execute clear_keys
delete_room_keys parse user version = do
  id ← of_option not_found (parse version)
  found ← read (λ t. version_by_id user id t.versoes)
  backup ← of_option not_found found
  execute (clear_keys id)
