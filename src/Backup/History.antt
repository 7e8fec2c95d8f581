-- ===== src/Backup/History.antt =====
-- Any sequence of calls of the backup service, whatever statements fail, and what single calls do.
use dragonite.Base.{String, ◌≡◌, Bool, true, false, Option, some, List, map, ◌==◌, if◌then◌else◌}
use dragonite.Base.Int.{ℤ, int_eq}
use dragonite.Domain.Delivery.{VersaoBackup, ChaveBackup}
use dragonite.Store.{Tables}
use dragonite.Store.Action.{
  ok, Db, not_found, wrong_version, ◌>>=◌, fail, of_option, read, execute, IsAtomic,
}
use dragonite.Store.Rules.{
  read-IsPure, of_option-IsPure, fail-IsPure, IsPure-IsAtomic, bind-IsPure, bind-IsAtomic,
  execute-IsAtomic, returning-IsAtomic,
}
use dragonite.Store.Triples.{returning-Ensures, Ensures-map}
use dragonite.Store.Invariants.{Keeps, settled-Keeps}
use dragonite.Store.Outcome.{observed}
use dragonite.Backup.{
  latest_version, version_by_id, store_keys, clear_keys, CreateBackupParams, new_version, numbered,
  add_version, create_backup_version, assign, put_in_latest, put_room_keys, delete_room_keys,
}
use dragonite.Backup.Count.{IsConsistent, add_version-IsConsistent}
use dragonite.Backup.Service.{PutInLatest, Emptied, put_room_keys-Ensures, delete_room_keys-Ensures}

put_in_latest-IsAtomic :
    (user : String) (id : ℤ) (ks : List ChaveBackup) (latest : VersaoBackup)
    → IsAtomic (put_in_latest user id ks latest)
unfolding put_in_latest
put_in_latest-IsAtomic user id ks latest = go (latest.id_versao == id)
  where
    go :
        (b : Bool)
        → IsAtomic (
            if b
            then execute (store_keys id (map (assign id) ks))
            else (read (λ t. version_by_id user id t.versoes) >>= λ found.
                of_option not_found found >>= λ backup. fail (wrong_version latest.id_versao)))
    go true = execute-IsAtomic (store_keys id (map (assign id) ks))
    go false = IsPure-IsAtomic _ (
        bind-IsPure _ _ (read-IsPure (λ t. version_by_id user id t.versoes)) (λ found.
          bind-IsPure _ _ (of_option-IsPure not_found found)
            (λ backup. fail-IsPure (wrong_version latest.id_versao))))

put_room_keys-IsAtomic :
    (parse : String → Option ℤ) (user version : String) (ks : List ChaveBackup)
    → IsAtomic (put_room_keys parse user version ks)
unfolding put_room_keys
put_room_keys-IsAtomic parse user version ks =
    bind-IsAtomic _ _ (of_option-IsPure not_found (parse version)) (λ id.
      bind-IsAtomic _ _ (read-IsPure (λ t. latest_version user t.versoes)) (λ found.
        bind-IsAtomic _ _ (of_option-IsPure not_found found) (put_in_latest-IsAtomic user id ks)))

delete_room_keys-IsAtomic :
    (parse : String → Option ℤ) (user version : String)
    → IsAtomic (delete_room_keys parse user version)
unfolding delete_room_keys
delete_room_keys-IsAtomic parse user version =
    bind-IsAtomic _ _ (of_option-IsPure not_found (parse version)) (λ id.
      bind-IsAtomic _ _ (read-IsPure (λ t. version_by_id user id t.versoes)) (λ found.
        bind-IsAtomic _ _ (of_option-IsPure not_found found)
          (λ backup. execute-IsAtomic (clear_keys id))))

create-Keeps : (p : CreateBackupParams) → Keeps IsConsistent (create_backup_version p)
unfolding create_backup_version
create-Keeps p =
    settled-Keeps IsConsistent (create_backup_version p)
      (returning-IsAtomic (λ t. some (numbered (new_version p) t)) (add_version (new_version p)))
      (λ t consistent.
        returning-Ensures ⊥ (λ t. some (numbered (new_version p) t)) (add_version (new_version p)) _
          t (λ missing n. n) (λ v made. add_version-IsConsistent p t consistent))

-- One call, with the tables before it and after it.
pub data Change (parse : String → Option ℤ) : Tables → Tables → Type 0 where
  creates :
      (p : CreateBackupParams) (db : Db)
      → Change parse db.tables (create_backup_version p db).1.tables
  puts :
      (user version : String) (ks : List ChaveBackup) (db : Db)
      → Change parse db.tables (put_room_keys parse user version ks db).1.tables
  deletes :
      (user version : String) (db : Db)
      → Change parse db.tables (delete_room_keys parse user version db).1.tables

pub data Changes (parse : String → Option ℤ) : Tables → Tables → Type 0 where
  unchanged : (t : Tables) → Changes parse t t
  changed : (t u v : Tables) → Change parse t u → Changes parse u v → Changes parse t v

Change-IsConsistent :
    (parse : String → Option ℤ) {t u : Tables} → Change parse t u → IsConsistent t → IsConsistent u
Change-IsConsistent parse (creates p db) consistent = (create-Keeps p).run db consistent
Change-IsConsistent parse (puts user version ks db) consistent =
    (settled-Keeps IsConsistent (put_room_keys parse user version ks)
        (put_room_keys-IsAtomic parse user version ks)
        λ t c.
          Ensures-map ⊥ (put_room_keys parse user version ks) _ _ t
            (λ result u (latest, found, parsed, wrote). wrote.0)
            (put_room_keys-Ensures parse user version ks t c)).run
      db consistent
Change-IsConsistent parse (deletes user version db) consistent =
    (settled-Keeps IsConsistent (delete_room_keys parse user version)
        (delete_room_keys-IsAtomic parse user version)
        λ t c.
          Ensures-map ⊥ (delete_room_keys parse user version) _ _ t
            (λ result u (id, parsed, held, wrote, gone). wrote.0)
            (delete_room_keys-Ensures parse user version t c)).run
      db consistent

-- Whatever calls create versions, put keys and delete them, and whatever statements fail, the count
-- of each version stays the number of its keys, and no version or key has an id beyond the last.
pub Changes-IsConsistent :
    (parse : String → Option ℤ) {t u : Tables} → IsConsistent t → Changes parse t u → IsConsistent u
Changes-IsConsistent parse consistent (unchanged t) = consistent
Changes-IsConsistent parse consistent (changed t u v first rest) =
    Changes-IsConsistent parse (Change-IsConsistent parse first consistent) rest

-- A PutRoomKeys that succeeds on consistent tables was for the latest version of the user; the
-- tables stay consistent, the count it returns is the number of keys now stored for that version,
-- the etag it returns is the next one and is stored, and the keys of other versions are as they were.
pub put_room_keys_guarded :
    (parse : String → Option ℤ) (user version : String) (ks : List ChaveBackup) (result : ℤ × ℤ)
    (db db' : Db)
    → IsConsistent db.tables
    → put_room_keys parse user version ks db ≡ (ok result, db')
    → PutInLatest parse user version result db.tables db'.tables
put_room_keys_guarded parse user version ks result db db' consistent h =
    observed (put_room_keys parse user version ks)
      (λ result t. PutInLatest parse user version result db.tables t) result db db'
      (put_room_keys-Ensures parse user version ks db.tables consistent) h

-- A DeleteRoomKeys that succeeds on consistent tables was for a version of the user, which then has
-- no keys; the tables stay consistent, the count it returns is that of the version, the etag it
-- returns is the next one and is stored, and the keys of other versions are as they were.
pub delete_room_keys_guarded :
    (parse : String → Option ℤ) (user version : String) (result : ℤ × ℤ) (db db' : Db)
    → IsConsistent db.tables
    → delete_room_keys parse user version db ≡ (ok result, db')
    → Emptied parse user version result db.tables db'.tables
delete_room_keys_guarded parse user version result db db' consistent h =
    observed (delete_room_keys parse user version)
      (λ result t. Emptied parse user version result db.tables t) result db db'
      (delete_room_keys-Ensures parse user version db.tables consistent) h
