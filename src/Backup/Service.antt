-- ===== src/Backup/Service.antt =====
-- What the backup service establishes, whatever statements fail.
use dragonite.Base.{
  String, ◌≡◌, ◌≢◌, refl, sym, ◌∙◌, true, false, Option, none, some, List, [], ◌∷◌, map, length,
  arith, ◌==◌, Bool-cases, inl, inr,
}
use mathlib.Core.Path.{subst}
use dragonite.Base.Int.{ℤ, pos, ltb_ℤ, int_eq, int_beq_iff}
use dragonite.Base.Rows.{are_up_to}
use dragonite.Domain.Delivery.{VersaoBackup, ChaveBackup}
use dragonite.Store.{Tables}
use dragonite.Store.Action.{not_found, wrong_version, of_option, read, write, execute, Ensures}
use dragonite.Store.Triples.{
  read-Ensures, of_option-Ensures, returning-Ensures, return-Ensures, fail-Ensures, write-Ensures,
  bind-Ensures, execute-Ensures,
}
use dragonite.Backup.{
  latest_version, version_by_id, keys_of, upsert_key, remove_keys, set_count, etag_of, next_etag,
  returned, counted, emptied, put_each, store_keys, clear_keys, assign, put_in_latest,
  put_room_keys, delete_room_keys,
}
use dragonite.Backup.Count.{
  IsConsistent, keys_of-put_other, keys_of-delete_other, keys_of-delete, counted-but,
  counted_but-same, counted-set_count, up_to-set_count, up_to-put_key, up_to-delete_keys,
  latest_version-up_to, etag_of-set_count,
}

-- The keys of one version are being written.
abbrev Writing : ℤ → Tables → Tables → Type 0
Writing id before t =
    (t.versoes ≡ before.versoes)
    × (t.versao_serial ≡ before.versao_serial)
    × (are_up_to (λ k. k.id_versao) (pos before.versao_serial) t.chaves ≡ true)
    × ((other : ℤ) → (other == id) ≡ false → keys_of other t.chaves ≡ keys_of other before.chaves)

-- A version has been written: its count is the number of its keys, its etag is the next one, and the
-- keys of the other versions are as they were.
abbrev pub Wrote : ℤ → ℤ × ℤ → Tables → Tables → Type 0
Wrote id result before after =
    IsConsistent after
    × (result.0 ≡ pos (length (keys_of id after.chaves)))
    × (next_etag (etag_of id before.versoes) ≡ some (result.1))
    × (etag_of id after.versoes ≡ some (result.1))
    × ((other : ℤ)
        → (other == id) ≡ false
        → keys_of other after.chaves ≡ keys_of other before.chaves)

returned-next_etag :
    (id total : ℤ) (e : Option ℤ) (result : ℤ × ℤ)
    → returned id total e ≡ some result
    → (result.0 ≡ total) × (next_etag e ≡ some (result.1))
unfolding returned next_etag
returned-next_etag id total none result h = absurd cc
returned-next_etag id total (some n) result h = ground (arith, h)

-- Counting after the keys are written.
Writing-Wrote :
    (id total : ℤ) (result : ℤ × ℤ) (before t : Tables)
    → IsConsistent before
    → Writing id before t
    → total ≡ pos (length (keys_of id t.chaves))
    → returned id total (etag_of id t.versoes) ≡ some result
    → Wrote id result before (record t { versoes = set_count id total t.versoes })
Writing-Wrote id total result before t (versions, keys, right) (same, serial, low, others) whole
      made =
    let (first, etag) = returned-next_etag id total (etag_of id t.versoes) result made in
    (
      (
        rw (serial, same)
            (up_to-set_count (pos before.versao_serial) id total before.versoes versions),
        rw serial low,
        rw (whole, same)
            (counted-set_count id t.chaves before.versoes (
              counted_but-same id before.chaves t.chaves before.versoes others
                (counted-but id before.chaves before.versoes right))),
      ),
      first ∙ whole,
      rw (sym same) etag,
      etag_of-set_count id total (result.1) t.versoes etag,
      others,
    )

module _ where
  put_each-Ensures :
      (id : ℤ) (ks : List ChaveBackup) (Q : Unit {0} → Tables → Type 0) (before t : Tables)
      → ltb_ℤ (pos before.versao_serial) id ≡ false
      → Writing id before t
      → ((t' : Tables) → Writing id before t' → Q tt t')
      → Ensures ⊥ (put_each id ks) Q t
  unfolding put_each upsert_key
  put_each-Ensures id [] Q before t fits writing q = return-Ensures ⊥ tt Q t (q t writing)
  put_each-Ensures id (k ∷ ks) Q before t fits (same, serial, low, others) q =
      bind-Ensures ⊥ (write (upsert_key id k)) _ Q t (
        write-Ensures ⊥ (upsert_key id k) _ t (
          put_each-Ensures id ks Q before (upsert_key id k t) fits
            (
              same,
              serial,
              up_to-put_key (pos before.versao_serial) id k t.chaves fits low,
              λ other differ. keys_of-put_other id other k t.chaves differ ∙ others other differ,
            )
            q))

  store_keys-Ensures :
      (id : ℤ) (ks : List ChaveBackup) (Q : ℤ × ℤ → Tables → Type 0) (t : Tables)
      → IsConsistent t
      → ltb_ℤ (pos t.versao_serial) id ≡ false
      → ((result : ℤ × ℤ) (t' : Tables) → Wrote id result t t' → Q result t')
      → Ensures ⊥ (store_keys id ks) Q t
  unfolding store_keys counted
  store_keys-Ensures id ks Q t consistent fits q = bind-Ensures ⊥ (put_each id ks) _ _ t (
      put_each-Ensures id ks _ t t fits (refl, refl, consistent.1, λ other differ. refl)
        λ t' writing.
          returning-Ensures ⊥
            (λ t. returned id (pos (length (keys_of id t.chaves))) (etag_of id t.versoes))
            (counted id) _ t' (λ missing n. n)
            (λ result made. q result (counted id t') (
              Writing-Wrote id (pos (length (keys_of id t'.chaves))) result t t' consistent writing
                refl made)))

  clear_keys-Ensures :
      (id : ℤ) (Q : ℤ × ℤ → Tables → Type 0) (t : Tables)
      → IsConsistent t
      → ((result : ℤ × ℤ) (t' : Tables)
          → Wrote id result t t'
          → keys_of id t'.chaves ≡ []
          → Q result t')
      → Ensures ⊥ (clear_keys id) Q t
  unfolding clear_keys remove_keys emptied
  clear_keys-Ensures id Q t consistent q = bind-Ensures ⊥ (write (remove_keys id)) _ _ t (
      write-Ensures ⊥ (remove_keys id) _ t (
        returning-Ensures ⊥ (λ t. returned id (pos 0) (etag_of id t.versoes)) (emptied id) _
          (remove_keys id t) (λ missing n. n)
          (λ result made.
            q result (emptied id (remove_keys id t))
              (Writing-Wrote id (pos 0) result t (remove_keys id t) consistent
                (
                  refl,
                  refl,
                  up_to-delete_keys (pos t.versao_serial) id t.chaves (consistent.1),
                  λ other differ. keys_of-delete_other id other t.chaves differ,
                )
                (rw (keys_of-delete id t.chaves) refl) made)
              (keys_of-delete id t.chaves))))

-- The keys went to the latest version of the user.
abbrev pub PutInLatest : (String → Option ℤ) → String → String → ℤ × ℤ → Tables → Tables → Type 0
PutInLatest parse user version result before after =
    (latest : VersaoBackup) × (latest_version user before.versoes ≡ some latest)
    × (parse version ≡ some latest.id_versao)
    × Wrote latest.id_versao result before after

put_in_latest-Ensures :
    (parse : String → Option ℤ) (user version : String) (id : ℤ) (ks : List ChaveBackup)
    (latest : VersaoBackup) (t : Tables)
    → IsConsistent t
    → parse version ≡ some id
    → latest_version user t.versoes ≡ some latest
    → Ensures ⊥
        (put_in_latest user id ks latest)
        (λ result t'. PutInLatest parse user version result t t')
        t
unfolding put_in_latest
put_in_latest-Ensures parse user version id ks latest t consistent parsed found =
    elim (Bool-cases (latest.id_versao == id)) [
      | inl own ↦ rw own (
          subst
            (λ i.
              Ensures ⊥ (execute (store_keys i (map (assign i) ks)))
                (λ result t'. PutInLatest parse user version result t t') t)
            (same own)
            (execute-Ensures ⊥ (store_keys latest.id_versao (map (assign latest.id_versao) ks)) _ t
              (store_keys-Ensures latest.id_versao (map (assign latest.id_versao) ks) _ t consistent
                (latest_version-up_to user (pos t.versao_serial) t.versoes latest (consistent.0)
                  found)
                (λ result t' wrote. (latest, found, rw (same own) parsed, wrote)))))
      | inr older ↦ rw older (
          bind-Ensures ⊥ (read (λ t. version_by_id user id t.versoes)) _ _ t (
            read-Ensures ⊥ (λ t. version_by_id user id t.versoes) _ t
              (bind-Ensures ⊥ (of_option not_found (version_by_id user id t.versoes)) _ _ t (
                of_option-Ensures ⊥ not_found (version_by_id user id t.versoes) _ t (λ missing n. n)
                  (λ backup held. fail-Ensures ⊥ (wrong_version latest.id_versao) _ t (λ n. n))))))
    ]
  where
    same : (latest.id_versao == id) ≡ true → latest.id_versao ≡ id
    same own = (int_beq_iff latest.id_versao id).0 own

-- A PutRoomKeys that succeeds wrote to the latest version.
pub put_room_keys-Ensures :
    (parse : String → Option ℤ) (user version : String) (ks : List ChaveBackup) (t : Tables)
    → IsConsistent t
    → Ensures ⊥
        (put_room_keys parse user version ks)
        (λ result t'. PutInLatest parse user version result t t')
        t
unfolding put_room_keys
put_room_keys-Ensures parse user version ks t consistent =
    bind-Ensures ⊥ (of_option not_found (parse version)) _ _ t (
      of_option-Ensures ⊥ not_found (parse version) _ t (λ missing n. n)
        λ id parsed. bind-Ensures ⊥ (read (λ t. latest_version user t.versoes)) _ _ t (
          read-Ensures ⊥ (λ t. latest_version user t.versoes) _ t
            (bind-Ensures ⊥ (of_option not_found (latest_version user t.versoes)) _ _ t (
              of_option-Ensures ⊥ not_found (latest_version user t.versoes) _ t (λ missing n. n)
                λ latest found.
                  put_in_latest-Ensures parse user version id ks latest t consistent parsed
                    found))))

-- A version of the user has been emptied.
abbrev pub Emptied : (String → Option ℤ) → String → String → ℤ × ℤ → Tables → Tables → Type 0
Emptied parse user version result before after =
    (id : ℤ) × (parse version ≡ some id)
    × (version_by_id user id before.versoes ≢ none)
    × Wrote id result before after
    × (keys_of id after.chaves ≡ [])

pub delete_room_keys-Ensures :
    (parse : String → Option ℤ) (user version : String) (t : Tables)
    → IsConsistent t
    → Ensures ⊥
        (delete_room_keys parse user version)
        (λ result t'. Emptied parse user version result t t')
        t
unfolding delete_room_keys
delete_room_keys-Ensures parse user version t consistent =
    bind-Ensures ⊥ (of_option not_found (parse version)) _ _ t (
      of_option-Ensures ⊥ not_found (parse version) _ t (λ missing n. n)
        λ id parsed. bind-Ensures ⊥ (read (λ t. version_by_id user id t.versoes)) _ _ t (
          read-Ensures ⊥ (λ t. version_by_id user id t.versoes) _ t
            (bind-Ensures ⊥ (of_option not_found (version_by_id user id t.versoes)) _ _ t (
              of_option-Ensures ⊥ not_found (version_by_id user id t.versoes) _ t (λ missing n. n)
                λ backup held. execute-Ensures ⊥ (clear_keys id) _ t (
                  clear_keys-Ensures id _ t consistent
                    (λ result t' wrote gone. (id, parsed, (λ e. absurd cc), wrote, gone)))))))
