-- ===== src/Backup/Count.antt =====
-- The count of a backup version is the number of its keys.
use dragonite.Base.{
  suc, String, ◌≡◌, refl, Bool, true, false, ◌&&◌, some, List, [], ◌∷◌, ◌++◌, length, arith, ◌==◌,
  string_eq, if◌then◌else◌, Bool-cases, Option-cases, inl, inr,
}
use dragonite.Base.Int.{ℤ, pos, ltb_ℤ, int_eq, int_beq_iff}
use dragonite.Base.Paging.{keep}
use dragonite.Base.Rows.{are_up_to, are_up_to-append, are_up_to-raise}
use dragonite.Domain.Delivery.{VersaoBackup, ChaveBackup}
use dragonite.Store.{Tables}
use dragonite.Backup.{
  numbered, add_version, is_of, keys_of, put_key, delete_keys, set_count, new_version,
  CreateBackupParams, latest_version, newer, next_etag, etag_of,
}

unfoldable pub are_counted : List ChaveBackup → List VersaoBackup → Bool
unfolding keys_of
are_counted ks [] = true
are_counted ks (v ∷ vs) = v.total == pos (length (keys_of v.id_versao ks)) && are_counted ks vs

-- Every version but one.
unfoldable pub are_counted_but : ℤ → List ChaveBackup → List VersaoBackup → Bool
unfolding keys_of
are_counted_but id ks [] = true
are_counted_but id ks (v ∷ vs) =
    (if v.id_versao == id then true else v.total == pos (length (keys_of v.id_versao ks)))
    && are_counted_but id ks vs

-- The ids rise up to the serial, no key is of a later version, and the counts are right.
abbrev pub IsConsistent : Tables → Type 0
IsConsistent t =
    (are_up_to (λ v. v.id_versao) (pos t.versao_serial) t.versoes ≡ true)
    × (are_up_to (λ k. k.id_versao) (pos t.versao_serial) t.chaves ≡ true)
    × (are_counted t.chaves t.versoes ≡ true)

-- The keys of another version.
pub keys_of-put_other :
    (id other : ℤ) (k : ChaveBackup) (ks : List ChaveBackup)
    → (other == id) ≡ false
    → keys_of other (put_key id k ks) ≡ keys_of other ks
unfolding keys_of put_key keep is_of
keys_of-put_other id other k [] differ =
    ground (arith, differ, int_beq_iff id other, int_beq_iff other id)
keys_of-put_other id other k (row ∷ rows) differ =
    elim (Bool-cases
      (row.id_versao == id && (row.id_canal == k.id_canal && row.id_sessao == k.id_sessao))) [
        | inl here ↦ ground (
          arith,
          here,
          differ,
          int_beq_iff row.id_versao id,
          int_beq_iff row.id_versao other,
          int_beq_iff other id,
        )
        | inr further ↦ ground (arith, further, keys_of-put_other id other k rows differ)
      ]

pub keys_of-delete_other :
    (id other : ℤ) (ks : List ChaveBackup)
    → (other == id) ≡ false
    → keys_of other (delete_keys id ks) ≡ keys_of other ks
unfolding keys_of delete_keys keep is_of
keys_of-delete_other id other [] differ = refl
keys_of-delete_other id other (k ∷ ks) differ = ground (
  arith,
  differ,
  int_beq_iff k.id_versao id,
  int_beq_iff k.id_versao other,
  int_beq_iff other id,
  keys_of-delete_other id other ks differ,
)

pub keys_of-delete : (id : ℤ) (ks : List ChaveBackup) → keys_of id (delete_keys id ks) ≡ []
unfolding keys_of delete_keys keep is_of
keys_of-delete id [] = refl
keys_of-delete id (k ∷ ks) = ground (arith, keys_of-delete id ks)

-- No key of a version beyond the serial.
pub keys_of-beyond :
    (id top : ℤ) (ks : List ChaveBackup)
    → ltb_ℤ top id ≡ true
    → are_up_to (λ k. k.id_versao) top ks ≡ true
    → keys_of id ks ≡ []
unfolding keys_of keep is_of are_up_to
keys_of-beyond id top [] h low = refl
keys_of-beyond id top (k ∷ ks) h low =
    ground (arith, h, low, int_beq_iff k.id_versao id, keys_of-beyond id top ks h)

pub counted-but :
    (id : ℤ) (ks : List ChaveBackup) (vs : List VersaoBackup)
    → are_counted ks vs ≡ true
    → are_counted_but id ks vs ≡ true
unfolding are_counted are_counted_but
counted-but id ks [] h = refl
counted-but id ks (v ∷ vs) h = ground (arith, h, counted-but id ks vs)

-- Keys that differ in one version only.
pub counted_but-same :
    (id : ℤ) (ks js : List ChaveBackup) (vs : List VersaoBackup)
    → ((other : ℤ) → (other == id) ≡ false → keys_of other js ≡ keys_of other ks)
    → are_counted_but id ks vs ≡ true
    → are_counted_but id js vs ≡ true
unfolding are_counted_but
counted_but-same id ks js [] same h = refl
counted_but-same id ks js (v ∷ vs) same h = elim (Bool-cases (v.id_versao == id)) [
  | inl own ↦ ground (arith, own, h, counted_but-same id ks js vs same)
  | inr other ↦ ground (arith, other, h, same v.id_versao other, counted_but-same id ks js vs same)
]

pub counted-set_count :
    (id : ℤ) (ks : List ChaveBackup) (vs : List VersaoBackup)
    → are_counted_but id ks vs ≡ true
    → are_counted ks (set_count id (pos (length (keys_of id ks))) vs) ≡ true
unfolding are_counted are_counted_but set_count
counted-set_count id ks [] h = refl
counted-set_count id ks (v ∷ vs) h = elim (Bool-cases (v.id_versao == id)) [
  | inl own ↦ ground (
    arith,
    own,
    h,
    int_beq_iff v.id_versao id,
    int_beq_iff (pos (length (keys_of id ks))) (pos (length (keys_of id ks))),
    counted-set_count id ks vs,
  )
  | inr other ↦ ground (arith, other, h, counted-set_count id ks vs)
]

pub up_to-set_count :
    (top id total : ℤ) (vs : List VersaoBackup)
    → are_up_to (λ v. v.id_versao) top vs ≡ true
    → are_up_to (λ v. v.id_versao) top (set_count id total vs) ≡ true
unfolding are_up_to set_count
up_to-set_count top id total [] low = refl
up_to-set_count top id total (v ∷ vs) low = ground (arith, low, up_to-set_count top id total vs)

pub up_to-put_key :
    (top id : ℤ) (k : ChaveBackup) (ks : List ChaveBackup)
    → ltb_ℤ top id ≡ false
    → are_up_to (λ k. k.id_versao) top ks ≡ true
    → are_up_to (λ k. k.id_versao) top (put_key id k ks) ≡ true
unfolding are_up_to put_key
up_to-put_key top id k [] h low = ground (arith, h)
up_to-put_key top id k (row ∷ rows) h low =
    elim (Bool-cases
      (row.id_versao == id && (row.id_canal == k.id_canal && row.id_sessao == k.id_sessao))) [
        | inl here ↦ ground (arith, here, low)
        | inr further ↦ ground (arith, further, low, up_to-put_key top id k rows h)
      ]

pub up_to-delete_keys :
    (top id : ℤ) (ks : List ChaveBackup)
    → are_up_to (λ k. k.id_versao) top ks ≡ true
    → are_up_to (λ k. k.id_versao) top (delete_keys id ks) ≡ true
unfolding are_up_to delete_keys
up_to-delete_keys top id [] low = refl
up_to-delete_keys top id (k ∷ ks) low = ground (arith, low, up_to-delete_keys top id ks)

are_counted-append :
    (ks : List ChaveBackup) (vs : List VersaoBackup) (v : VersaoBackup)
    → are_counted ks vs ≡ true
    → v.total ≡ pos (length (keys_of v.id_versao ks))
    → are_counted ks (vs ++ v ∷ []) ≡ true
unfolding are_counted
are_counted-append ks [] v h new =
    ground (arith, new, int_beq_iff v.total (pos (length (keys_of v.id_versao ks))))
are_counted-append ks (w ∷ ws) v h new = ground (arith, h, are_counted-append ks ws v)

pub add_version-IsConsistent :
    (p : CreateBackupParams) (t : Tables)
    → IsConsistent t
    → IsConsistent (add_version (new_version p) t)
unfolding add_version numbered new_version
add_version-IsConsistent p t (versions, keys, right) = (
  are_up_to-append (λ v. v.id_versao) (pos t.versao_serial) (pos (suc t.versao_serial)) t.versoes
      (numbered (new_version p) t) (ground arith) (ground arith) versions,
  are_up_to-raise (λ k. k.id_versao) (pos t.versao_serial) (pos (suc t.versao_serial)) t.chaves
      (ground arith) keys,
  are_counted-append t.chaves t.versoes (numbered (new_version p) t) right (
      rw
        (keys_of-beyond (pos (suc t.versao_serial)) (pos t.versao_serial) t.chaves (ground arith)
          keys)
        refl),
)

-- The latest version is a version of the user.
pub latest_version-up_to :
    (user : String) (top : ℤ) (vs : List VersaoBackup) (v : VersaoBackup)
    → are_up_to (λ v. v.id_versao) top vs ≡ true
    → latest_version user vs ≡ some v
    → ltb_ℤ top v.id_versao ≡ false
unfolding latest_version newer are_up_to
latest_version-up_to user top [] v low h = absurd cc
latest_version-up_to user top (w ∷ ws) v low h = elim (Option-cases (latest_version user ws)) [
  | inl none_left ↦ ground (arith, none_left, h, low)
  | inr (u, found) ↦ ground (arith, found, h, low, latest_version-up_to user top ws u)
]

pub etag_of-set_count :
    (id total etag : ℤ) (vs : List VersaoBackup)
    → next_etag (etag_of id vs) ≡ some etag
    → etag_of id (set_count id total vs) ≡ some etag
unfolding next_etag etag_of set_count
etag_of-set_count id total etag [] h = absurd cc
etag_of-set_count id total etag (v ∷ vs) h = elim (Bool-cases (v.id_versao == id)) [
  | inl own ↦ ground (arith, own, h)
  | inr other ↦ ground (arith, other, h, etag_of-set_count id total etag vs)
]
