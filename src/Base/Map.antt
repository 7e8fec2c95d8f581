-- ===== src/Base/Map.antt =====
-- Go's maps as association lists. A write to a present key keeps its place, a new key goes to
-- the end; the order is seen only where the program ranges over a map.
use Prim.Native.Nat.{◌+◌, ◌≤◌}
use mathlib.Core.Path.{◌≡◌, refl}
use mathlib.Core.Bool.{true, false, ◌||◌}
use mathlib.Core.List.{List, [], ◌∷◌}
use mathlib.Core.Option.{Option, none, some}
use native.Mathlib.Omega.{arith}
use dragonite.Base.Tests.{Eq, ◌==◌, if◌then◌else◌}
use dragonite.Base.Lists.{count, elem, count-elem, elem-count}

abbrev pub Map {ℓ κ} : Type ℓ → Type κ → Type (ℓ ⊔ κ)
Map K V = List (K × V)

module _ {ℓ κ} {K : Type ℓ} {V : Type κ} where
  unfoldable pub keys : Map K V → List K
  keys [] = []
  keys ((k, v) ∷ m) = k ∷ keys m

copy_onto {κ} : {V : Type κ} → Option V → Option V → Option V
copy_onto none o = o
copy_onto (some v) o = some v

module _ {ℓ κ} {K : Type ℓ} {V : Type κ} ⦃e : Eq K⦄ where
  -- v, ok := m[k]
  unfoldable pub lookup : K → Map K V → Option V
  lookup key [] = none
  lookup key ((at, held) ∷ rest) = if at == key then some held else lookup key rest

  -- m[k] = v
  unfoldable pub insert : K → V → Map K V → Map K V
  insert key new [] = (key, new) ∷ []
  insert key new ((at, held) ∷ rest) =
      if at == key then (at, new) ∷ rest else (at, held) ∷ insert key new rest

  -- m[k], with the zero value of a missing key
  unfoldable pub get_or : K → V → Map K V → V
  unfolding lookup
  get_or k d m = elim (lookup k m) [ none ↦ d | some v ↦ v ]

  -- What a read sees after a write.
  pub lookup-insert :
      (at key : K) (new : V) (l : Map K V)
      → lookup key (insert at new l) ≡ (if at == key then some new else lookup key l)
  unfolding insert lookup
  lookup-insert at key new [] = refl
  lookup-insert at key new ((i, held) ∷ l) =
      ground (arith, e.beq_iff at key, e.beq_iff i at, e.beq_iff i key, lookup-insert at key new l)

  -- A key is present exactly when a lookup finds it.
  pub elem-keys-lookup :
      (k : K) (m : Map K V) → elem k (keys m) ≡ elim (lookup k m) [ none ↦ false | some _ ↦ true ]
  unfolding lookup keys elem
  elem-keys-lookup k [] = refl
  elem-keys-lookup k ((j, w) ∷ m) = ground (arith, elem-keys-lookup k m)

  -- A write adds the key if it is new, and no key twice.
  pub count-keys-insert :
      (k j : K) (v : V) (m : Map K V)
      → count j (keys (insert k v m))
        ≡ count j (keys m) + (if k == j then (if elem k (keys m) then 0 else 1) else 0)
  unfolding insert keys elem count
  count-keys-insert k j v [] = ground arith
  count-keys-insert k j v ((i, w) ∷ m) =
      ground (arith, e.beq_iff k j, e.beq_iff i k, e.beq_iff i j, count-keys-insert k j v m)

  -- What every Go map has: no key twice.
  abbrev pub HasOneEach : Map K V → Type ℓ
  HasOneEach m = (k : K) → count k (keys m) ≤ 1

  pub insert-HasOneEach : (k : K) (v : V) (m : Map K V) → HasOneEach m → HasOneEach (insert k v m)
  insert-HasOneEach k v m h j =
      ground (arith, h j, count-keys-insert k j v m, count-elem j (keys m), e.beq_iff k j)

  -- The entries with these keys, in this order: a range over the map visits all of its keys.
  unfoldable pub entries : List K → Map K V → List (K × V)
  unfolding lookup
  entries [] m = []
  entries (k ∷ ks) m = elim (lookup k m) [ none ↦ entries ks m | some v ↦ (k, v) ∷ entries ks m ]

  -- maps.Copy
  unfoldable pub copy : Map K V → Map K V → Map K V
  unfolding insert
  copy dst [] = dst
  copy dst ((k, v) ∷ src) = copy (insert k v dst) src

  pub get_or-some : (k : K) (d : V) (m : Map K V) {v : V} → lookup k m ≡ some v → get_or k d m ≡ v
  unfolding get_or
  get_or-some k d m h = ground arith

  pub elem-keys-insert :
      (k j : K) (v : V) (m : Map K V) → elem j (keys (insert k v m)) ≡ (k == j || elem j (keys m))
  elem-keys-insert k j v m = ground (
    arith,
    count-keys-insert k j v m,
    e.beq_iff k j,
    elem-count j (keys m),
    count-elem j (keys m),
    elem-count j (keys (insert k v m)),
    count-elem j (keys (insert k v m)),
  )

  -- A copy of a map onto another one covers what that one has.
  lookup-copy_onto :
      (k : K) (dst src : Map K V)
      → HasOneEach src
      → lookup k (copy dst src) ≡ copy_onto (lookup k src) (lookup k dst)
  unfolding copy lookup copy_onto keys count
  lookup-copy_onto k dst [] h = refl
  lookup-copy_onto k dst ((j, v) ∷ src) h = ground (
    arith,
    h k,
    e.beq_iff j k,
    lookup-insert j k v dst,
    elem-keys-lookup k src,
    count-elem k (keys src),
    elem-count k (keys src),
    lookup-copy_onto k (insert j v dst) src (λ i. omega (arith, h i)),
  )

  pub lookup-copy : (k : K) (m : Map K V) → HasOneEach m → lookup k (copy [] m) ≡ lookup k m
  unfolding copy_onto lookup
  lookup-copy k m h = ground (arith, lookup-copy_onto k [] m h)
