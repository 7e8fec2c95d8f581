-- ===== src/DeviceKeys/Handing.antt =====
-- What a claim hands out (ClaimKeys of internal/usecase/keys_service.go).
use dragonite.Base.{
  String, ◌≡◌, refl, sym, ◌∙◌, arith, false, true, ◌==◌, ◌++◌, Option, none, some, List, [], ◌∷◌,
  string_eq,
}
use dragonite.Base.Map.{lookup, lookup-insert}
use dragonite.DeviceKeys.Queue.{queue, IsNumbered, queue-claim, taken_of, oldest-queue}
use mathlib.Core.Path.{subst}
use dragonite.Domain.Keys.{
  FallbackId, fallback_id_beq_iff, ChaveUsoUnico, ChaveFallback, fallback_id_eq,
}
use dragonite.Store.{Tables}
use dragonite.Store.Action.{ok, Db, attempt, Ensures}
use dragonite.Store.Triples.{returning-Ensures, return-Ensures, bind-Ensures, attempt-Ensures}
use dragonite.Store.Outcome.{attained}
use dragonite.DeviceKeys.{
  first_of, oldest, without, claim_one_time_key, fallback_of, used, claim_fallback_key,
}
use dragonite.DeviceKeys.Claim.{fallback_claimed, claim_or_fall_back, claim_for, Claimed}

-- What a claim hands out: the oldest one-time key, or else the fallback key, if there is one.
unfoldable handed : Option ChaveUsoUnico → Option ChaveFallback → Option Claimed
handed (some k) fallback = some (record { key_id = k.key_id; key_data = k.key_data })
handed none (some k) = some (record { key_id = k.key_id; key_data = k.key_data })
handed none none = none

-- What it leaves: the one-time key is gone, or else the fallback key is marked as used.
unfoldable left_after : String → String → Option ChaveUsoUnico → Tables → Tables
unfolding without used fallback_of
left_after device algorithm (some k) t = without (some k) t
left_after device algorithm none t = used device algorithm (fallback_of device algorithm t) t

claim_or_fall_back-Ensures :
    (device algorithm : String) (o : Option ChaveUsoUnico) (t : Tables)
    → Ensures
        (Unit {0})
        (claim_or_fall_back device algorithm (some o))
        (λ got t'.
          (got ≡ handed o (fallback_of device algorithm t))
          × (t' ≡ left_after device algorithm o t))
        (without o t)
unfolding claim_or_fall_back handed left_after without claim_fallback_key fallback_claimed
claim_or_fall_back-Ensures device algorithm (some k) t =
    return-Ensures (Unit {0}) (some (record { key_id = k.key_id; key_data = k.key_data })) _
      (without (some k) t) (refl, refl)
claim_or_fall_back-Ensures device algorithm none t =
    bind-Ensures (Unit {0}) (attempt (claim_fallback_key device algorithm)) _ _ t (
      attempt-Ensures (Unit {0}) (claim_fallback_key device algorithm) _ t tt (
        returning-Ensures (Unit {0}) (λ t. some (fallback_of device algorithm t))
          (λ t. used device algorithm (fallback_of device algorithm t) t) _ t
          (λ missing u. absurd cc)
          (λ got made. return-Ensures (Unit {0}) (fallback_claimed (some got)) _ _ (
            subst (λ o. fallback_claimed (some o) ≡ handed none (fallback_of device algorithm t))
                (some_injective made) (same (fallback_of device algorithm t)),
            refl,
          ))))
  where
    some_injective :
        {a b : Option ChaveFallback}
        → Path (Option (Option ChaveFallback)) (some a) (some b)
        → a ≡ b
    some_injective e = cc e

    same : (o : Option ChaveFallback) → fallback_claimed (some o) ≡ handed none o
    same none = refl
    same (some k) = refl

-- A claim in which no statement fails, in the terms of its statements.
claim_for_exact :
    (device algorithm : String) (db : Db)
    → db.faults ≡ []
    → (got : Option Claimed) × (db' : Db) × (claim_for device algorithm db ≡ (ok got, db'))
      × (got ≡ handed (oldest device algorithm db.tables) (fallback_of device algorithm db.tables))
      × (db'.tables ≡ left_after device algorithm (oldest device algorithm db.tables) db.tables)
unfolding claim_for claim_one_time_key
claim_for_exact device algorithm db calm =
    let (got, db', ran, (same, left)) =
      attained (claim_for device algorithm)
        (λ got t'.
          (got
            ≡ handed (oldest device algorithm db.tables) (fallback_of device algorithm db.tables))
          × (t' ≡ left_after device algorithm (oldest device algorithm db.tables) db.tables))
        db
        (bind-Ensures (Unit {0}) (attempt (claim_one_time_key device algorithm)) _ _ db.tables (
          attempt-Ensures (Unit {0}) (claim_one_time_key device algorithm) _ db.tables tt (
            returning-Ensures (Unit {0}) (λ t. some (oldest device algorithm t))
              (λ t. without (oldest device algorithm t) t) _ db.tables (λ missing u. absurd cc)
              (λ got made.
                subst
                  (λ o.
                    Ensures (Unit {0}) (claim_or_fall_back device algorithm (some o))
                      (λ got t'.
                        (got
                          ≡ handed (oldest device algorithm db.tables)
                              (fallback_of device algorithm db.tables))
                        × (t'
                            ≡ left_after device algorithm (oldest device algorithm db.tables)
                                db.tables))
                      (without (oldest device algorithm db.tables) db.tables))
                  (injective made)
                  (claim_or_fall_back-Ensures device algorithm (oldest device algorithm db.tables)
                    db.tables)))))
        calm in
    (got, db', ran, same, left)
  where
    injective :
        {a b : Option ChaveUsoUnico}
        → Path (Option (Option ChaveUsoUnico)) (some a) (some b)
        → a ≡ b
    injective e = cc e

abbrev handout : String → String → Claimed
handout id text = record { key_id = id; key_data = text }

abbrev fallback_id : String → String → FallbackId
fallback_id device algorithm = record { dispositivo = device; algorithm = algorithm }

-- What a claim hands out and leaves: the first one-time key in the queue, which leaves it; or, when
-- the queue is empty, the fallback key, which is marked as used; or, without one, nothing.
pub data Hands (device algorithm : String) (before : Tables) (got : Option Claimed) (after : Tables)
    : Type 0 where
  one_time :
      (k : ChaveUsoUnico) (rest : List ChaveUsoUnico)
      → queue device algorithm before ≡ k ∷ rest
      → got ≡ some (handout k.key_id k.key_data)
      → queue device algorithm after ≡ rest
      → after.chaves_fallback ≡ before.chaves_fallback
      → Hands device algorithm before got after
  fallback :
      (k : ChaveFallback)
      → queue device algorithm before ≡ []
      → lookup (fallback_id device algorithm) before.chaves_fallback ≡ some k
      → got ≡ some (handout k.key_id k.key_data)
      → lookup (fallback_id device algorithm) after.chaves_fallback
        ≡ some (record k { usada = true })
      → ((other : FallbackId)
          → (fallback_id device algorithm == other) ≡ false
          → lookup other after.chaves_fallback ≡ lookup other before.chaves_fallback)
      → after.chaves_uso_unico ≡ before.chaves_uso_unico
      → Hands device algorithm before got after
  nothing :
      queue device algorithm before ≡ []
      → lookup (fallback_id device algorithm) before.chaves_fallback ≡ none
      → got ≡ none
      → after ≡ before
      → Hands device algorithm before got after

used-Hands :
    (device algorithm : String) (t : Tables) (o : Option ChaveFallback)
    → queue device algorithm t ≡ []
    → lookup (fallback_id device algorithm) t.chaves_fallback ≡ o
    → Hands device algorithm t (handed none o) (used device algorithm o t)
unfolding handed used
used-Hands device algorithm t none empty found = nothing empty found refl refl
used-Hands device algorithm t (some k) empty found =
    fallback k empty found refl
      (ground (
        arith,
        lookup-insert at at (record k { usada = true }) t.chaves_fallback,
        fallback_id_beq_iff at at,
      ))
      (λ other differs.
        ground
          (arith, differs, lookup-insert at other (record k { usada = true }) t.chaves_fallback))
      refl
  where
    at : FallbackId
    at = fallback_id device algorithm

oldest-Hands :
    (device algorithm : String) (t : Tables)
    → IsNumbered t
    → Hands device algorithm t
        (handed (oldest device algorithm t) (fallback_of device algorithm t))
        (left_after device algorithm (oldest device algorithm t) t)
unfolding handed left_after fallback_of without first_of
oldest-Hands device algorithm t numbered = go (oldest device algorithm t) refl
  where
    emptied :
        (ks : List ChaveUsoUnico) → queue device algorithm t ≡ ks → first_of ks ≡ none → ks ≡ []
    emptied [] e h = refl
    emptied (k ∷ ks) e h = absurd cc

    go :
        (o : Option ChaveUsoUnico)
        → oldest device algorithm t ≡ o
        → Hands device algorithm t
            (handed o (fallback_of device algorithm t))
            (left_after device algorithm o t)
    go none missing =
        used-Hands device algorithm t (fallback_of device algorithm t)
          (emptied (queue device algorithm t) refl
            (sym (oldest-queue device algorithm t numbered) ∙ missing))
          refl
    go (some k) found =
        one_time k (queue device algorithm (without (some k) t))
          (sym (
            subst
              (λ o. taken_of o ++ queue device algorithm (without o t) ≡ queue device algorithm t)
              found (queue-claim device algorithm t numbered)))
          refl refl refl

-- Where no statement fails and the one-time keys stand in the order of their ids, a claim succeeds.
-- It hands out the first one-time key in the queue of the device and the algorithm, and takes it
-- from the queue; if the queue is empty, it hands out the fallback key and marks it, and no other,
-- as used; if there is none either, it hands out nothing and changes nothing.
pub claim_for-Hands :
    (device algorithm : String) (db : Db)
    → db.faults ≡ []
    → IsNumbered db.tables
    → (got : Option Claimed) × (db' : Db) × (claim_for device algorithm db ≡ (ok got, db'))
      × Hands device algorithm db.tables got db'.tables
claim_for-Hands device algorithm db calm numbered =
    let (got, db', ran, same, left) = claim_for_exact device algorithm db calm in
    (
      got,
      db',
      ran,
      subst (λ g. Hands device algorithm db.tables g db'.tables) (sym same)
          (subst (Hands device algorithm db.tables _) (sym left)
            (oldest-Hands device algorithm db.tables numbered)),
    )
