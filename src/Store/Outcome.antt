-- ===== src/Store/Outcome.antt =====
-- What an action's outcome is, read off a run.
use dragonite.Base.{◌≡◌, refl, []}
use mathlib.Core.Path.{subst}
use dragonite.Store.{Tables}
use dragonite.Store.Action.{Error, Result, ok, err, Db, Action, Undone, Meets, IsAtomic, Ensures}

module _ {ℓ} {A : Type ℓ} where
  pub undone :
      (m : Action A)
      → IsAtomic m
      → (db db' : Db) (e : Error) → m db ≡ (err e, db')
      → db'.tables ≡ db.tables
  undone m atomic db db' e h = subst (Undone db.tables) h (atomic.run db)

  -- What a run without faults comes to.
  pub attained :
      (m : Action A) (Q : A → Tables → Type 0) (db : Db)
      → Ensures (Unit {0}) m Q db.tables
      → db.faults ≡ []
      → (a : A) × (db' : Db) × (m db ≡ (ok a, db')) × Q a db'.tables
  attained m Q db ensures calm = go (m db) refl (ensures.run db refl (λ u. calm))
    where
      go :
          (o : Result A × Db)
          → m db ≡ o
          → Meets (Unit {0}) Q o
          → (a : A) × (db' : Db) × (m db ≡ (ok a, db')) × Q a db'.tables
      go (ok a, db') h (q, left) = (a, db', h, q)
      go (err e, db') h n = absurd (n tt)

  -- What every run that succeeds comes to.
  pub observed :
      (m : Action A) (Q : A → Tables → Type 0) (a : A) (db db' : Db)
      → Ensures ⊥ m Q db.tables
      → m db ≡ (ok a, db')
      → Q a db'.tables
  observed m Q a db db' ensures h =
      (subst (Meets ⊥ Q) h (ensures.run db refl (λ never. absurd never))).0
