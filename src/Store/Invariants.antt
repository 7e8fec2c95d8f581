-- ===== src/Store/Invariants.antt =====
-- What every outcome of an action keeps true of the tables, errors included.
use dragonite.Base.{String, refl, sym, Bool-cases, inl, inr}
use mathlib.Core.Path.{subst}
use dragonite.Domain.{Evento}
use dragonite.Store.{Tables}
use dragonite.Store.Action.{
  Result, ok, err, Db, Action, and_then, ◌>>=◌, write, is_due, later, commit, finish, execute,
  wake_up, queue_outgoing, Undone, Meets, IsPure, IsAtomic, Ensures,
}

pub record Keeps {ℓ} {A : Type ℓ} (I : Tables → Type 0) (m : Action A) : Type 0 where
  pub run : (db : Db) → I db.tables → I (m db).1.tables

module _ (I : Tables → Type 0) where
  pub pure-Keeps {ℓ} : {A : Type ℓ} (m : Action A) → IsPure m → Keeps I m
  pure-Keeps m pure = record { run = λ db i. subst I (sym (pure.run db)) i }

  pub write-Keeps : (f : Tables → Tables) → ((t : Tables) → I t → I (f t)) → Keeps I (write f)
  unfolding write
  write-Keeps f keeps = record {
    run = λ db i. elim (Bool-cases (is_due db.faults)) [
      | inl due ↦ rw due i
      | inr up ↦ rw up (keeps db.tables i)
    ];
  }

  module _ {ℓ κ} {A : Type ℓ} {B : Type κ} where
    pub bind-Keeps :
        (m : Action A) (f : A → Action B)
        → Keeps I m
        → ((a : A) → Keeps I (f a))
        → Keeps I (m >>= f)
    unfolding ◌>>=◌
    bind-Keeps m f first rest = record { run = λ db i. go (m db) (first.run db i) }
      where
        go : (o : Result A × Db) → I o.1.tables → I (and_then o f).1.tables
        go (ok a, db) i = (rest a).run db i
        go (err e, db) i = i

  module _ {ℓ} {A : Type ℓ} where
    finish-keeps :
        (before : Tables) (o : Result A × Db)
        → I before
        → I o.1.tables
        → I (finish before o).1.tables
    unfolding finish commit
    finish-keeps before (ok a, db) i j = elim (Bool-cases (is_due db.faults)) [
      | inl due ↦ rw due i
      | inr up ↦ rw up j
    ]
    finish-keeps before (err e, db) i j = i

    pub execute-Keeps : (body : Action A) → Keeps I body → Keeps I (execute body)
    unfolding execute
    execute-Keeps body keeps = record {
      run = λ db i. elim (Bool-cases (is_due db.faults)) [
        | inl due ↦ rw due i
        | inr up ↦ rw up (
            finish-keeps db.tables (body (record db { faults = later db.faults })) i
              (keeps.run (record db { faults = later db.faults }) i))
      ];
    }

-- A transaction whose success establishes what held keeps it, whatever the outcome.
pub settled-Keeps {ℓ} :
    {A : Type ℓ} (I : Tables → Type 0) (m : Action A)
    → IsAtomic m
    → ((t : Tables) → I t → Ensures ⊥ m (λ a t'. I t') t)
    → Keeps I m
settled-Keeps I m atomic settles = record {
  run = λ db i.
      go db.tables (m db) i (atomic.run db)
        ((settles db.tables i).run db refl (λ never. absurd never));
}
  where
    go :
        {A : Type ℓ} (t : Tables) (o : Result A × Db)
        → I t
        → Undone t o
        → Meets ⊥ (λ a t'. I t') o
        → I o.1.tables
    go t (ok a, db) i u (q, left) = q
    go t (err e, db) i u n = subst I (sym u) i

pub wake_up-IsPure : (user : String) → IsPure (wake_up user)
unfolding wake_up
wake_up-IsPure user = record { run = λ db. refl }

pub queue_outgoing-IsPure : (ev : Evento) → IsPure (queue_outgoing ev)
unfolding queue_outgoing
queue_outgoing-IsPure ev = record { run = λ db. refl }
