-- ===== src/Store/Rules.antt =====
-- How errors and effects compose: what a chain of actions does to the tables, from what each does.
use dragonite.Base.{
  String, ◌≡◌, ◌∙◌, refl, Bool, true, false, Option, none, some, Bool-cases, Option-cases, inl, inr,
}
use dragonite.Domain.{Evento}
use dragonite.Store.{Tables}
use dragonite.Store.Action.{
  Error, Result, ok, err, Db, Action, and_then, ◌>>=◌, ◌>>◌, return, fail, fail_if, of_option, read,
  read_or, returning, is_due, later, commit, finish, execute, wake_up, queue_outgoing, Undone,
  Unchanged, Succeeds, IsAtomic, IsPure, IsTotal,
}

module _ {ℓ} {A : Type ℓ} where
  pub read-IsPure : (f : Tables → A) → IsPure (read f)
  unfolding read
  read-IsPure f = record {
    run =
        λ db. elim (Bool-cases (is_due db.faults)) [ inl due ↦ rw due refl | inr up ↦ rw up refl ];
  }

  pub of_option-IsPure : (e : Error) (o : Option A) → IsPure (of_option e o)
  unfolding of_option
  of_option-IsPure e none = record { run = λ db. refl }
  of_option-IsPure e (some a) = record { run = λ db. refl }

  pub IsPure-IsAtomic : (m : Action A) → IsPure m → IsAtomic m
  IsPure-IsAtomic m pure = record { run = λ db. go db (m db) (pure.run db) }
    where
      go : (db : Db) (o : Result A × Db) → Unchanged db.tables o → Undone db.tables o
      go db (ok a, db') h = tt
      go db (err e, db') h = h

pub read_or-IsPure {ℓ} : {A : Type ℓ} (d : A) (f : Tables → A) → IsPure (read_or d f)
unfolding read_or
read_or-IsPure d f = record {
  run = λ db. elim (Bool-cases (is_due db.faults)) [ inl due ↦ rw due refl | inr up ↦ rw up refl ];
}

pub wake_up-IsTotal : (user : String) → IsTotal (wake_up user)
unfolding wake_up
wake_up-IsTotal user = record { run = λ db. tt }

pub queue_outgoing-IsTotal : (ev : Evento) → IsTotal (queue_outgoing ev)
unfolding queue_outgoing
queue_outgoing-IsTotal ev = record { run = λ db. tt }

pub fail_if-IsPure : (b : Bool) (e : Error) → IsPure (fail_if b e)
unfolding fail_if
fail_if-IsPure true e = record { run = λ db. refl }
fail_if-IsPure false e = record { run = λ db. refl }

pub return-IsPure {ℓ} : {A : Type ℓ} (a : A) → IsPure (return a)
unfolding return
return-IsPure a = record { run = λ db. refl }

module _ {κ} {B : Type κ} where
  moved : (t t' : Tables) (o : Result B × Db) → t' ≡ t → Undone t' o → Undone t o
  moved t t' (ok a, db) e u = tt
  moved t t' (err x, db) e u = u ∙ e

  Succeeds-Undone : (t : Tables) (o : Result B × Db) → Succeeds o → Undone t o
  Succeeds-Undone t (ok a, db) s = tt
  Succeeds-Undone t (err e, db) s = absurd s

module _ {ℓ κ} {A : Type ℓ} {B : Type κ} where
  chain_pure :
      (f : A → Action B)
      → ((a : A) → IsPure (f a))
      → (t : Tables) (o : Result A × Db) → Unchanged t o
      → Unchanged t (and_then o f)
  chain_pure f rest t (ok a, db) h = (rest a).run db ∙ h
  chain_pure f rest t (err e, db) h = h

  -- After an action that leaves the tables alone, what holds of the rest holds of the whole.
  pub bind-IsPure :
      (m : Action A) (f : A → Action B) → IsPure m → ((a : A) → IsPure (f a)) → IsPure (m >>= f)
  unfolding ◌>>=◌
  bind-IsPure m f pure rest = record {
    run = λ db. chain_pure f rest db.tables (m db) (pure.run db);
  }

  chain_atomic :
      (f : A → Action B)
      → ((a : A) → IsAtomic (f a))
      → (t : Tables) (o : Result A × Db) → Unchanged t o
      → Undone t (and_then o f)
  chain_atomic f rest t (ok a, db) h = moved t db.tables (f a db) h ((rest a).run db)
  chain_atomic f rest t (err e, db) h = h

  pub bind-IsAtomic :
      (m : Action A) (f : A → Action B) → IsPure m → ((a : A) → IsAtomic (f a)) → IsAtomic (m >>= f)
  unfolding ◌>>=◌
  bind-IsAtomic m f pure rest = record {
    run = λ db. chain_atomic f rest db.tables (m db) (pure.run db);
  }

  chain_total :
      (f : A → Action B)
      → ((a : A) → IsTotal (f a))
      → (t : Tables) (o : Result A × Db) → Undone t o
      → Undone t (and_then o f)
  chain_total f total t (ok a, db) h = Succeeds-Undone t (f a db) ((total a).run db)
  chain_total f total t (err e, db) h = h

  -- An atomic action may be followed by one that cannot fail.
  pub then_total-IsAtomic :
      (m : Action A) (f : A → Action B)
      → IsAtomic m
      → ((a : A) → IsTotal (f a))
      → IsAtomic (m >>= f)
  unfolding ◌>>=◌
  then_total-IsAtomic m f atomic total = record {
    run = λ db. chain_total f total db.tables (m db) (atomic.run db);
  }

pub then-IsTotal {κ} :
    {B : Type κ} (m : Action (Unit {0})) (k : Action B) → IsTotal m → IsTotal k → IsTotal (m >> k)
unfolding ◌>>=◌
then-IsTotal m k first second = record { run = λ db. go k second (m db) (first.run db) }
  where
    go :
        {B : Type κ} (k : Action B)
        → IsTotal k
        → (o : Result (Unit {0}) × Db) → Succeeds o
        → Succeeds (and_then o (λ u. k))
    go k second (ok a, db) s = second.run db
    go k second (err e, db) s = s

module _ {ℓ} {A : Type ℓ} where
  commit-Undone : (t : Tables) (a : A) (db : Db) → Undone t (commit t a db)
  unfolding commit
  commit-Undone t a db = elim (Bool-cases (is_due db.faults)) [
    | inl due ↦ rw due refl
    | inr up ↦ rw up tt
  ]

  finish-Undone : (t : Tables) (o : Result A × Db) → Undone t (finish t o)
  unfolding finish
  finish-Undone t (ok a, db) = commit-Undone t a db
  finish-Undone t (err e, db) = refl

  -- A transaction that fails has changed nothing, whatever its body does.
  pub execute-IsAtomic : (body : Action A) → IsAtomic (execute body)
  unfolding execute
  execute-IsAtomic body = record {
    run = λ db. elim (Bool-cases (is_due db.faults)) [
      | inl due ↦ rw due refl
      | inr up ↦ rw up (finish-Undone db.tables (body (record db { faults = later db.faults })))
    ];
  }

pub return-IsTotal {ℓ} : {A : Type ℓ} (a : A) → IsTotal (return a)
unfolding return
return-IsTotal a = record { run = λ db. tt }

pub returning-IsAtomic {ℓ} :
    {A : Type ℓ} (g : Tables → Option A) (f : Tables → Tables) → IsAtomic (returning g f)
unfolding returning
returning-IsAtomic g f = record {
  run = λ db. elim (Bool-cases (is_due db.faults)) [
    | inl due ↦ rw due refl
    | inr up ↦ elim (Option-cases (g db.tables)) [
      | inl missing ↦ rw (up, missing) refl
      | inr (a, found) ↦ rw (up, found) tt
    ]
  ];
}

pub fail-IsPure {ℓ} : {A : Type ℓ} (e : Error) → IsPure (fail {A = A} e)
unfolding fail
fail-IsPure e = record { run = λ db. refl }
