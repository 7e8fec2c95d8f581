-- ===== src/Store/Action.antt =====
-- Actions on the database: a statement that reads or writes, a transaction
-- (internal/infrastructure/postgres/workeunit.go), an error. An Action is Atomic if its error leaves
-- the tables as they were.
use dragonite.Base.{
  String, ◌≡◌, Bool, false, Option, none, some, List, [], ◌∷◌, ◌++◌, if◌then◌else◌,
}
use dragonite.Base.Int.{ℤ}
use dragonite.Domain.{Evento}
use dragonite.Store.{Tables}

-- The errors that callers tell apart: types.ErrForbidden, ErrNotFound and the like; a failed
-- statement; another failed step.
pub data Error : Type 0 where
  db_failure forbidden not_found bad_state hash_failure remote_failure bad_content : Error
  invalid_param already_in_use : Error
  -- usecase.ErrWrongVersion, with the current version
  wrong_version : ℤ → Error

pub data Result {ℓ} (A : Type ℓ) : Type ℓ where
  ok : A → Result A
  err : Error → Result A

pub record Db : Type 0 where
  pub tables : Tables
  pub faults : List Bool
  pub woken : List String
  pub outgoing : List Evento

abbrev pub Action {ℓ} : Type ℓ → Type ℓ
Action A = Db → Result A × Db

abbrev pub and_then {ℓ κ} :
    {A : Type ℓ} {B : Type κ} → Result A × Db → (A → Action B) → Result B × Db
and_then (ok a, db) f = f a db
and_then (err e, db) f = (err e, db)

infixl 10 ◌>>=◌ ◌>>◌
unfoldable pub ◌>>=◌ {ℓ κ} : {A : Type ℓ} {B : Type κ} → Action A → (A → Action B) → Action B
(m >>= f) db = and_then (m db) f

abbrev pub ◌>>◌ {κ} : {B : Type κ} → Action (Unit {0}) → Action B → Action B
m >> k = m >>= λ _. k

unfoldable pub return {ℓ} : {A : Type ℓ} → A → Action A
return a db = (ok a, db)

unfoldable pub fail {ℓ} : {A : Type ℓ} → Error → Action A
fail e db = (err e, db)

unfoldable pub fail_if : Bool → Error → Action (Unit {0})
unfolding fail return
fail_if b e = if b then fail e else return tt

unfoldable pub of_option {ℓ} : {A : Type ℓ} → Error → Option A → Action A
unfolding fail return
of_option e none = fail e
of_option e (some a) = return a

abbrev pub is_due : List Bool → Bool
is_due [] = false
is_due (b ∷ bs) = b

abbrev pub later : List Bool → List Bool
later [] = []
later (b ∷ bs) = bs

-- A statement that reads.
unfoldable pub read {ℓ} : {A : Type ℓ} → (Tables → A) → Action A
read f db =
    if is_due db.faults
    then (err db_failure, record db { faults = later db.faults })
    else (ok (f db.tables), record db { faults = later db.faults })

-- A statement that writes.
unfoldable pub write : (Tables → Tables) → Action (Unit {0})
write f db =
    if is_due db.faults
    then (err db_failure, record db { faults = later db.faults })
    else (ok tt, record db { faults = later db.faults; tables = f db.tables })

-- A statement that writes and returns (RETURNING); without a row it fails.
unfoldable pub returning {ℓ} : {A : Type ℓ} → (Tables → Option A) → (Tables → Tables) → Action A
returning g f db =
    if is_due db.faults
    then (err db_failure, record db { faults = later db.faults })
    else elim (g db.tables) [
      | none ↦ (err db_failure, record db { faults = later db.faults })
      | some a ↦ (ok a, record db { faults = later db.faults; tables = f db.tables })
    ]

-- A statement whose error the caller drops, with what it reads then.
unfoldable pub read_or {ℓ} : {A : Type ℓ} → A → (Tables → A) → Action A
read_or d f db =
    if is_due db.faults
    then (ok d, record db { faults = later db.faults })
    else (ok (f db.tables), record db { faults = later db.faults })

module _ {ℓ} {A : Type ℓ} where
  -- `Commit`: a failed one leaves the tables as they were when the transaction began.
  unfoldable pub commit : Tables → A → Db → Result A × Db
  commit before a db =
      if is_due db.faults
      then (err db_failure, record db { faults = later db.faults; tables = before })
      else (ok a, record db { faults = later db.faults })

  unfoldable pub finish : Tables → Result A × Db → Result A × Db
  unfolding commit
  finish before (ok a, db) = commit before a db
  finish before (err e, db) = (err e, record db { tables = before })

  -- `Execute`: begin, the body, commit; a body that fails is rolled back. What the body assigns to
  -- the variables around it is its result.
  unfoldable pub execute : Action A → Action A
  unfolding finish
  execute body db =
      if is_due db.faults
      then (err db_failure, record db { faults = later db.faults })
      else finish db.tables (body (record db { faults = later db.faults }))

-- A call whose error is logged and dropped.
unfoldable pub attempt {ℓ} : {A : Type ℓ} → Action A → Action (Option A)
attempt {A = A} m db = dropped (m db)
  where
    dropped : Result A × Db → Result (Option A) × Db
    dropped (ok a, db') = (ok (some a), db')
    dropped (err e, db') = (ok none, db')

-- notifier.WakeUpUsers and fedService.QueueOutgoing, whose error the callers drop
unfoldable pub wake_up : String → Action (Unit {0})
wake_up user db = (ok tt, record db { woken = db.woken ++ user ∷ [] })

unfoldable pub queue_outgoing : Evento → Action (Unit {0})
queue_outgoing ev db = (ok tt, record db { outgoing = db.outgoing ++ ev ∷ [] })

-- What an outcome says of the tables it started from.
abbrev pub Undone {ℓ} : {A : Type ℓ} → Tables → Result A × Db → Type 0
Undone before (ok a, db) = Unit
Undone before (err e, db) = db.tables ≡ before

abbrev pub Unchanged {ℓ} : {A : Type ℓ} → Tables → Result A × Db → Type 0
Unchanged before (r, db) = db.tables ≡ before

abbrev pub Succeeds {ℓ} : {A : Type ℓ} → Result A × Db → Type 0
Succeeds (ok a, db) = Unit
Succeeds (err e, db) = ⊥

pub record IsAtomic {ℓ} {A : Type ℓ} (m : Action A) : Type 0 where
  pub run : (db : Db) → Undone db.tables (m db)

pub record IsPure {ℓ} {A : Type ℓ} (m : Action A) : Type 0 where
  pub run : (db : Db) → Unchanged db.tables (m db)

pub record IsTotal {ℓ} {A : Type ℓ} (m : Action A) : Type 0 where
  pub run : (db : Db) → Succeeds (m db)

-- A success meets Q, which sees the result and the tables; if F holds (no statement fails, say)
-- there is no error and no fault is left.
abbrev pub Meets {ℓ} : {A : Type ℓ} → Type 0 → (A → Tables → Type 0) → Result A × Db → Type 0
Meets F Q (ok a, db) = Q a db.tables × (F → db.faults ≡ [])
Meets F Q (err e, db) = F → ⊥

-- From these tables the action meets Q. With F = ⊥ this speaks of the runs that succeed, whatever
-- fails; with F = Unit it says that without database failures the action succeeds.
pub record Ensures {ℓ} {A : Type ℓ} (F : Type 0) (m : Action A) (Q : A → Tables → Type 0)
    (t : Tables) : Type 0 where
  pub run : (db : Db) → db.tables ≡ t → (F → db.faults ≡ []) → Meets F Q (m db)
