-- ===== src/DeviceKeys/Claims.antt =====
-- One-time keys that are added and claimed, again and again, and the fallback key.
use dragonite.Base.{
  String, ◌≡◌, refl, sym, ◌∙◌, ap, false, ◌&&◌, Option, some, List, [], ◌++◌, arith, ◌==◌,
  string_eq,
}
use mathlib.Core.Path.{subst}
use dragonite.Base.Paging.{keep, append_assoc}
use dragonite.Domain.Keys.{ChaveUsoUnico, fallback_id_eq}
use dragonite.Store.{Tables}
use dragonite.Store.Action.{Error, ok, err, Db}
use dragonite.Store.Rules.{returning-IsAtomic}
use dragonite.Store.Triples.{returning-Ensures}
use dragonite.Store.Invariants.{Keeps, settled-Keeps}
use dragonite.Store.Outcome.{observed, undone}
use dragonite.DeviceKeys.{add_one_time_key, is_for, oldest, without, claim_one_time_key}
use dragonite.DeviceKeys.Queue.{
  queue, IsNumbered, row_added, queue-add, add-IsNumbered, without-IsNumbered, taken_of,
  queue-claim, queue-claim_other,
}

pub record State : Type 0 where
  pub tables : Tables
  pub claimed : List ChaveUsoUnico
  pub added : List ChaveUsoUnico

pub data Step (device algorithm : String) : State → State → Type 0 where
  -- Any device uploads a key.
  adds :
      (s : State) (owner : String) (k : ChaveUsoUnico)
      → Step device algorithm s (record s {
        tables = add_one_time_key owner k s.tables;
        added = s.added ++ keep (is_for device algorithm) (row_added owner k s.tables);
      })
  -- A key of this device and algorithm is claimed.
  claims :
      (s : State) (db db' : Db) (got : Option ChaveUsoUnico)
      → db.tables ≡ s.tables
      → claim_one_time_key device algorithm db ≡ (ok got, db')
      → Step device algorithm s
          (record s { tables = db'.tables; claimed = s.claimed ++ taken_of got })
  -- The claim fails.
  fails :
      (s : State) (db db' : Db) (e : Error)
      → db.tables ≡ s.tables
      → claim_one_time_key device algorithm db ≡ (err e, db')
      → Step device algorithm s (record s { tables = db'.tables })
  -- A key of another device or algorithm is claimed, or that fails.
  elsewhere :
      (s : State) (db : Db) (owner other : String)
      → db.tables ≡ s.tables
      → (owner == device && other == algorithm) ≡ false
      → Step device algorithm s (record s { tables = (claim_one_time_key owner other db).1.tables })

pub data Steps (device algorithm : String) : State → State → Type 0 where
  stop : (s : State) → Steps device algorithm s s
  step :
      (s t u : State)
      → Step device algorithm s t
      → Steps device algorithm t u
      → Steps device algorithm s u

abbrev pub IsFair : String → String → State → Type 0
IsFair device algorithm s =
    IsNumbered s.tables × (s.claimed ++ queue device algorithm s.tables ≡ s.added)

claim-facts :
    (device algorithm : String) (got : Option ChaveUsoUnico) (db db' : Db)
    → claim_one_time_key device algorithm db ≡ (ok got, db')
    → (got ≡ oldest device algorithm db.tables)
      × (db'.tables ≡ without (oldest device algorithm db.tables) db.tables)
unfolding claim_one_time_key
claim-facts device algorithm got db db' ran =
    observed (claim_one_time_key device algorithm)
      (λ a t.
        (a ≡ oldest device algorithm db.tables)
        × (t ≡ without (oldest device algorithm db.tables) db.tables))
      got db db'
      (returning-Ensures ⊥ (λ t. some (oldest device algorithm t))
        (λ t. without (oldest device algorithm t) t) _ db.tables (λ missing n. n)
        (λ a made. (ground (arith, made), refl)))
      ran

elsewhere-Keeps :
    (device algorithm owner other : String) (before : Tables)
    → (owner == device && other == algorithm) ≡ false
    → Keeps
        (λ t. IsNumbered t × (queue device algorithm t ≡ queue device algorithm before))
        (claim_one_time_key owner other)
unfolding claim_one_time_key
elsewhere-Keeps device algorithm owner other before differ =
    settled-Keeps (λ t. IsNumbered t × (queue device algorithm t ≡ queue device algorithm before))
      (claim_one_time_key owner other)
      (returning-IsAtomic (λ t. some (oldest owner other t))
        (λ t. without (oldest owner other t) t))
      (λ t (numbered, same).
        returning-Ensures ⊥ (λ t. some (oldest owner other t))
          (λ t. without (oldest owner other t) t) _ t (λ missing n. n)
          (λ a made. (
            without-IsNumbered (oldest owner other t) t numbered,
            queue-claim_other device algorithm owner other t differ numbered ∙ same,
          )))

Step-IsFair :
    (device algorithm : String) {s t : State}
    → Step device algorithm s t
    → IsFair device algorithm s
    → IsFair device algorithm t
unfolding claim_one_time_key
Step-IsFair device algorithm (adds s owner k) (numbered, whole) = (
  add-IsNumbered owner k s.tables numbered,
  rw (queue-add device algorithm owner k s.tables) (
      sym (
        append_assoc s.claimed (queue device algorithm s.tables)
          (keep (is_for device algorithm) (row_added owner k s.tables)))
      ∙ ap (λ l. l ++ keep (is_for device algorithm) (row_added owner k s.tables)) whole),
)
Step-IsFair device algorithm (claims s db db' got same ran) (numbered, whole) =
    let (first, left) = claim-facts device algorithm got db db' ran in
    let left' : db'.tables ≡ without (oldest device algorithm s.tables) s.tables =
      subst (λ t. db'.tables ≡ without (oldest device algorithm t) t) same left in
    let first' : got ≡ oldest device algorithm s.tables =
      subst (λ t. got ≡ oldest device algorithm t) same first in
    (
      subst IsNumbered (sym left')
          (without-IsNumbered (oldest device algorithm s.tables) s.tables numbered),
      append_assoc s.claimed (taken_of got) (queue device algorithm db'.tables)
          ∙ subst (λ q. s.claimed ++ (taken_of q.0 ++ queue device algorithm q.1) ≡ s.added)
              (pair (sym first') (sym left'))
              (ap (λ l. s.claimed ++ l) (queue-claim device algorithm s.tables numbered) ∙ whole),
    )
  where
    pair :
        {a b : Option ChaveUsoUnico} {t u : Tables}
        → a ≡ b
        → t ≡ u
        → Path (Option ChaveUsoUnico × Tables) (a, t) (b, u)
    pair e h = cc (e, h)
Step-IsFair device algorithm (fails s db db' e same ran) fair =
    subst (λ t. IsFair device algorithm (record s { tables = t }))
      (sym (
        undone (claim_one_time_key device algorithm)
          (returning-IsAtomic (λ t. some (oldest device algorithm t))
            (λ t. without (oldest device algorithm t) t))
          db db' e ran
        ∙ same))
      fair
Step-IsFair device algorithm (elsewhere s db owner other same differ) (numbered, whole) =
    let (numbered', kept) = (elsewhere-Keeps device algorithm owner other s.tables differ).run db (
      subst (λ t. IsNumbered t × (queue device algorithm t ≡ queue device algorithm s.tables))
        (sym same) (numbered, refl)) in
    (numbered', ap (λ l. s.claimed ++ l) kept ∙ whole)

Steps-IsFair :
    (device algorithm : String) {s t : State}
    → Steps device algorithm s t
    → IsFair device algorithm s
    → IsFair device algorithm t
Steps-IsFair device algorithm (stop s) fair = fair
Steps-IsFair device algorithm (step s t u first rest) fair =
    Steps-IsFair device algorithm rest (Step-IsFair device algorithm first fair)

abbrev pub fresh : String → String → Tables → State
fresh device algorithm t = record { tables = t; claimed = []; added = queue device algorithm t }

-- Each one-time key that is stored is handed out at most once, and the keys of a device for an
-- algorithm are handed out in the order in which they were stored. In every run that starts with
-- numbered keys, whatever keys are uploaded and claimed and whatever claims fail, the keys that
-- were handed out, followed by those that are stored, are those that were stored at first or added.
pub steps-claimed_once :
    (device algorithm : String) (t : Tables) (s : State)
    → IsNumbered t
    → Steps device algorithm (fresh device algorithm t) s
    → s.claimed ++ queue device algorithm s.tables ≡ s.added
steps-claimed_once device algorithm t s numbered steps =
    (Steps-IsFair device algorithm steps (numbered, refl)).1
