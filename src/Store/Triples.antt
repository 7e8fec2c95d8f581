-- ===== src/Store/Triples.antt =====
-- What holds after an action, built up from its statements.
use dragonite.Base.{
  String, ◌≡◌, refl, sym, Bool, true, false, Option, none, some, [], arith, Bool-cases,
  Option-cases, inl, inr, ap, ◌∙◌,
}
use mathlib.Core.Path.{subst}
use dragonite.Domain.{Evento}
use dragonite.Store.{Tables}
use dragonite.Store.Action.{
  Error, Result, ok, err, Db, Action, and_then, ◌>>=◌, return, fail, fail_if, of_option, read,
  read_or, returning, attempt, write, is_due, later, commit, finish, execute, wake_up,
  queue_outgoing, Meets, Ensures,
}

-- Without faults none is due.
up : (F : Type 0) (db : Db) → (F → db.faults ≡ []) → is_due db.faults ≡ true → F → ⊥
up F db h due f = ground (arith, h f, due)

still : (F : Type 0) (db : Db) → (F → db.faults ≡ []) → F → later db.faults ≡ []
still F db h f = ground (arith, h f)

module _ (F : Type 0) where
  module _ {ℓ} {A : Type ℓ} where
    pub read-Ensures :
        (f : Tables → A) (Q : A → Tables → Type 0) (t : Tables) → Q (f t) t → Ensures F (read f) Q t
    unfolding read
    read-Ensures f Q t q = record {
      run = λ db e h. elim (Bool-cases (is_due db.faults)) [
        | inl due ↦ rw due (up F db h due)
        | inr n ↦ rw n (subst (λ u. Q (f u) u) (sym e) q, still F db h)
      ];
    }

    pub returning-Ensures :
        (g : Tables → Option A) (f : Tables → Tables) (Q : A → Tables → Type 0) (t : Tables)
        → (g t ≡ none → F → ⊥)
        → ((a : A) → g t ≡ some a → Q a (f t))
        → Ensures F (returning g f) Q t
    unfolding returning
    returning-Ensures g f Q t n q = record {
      run = λ db e h. elim (Bool-cases (is_due db.faults)) [
        | inl due ↦ rw due (up F db h due)
        | inr calm ↦ elim (Option-cases (g db.tables)) [
          | inl missing ↦ rw (calm, missing) (n (ap g (sym e) ∙ missing))
          | inr (a, found) ↦
              rw (calm, found)
                (subst (λ u. Q a (f u)) (sym e) (q a (ap g (sym e) ∙ found)), still F db h)
        ]
      ];
    }

    pub of_option-Ensures :
        (x : Error) (o : Option A) (Q : A → Tables → Type 0) (t : Tables)
        → (o ≡ none → F → ⊥)
        → ((a : A) → o ≡ some a → Q a t)
        → Ensures F (of_option x o) Q t
    unfolding of_option
    of_option-Ensures x none Q t n q = record { run = λ db e h. n refl }
    of_option-Ensures x (some a) Q t n q = record {
      run = λ db e h. (subst (Q a) (sym e) (q a refl), h);
    }

    pub return-Ensures :
        (a : A) (Q : A → Tables → Type 0) (t : Tables) → Q a t → Ensures F (return a) Q t
    unfolding return
    return-Ensures a Q t q = record { run = λ db e h. (subst (Q a) (sym e) q, h) }

    pub fail-Ensures :
        (x : Error) (Q : A → Tables → Type 0) (t : Tables) → (F → ⊥) → Ensures F (fail x) Q t
    unfolding fail
    fail-Ensures x Q t n = record { run = λ db e h. n }

  pub fail_if-Ensures :
      (b : Bool) (x : Error) (Q : Unit {0} → Tables → Type 0) (t : Tables)
      → (b ≡ true → F → ⊥)
      → (b ≡ false → Q tt t)
      → Ensures F (fail_if b x) Q t
  unfolding fail_if
  fail_if-Ensures true x Q t n q = record { run = λ db e h. n refl }
  fail_if-Ensures false x Q t n q = record { run = λ db e h. (subst (Q tt) (sym e) (q refl), h) }

  pub write-Ensures :
      (f : Tables → Tables) (Q : Unit {0} → Tables → Type 0) (t : Tables)
      → Q tt (f t)
      → Ensures F (write f) Q t
  unfolding write
  write-Ensures f Q t q = record {
    run = λ db e h. elim (Bool-cases (is_due db.faults)) [
      | inl due ↦ rw due (up F db h due)
      | inr n ↦ rw n (subst (λ u. Q tt (f u)) (sym e) q, still F db h)
    ];
  }

  module _ {ℓ κ} {A : Type ℓ} {B : Type κ} where
    pub bind-Ensures :
        (m : Action A) (f : A → Action B) (Q : B → Tables → Type 0) (t : Tables)
        → Ensures F m (λ a u. Ensures F (f a) Q u) t
        → Ensures F (m >>= f) Q t
    unfolding ◌>>=◌
    bind-Ensures m f Q t both = record { run = λ db e h. go (m db) (both.run db e h) }
      where
        go : (o : Result A × Db) → Meets F (λ a u. Ensures F (f a) Q u) o → Meets F Q (and_then o f)
        go (ok a, db') (q, left) = q.run db' refl left
        go (err x, db') n = n

  module _ {ℓ} {A : Type ℓ} where
    pub read_or-Ensures :
        (d : A) (f : Tables → A) (Q : A → Tables → Type 0) (t : Tables)
        → Q (f t) t
        → ((F → ⊥) → Q d t)
        → Ensures F (read_or d f) Q t
    unfolding read_or
    read_or-Ensures d f Q t q lost = record {
      run = λ db e h. elim (Bool-cases (is_due db.faults)) [
        | inl due ↦ rw due (subst (Q d) (sym e) (lost (up F db h due)), still F db h)
        | inr n ↦ rw n (subst (λ u. Q (f u) u) (sym e) q, still F db h)
      ];
    }

    commit-Meets :
        (before : Tables) (Q : A → Tables → Type 0) (a : A) (db : Db)
        → Q a db.tables
        → (F → db.faults ≡ [])
        → Meets F Q (commit before a db)
    unfolding commit
    commit-Meets before Q a db q h = elim (Bool-cases (is_due db.faults)) [
      | inl due ↦ rw due (up F db h due)
      | inr n ↦ rw n (q, still F db h)
    ]

    finish-Meets :
        (before : Tables) (Q : A → Tables → Type 0) (o : Result A × Db)
        → Meets F Q o
        → Meets F Q (finish before o)
    unfolding finish
    finish-Meets before Q (ok a, db) (q, h) = commit-Meets before Q a db q h
    finish-Meets before Q (err x, db) n = n

    pub execute-Ensures :
        (body : Action A) (Q : A → Tables → Type 0) (t : Tables)
        → Ensures F body Q t
        → Ensures F (execute body) Q t
    unfolding execute
    execute-Ensures body Q t q = record {
      run = λ db e h. elim (Bool-cases (is_due db.faults)) [
        | inl due ↦ rw due (up F db h due)
        | inr n ↦ rw n (
            finish-Meets db.tables Q (body (record db { faults = later db.faults }))
              (q.run (record db { faults = later db.faults }) e (still F db h)))
      ];
    }

  pub wake_up-Ensures :
      (user : String) (Q : Unit {0} → Tables → Type 0) (t : Tables)
      → Q tt t
      → Ensures F (wake_up user) Q t
  unfolding wake_up
  wake_up-Ensures user Q t q = record { run = λ db e h. (subst (Q tt) (sym e) q, h) }

  pub queue_outgoing-Ensures :
      (ev : Evento) (Q : Unit {0} → Tables → Type 0) (t : Tables)
      → Q tt t
      → Ensures F (queue_outgoing ev) Q t
  unfolding queue_outgoing
  queue_outgoing-Ensures ev Q t q = record { run = λ db e h. (subst (Q tt) (sym e) q, h) }

-- Where nothing fails, a call whose error would be dropped succeeds.
pub attempt-Ensures {ℓ} :
    {A : Type ℓ} (F : Type 0) (m : Action A) (Q : Option A → Tables → Type 0) (t : Tables)
    → F
    → Ensures F m (λ a u. Q (some a) u) t
    → Ensures F (attempt m) Q t
unfolding attempt
attempt-Ensures {A = A} F m Q t f e = record {
  run = λ db same h. go db (m db) refl (e.run db same h);
}
  where
    go :
        (db : Db) (o : Result A × Db)
        → m db ≡ o
        → Meets F (λ a u. Q (some a) u) o
        → Meets F Q (attempt m db)
    go db (ok a, db') ran q = rw ran q
    go db (err x, db') ran n = absurd (n f)

-- A weaker claim.
pub Ensures-map {ℓ} :
    {A : Type ℓ} (F : Type 0) (m : Action A) (Q R : A → Tables → Type 0) (t : Tables)
    → ((a : A) (u : Tables) → Q a u → R a u)
    → Ensures F m Q t
    → Ensures F m R t
Ensures-map {A = A} F m Q R t weaken e = record { run = λ db same h. go (m db) (e.run db same h) }
  where
    go : (o : Result A × Db) → Meets F Q o → Meets F R o
    go (ok a, db) (q, left) = (weaken a db.tables q, left)
    go (err x, db) n = n
