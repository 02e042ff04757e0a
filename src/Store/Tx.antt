-- ===== src/Store/Tx.antt =====
-- One MySQL transaction: a body over the tables that has a result or an error. Nothing of a body
-- that ends in an error is kept, since the deferred `Rollback` runs.
use farm_server.Base.{
  ap, ◌≡◌, ◌≢◌, ◌∙◌, refl, subst, Bool, true, false, if◌then◌else◌, Option, none, some, ◌⊎◌, inl,
  inr,
}
use farm_server.Errors.{Result-cases, plain, Error, Result, ok, err}
use farm_server.Store.{Db}

abbrev pub Tx : Type 0 → Type 0
Tx A = Db → Result (A × Db)

infixl 5 ◌>>=◌ ◌>>◌
abbrev pub ◌>>=◌ : {A B : Type 0} → Tx A → (A → Tx B) → Tx B
◌>>=◌ m f db = elim (m db) [ ok (a, db') ↦ f a db' | err e ↦ err e ]

abbrev pub ◌>>◌ : {A B : Type 0} → Tx A → Tx B → Tx B
m >> k = m >>= λ _. k

abbrev pub pure : {A : Type 0} → A → Tx A
pure a db = ok (a, db)

abbrev pub fail : {A : Type 0} → Error → Tx A
fail e db = err e

-- The body goes on where the test holds.
abbrev pub guard : Bool → Error → Tx (Unit {0})
guard true e db = ok (tt, db)
guard false e db = err e

abbrev pub lift : {A : Type 0} → Result A → Tx A
lift (ok a) db = ok (a, db)
lift (err e) db = err e

abbrev pub get : Tx Db
get db = ok (db, db)

abbrev pub modify : (Db → Db) → Tx (Unit {0})
modify f db = ok (tt, f db)

-- Commit after a result, roll back after an error.
unfoldable pub atomically : {A : Type 0} → Tx A → Db → Result A × Db
atomically m db = elim (m db) [ ok (a, db') ↦ (ok a, db') | err e ↦ (err e, db) ]

-- What may befall a transaction: an error of the server or the connection that rolls it back, or a
-- commit that the server has done and whose answer is lost, which the driver reports as an error of
-- its own.
pub data Fault : Type 0 where
  fails : Error → Fault
  lost : Fault

abbrev pub unanswered : {A : Type 0} → Result A × Db → Result A × Db
unanswered (ok a, db) = (err plain, db)
unanswered (err e, db) = (err e, db)

-- One attempt of a transaction that meets a fault or none.
unfoldable pub interrupted : {A : Type 0} → Option Fault → Tx A → Db → Result A × Db
interrupted none m db = atomically m db
interrupted (some (fails e)) m db = (err e, db)
interrupted (some lost) m db = unanswered (atomically m db)

-- Inversion of a body that ends well.
pub >>=-eq-ok :
    {A B : Type 0} (m : Tx A) (f : A → Tx B) {db : Db} {r : B × Db}
    → (m >>= f) db ≡ ok r
    → (a : A) × (db' : Db) × (m db ≡ ok (a, db')) × (f a db' ≡ ok r)
>>=-eq-ok {A} m f {db} {r} h = go (m db) refl h
  where
    go :
        (x : Result (A × Db))
        → m db ≡ x
        → (elim x [ ok (a, db') ↦ f a db' | err e ↦ err e ]) ≡ ok r
        → (a : A) × (db' : Db) × (m db ≡ ok (a, db')) × (f a db' ≡ ok r)
    go (ok (a, db')) e k = (a, db', e, k)
    go (err x) e k = cc

pub guard-eq-ok :
    (b : Bool) (e : Error) {db db' : Db} {u : Unit {0}}
    → guard b e db ≡ ok (u, db')
    → (b ≡ true) × (db' ≡ db)
guard-eq-ok true e h = (refl, cc)
guard-eq-ok false e h = cc

-- A body that only reads.
abbrev pub OnlyReads : {A : Type 0} → Tx A → Type 0
OnlyReads {A} m = (db : Db) (a : A) (db' : Db) → m db ≡ ok (a, db') → db' ≡ db

pub pure-OnlyReads : {A : Type 0} (a : A) → OnlyReads (pure a)
pure-OnlyReads a db b db' h = cc

pub fail-OnlyReads : {A : Type 0} (e : Error) → OnlyReads (fail {A = A} e)
fail-OnlyReads e db b db' h = cc

pub guard-OnlyReads : (b : Bool) (e : Error) → OnlyReads (guard b e)
guard-OnlyReads b e db u db' h = (guard-eq-ok b e h).1

pub if-OnlyReads :
    {A : Type 0} (b : Bool) (m n : Tx A)
    → OnlyReads m
    → OnlyReads n
    → OnlyReads (if b then m else n)
if-OnlyReads true m n h k = h
if-OnlyReads false m n h k = k

pub >>=-OnlyReads :
    {A B : Type 0} (m : Tx A) (f : A → Tx B)
    → OnlyReads m
    → ((a : A) → OnlyReads (f a))
    → OnlyReads (m >>= f)
>>=-OnlyReads m f h k db b db' e =
    let (a, mid, first, second) = >>=-eq-ok m f e in k a mid b db' second ∙ h db a mid first

pub guard->>-OnlyReads :
    {A : Type 0} (b : Bool) (e : Error) (k : Tx A) → OnlyReads k → OnlyReads (guard b e >> k)
guard->>-OnlyReads b e k h = >>=-OnlyReads (guard b e) (λ _. k) (guard-OnlyReads b e) (λ _. h)

-- The rest of a body behind a guard, or behind a step that only reads, starts from the same tables.
pub guard->>-eq-ok :
    {B : Type 0} (b : Bool) (e : Error) (k : Tx B) {db : Db} {r : B × Db}
    → (guard b e >> k) db ≡ ok r
    → (b ≡ true) × (k db ≡ ok r)
guard->>-eq-ok true e k h = (refl, h)
guard->>-eq-ok false e k h = cc

pub reads->>-eq-ok :
    {B : Type 0} (m : Tx (Unit {0})) (k : Tx B) (db : Db) {r : B × Db}
    → OnlyReads m
    → (m >> k) db ≡ ok r
    → (m db ≡ ok (tt, db)) × (k db ≡ ok r)
reads->>-eq-ok m k db {r} reads h =
    let (u, mid, e, rest) = >>=-eq-ok m (λ _. k) h in
    let same = reads db u mid e in
    (subst (λ d. m db ≡ ok (tt, d)) same e, subst (λ d. k d ≡ ok r) same rest)

-- An error ends the body.
pub >>=-err :
    {A B : Type 0} (m : Tx A) (f : A → Tx B) (db : Db) (e : Error)
    → m db ≡ err e
    → (m >>= f) db ≡ err e
>>=-err {A} {B} m f db e h = ap go h
  where
    go : Result (A × Db) → Result (B × Db)
    go (ok (a, db')) = f a db'
    go (err x) = err x

module _ {A : Type 0} where
  -- An attempt leaves the tables of a run that has committed, with its result or with the driver's
  -- error in its place, or the old ones with an error.
  abbrev pub IsOneRun : Option Fault → Tx A → Db → Result A × Db → Type 0
  IsOneRun fault m db out =
      ((a : A) × (d : Db) × (m db ≡ ok (a, d))
        × (((fault ≡ none) × (out ≡ (ok a, d))) ⊎ ((fault ≡ some lost) × (out ≡ (err plain, d)))))
      ⊎ ((e : Error) × (out ≡ (err e, db)))

  pub interrupted-IsOneRun :
      (fault : Option Fault) (m : Tx A) (db : Db) → IsOneRun fault m db (interrupted fault m db)
  unfolding interrupted atomically
  interrupted-IsOneRun (some (fails e)) m db = inr (e, refl)
  interrupted-IsOneRun none m db = elim (Result-cases (m db)) [
    | inl ((a, d), e) ↦ rw (e, atomically) (inl (a, d, refl, inl (refl, refl)))
    | inr (x, e) ↦ rw (e, atomically) (inr (x, refl))
  ]
  interrupted-IsOneRun (some lost) m db = elim (Result-cases (m db)) [
    | inl ((a, d), e) ↦ rw (e, atomically) (inl (a, d, refl, inr (refl, refl)))
    | inr (x, e) ↦ rw (e, atomically) (inr (x, refl))
  ]

  -- An error that may be retried is one of a run that has not committed, since the driver's own error
  -- is no error number of MySQL.
  pub interrupted-RollsBack :
      (fault : Option Fault) (m : Tx A) (db : Db) (e : Error)
      → (interrupted fault m db).0 ≡ err e
      → e ≢ plain
      → (interrupted fault m db).1 ≡ db
  interrupted-RollsBack fault m db e h other = elim (interrupted-IsOneRun fault m db) [
    | inl (a, d, run, inl (calm, out)) ↦ absurd cc
    | inl (a, d, run, inr (gone, out)) ↦ absurd (other (cc (out, h)))
    | inr (x, out) ↦ cc
  ]
