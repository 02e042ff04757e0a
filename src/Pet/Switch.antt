-- ===== src/Pet/Switch.antt =====
-- The two transactions of server/internal/pet/infrastructure/mysql_pet_service.go with their retry.
use farm_server.Base.{
  ℕ, ◌≡◌, ◌≢◌, ◌∙◌, ◌≤◌, ◌-◌, ◌+◌, ◌*◌, ◌⊎◌, subst, inl, inr, Option-cases, Bool-cases, arith, Bool,
  true, ◌&&◌, Option, none, some, put,
}
use farm_server.Errors.{plain, Error, Result, ok, err, is_transient}
use farm_server.Errors.Retry.{value, value-IsOneAttempt}
use farm_server.Farm.{Time, second}
use farm_server.Store.{FarmRow, Db}
use farm_server.Store.Tx.{Tx, Fault, interrupted, interrupted-IsOneRun, interrupted-RollsBack}
use farm_server.Pet.Ownership.{
  is_some, buy_pet_once, buy_pet, set_auto_harvest_once, set_auto_harvest, pet_price, lock_farm,
  check_no_pet, take_coins, next_pet_action_at, schedule, is_rescheduled, reschedule, switch,
}

-- A retried transaction has committed one run, whose answer may be lost, or it returns an error and
-- has changed nothing.
abbrev pub OneRun : (ℕ → Tx (Unit {0})) → Db → Result (Unit {0}) × Db → Type 0
OneRun m db out =
    ((k : ℕ) × (d : Db) × (answer : Result (Unit {0})) × (m k db ≡ ok (tt, d))
      × (out ≡ (answer, d)))
    ⊎ ((e : Error) × (out ≡ (err e, db)))

transient-≢ : (e : Error) → is_transient e ≡ true → e ≢ plain
unfolding is_transient
transient-≢ e h same = cc (subst (λ x. is_transient x ≡ true) same h)

retried-OneRun :
    (faults : ℕ → Option Fault) (wait : ℕ → Bool) (m : ℕ → Tx (Unit {0})) (db : Db)
    → OneRun m db (value wait is_transient (λ k. interrupted (faults k) (m k)) db)
retried-OneRun faults wait m db =
    elim (value-IsOneAttempt wait is_transient (λ k. interrupted (faults k) (m k)) db
      (λ k s e h again. interrupted-RollsBack (faults k) (m k) s e h (transient-≢ e again))) [
        | inr failed ↦ inr failed
        | inl (k, lo, hi, out) ↦ elim (interrupted-IsOneRun (faults k) (m k) db) [
          | inl (u, d, run, inl (calm, x)) ↦ inl (k, d, ok tt, run, out ∙ x)
          | inl (u, d, run, inr (gone, x)) ↦ inl (k, d, err plain, run, out ∙ x)
          | inr (e, x) ↦ inr (e, out ∙ x)
        ]
      ]

pub buy_pet-OneRun :
    (faults : ℕ → Option Fault) (wait : ℕ → Bool) (jitter : ℕ → Option ℕ) (clock : ℕ → Time)
    (user : ℕ) (db : Db)
    → OneRun
        (λ k. buy_pet_once (jitter k) (clock k) user)
        db
        (buy_pet faults wait jitter clock user db)
unfolding buy_pet
buy_pet-OneRun faults wait jitter clock user db =
    retried-OneRun faults wait (λ k. buy_pet_once (jitter k) (clock k) user) db

pub set_auto_harvest-OneRun :
    (faults : ℕ → Option Fault) (wait : ℕ → Bool) (jitter : ℕ → Option ℕ) (clock : ℕ → Time)
    (user : ℕ) (enabled : Bool) (db : Db)
    → OneRun
        (λ k. set_auto_harvest_once (jitter k) (clock k) user enabled)
        db
        (set_auto_harvest faults wait jitter clock user enabled db)
unfolding set_auto_harvest
set_auto_harvest-OneRun faults wait jitter clock user enabled db =
    retried-OneRun faults wait (λ k. set_auto_harvest_once (jitter k) (clock k) user enabled) db

abbrev pub next_at : Option FarmRow → Option Time
next_at none = none
next_at (some row) = row.next_pet_action_at

-- What a purchase that commits has done.
pub bought :
    (jitter : Option ℕ) (now : Time) (user : ℕ) (db d : Db)
    → buy_pet_once jitter now user db ≡ ok (tt, d)
    → (db.active_pets user ≡ none)
      × ((coins : ℕ) × (db.wallets user ≡ some coins)
          × (pet_price ≤ coins)
          × (d.wallets ≡ put user (some (coins - pet_price)) db.wallets))
      × (d.active_pets ≡ put user (some true) db.active_pets)
      × ((row : FarmRow) × (s : ℕ) × (jitter ≡ some s)
          × (db.farms user ≡ some row)
          × (next_at (d.farms user) ≡ some (now + 30 * second + s * second)))
      × ((j : ℕ) → j ≢ user → d.farms j ≡ db.farms j)
unfolding buy_pet_once lock_farm check_no_pet take_coins next_pet_action_at schedule
bought jitter now user db d h = elim (Option-cases (db.farms user)) [
  | inl ef ↦ absurd (ground arith)
  | inr (row, ef) ↦ elim (Option-cases (db.wallets user)) [
    | inl ew ↦ absurd (ground arith)
    | inr (coins, ew) ↦ elim (Option-cases jitter) [
      | inl ej ↦ absurd (ground arith)
      | inr (s, ej) ↦ (
        ground arith,
        (coins, ew, ground arith, ground arith),
        ground arith,
        (row, s, ej, ef, ground arith),
        λ j ne. ground arith,
      )
    ]
  ]
]

-- What a switch that commits has done.
pub switched :
    (jitter : Option ℕ) (now : Time) (user : ℕ) (enabled : Bool) (db d : Db)
    → set_auto_harvest_once jitter now user enabled db ≡ ok (tt, d)
    → (d.active_pets user ≡ some enabled)
      × ((enabled ≡ true) × (db.active_pets user ≡ some true) × (d ≡ db)
          ⊎ (d.active_pets ≡ put user (some enabled) db.active_pets)
            × (is_some (next_at (d.farms user)) ≡ enabled)
            × ((j : ℕ) → j ≢ user → d.farms j ≡ db.farms j))
      × (d.wallets ≡ db.wallets)
unfolding set_auto_harvest_once lock_farm switch next_pet_action_at reschedule is_rescheduled
    schedule
switched jitter now user enabled db d h = elim (Option-cases (db.farms user)) [
  | inl ef ↦ absurd (ground arith)
  | inr (row, ef) ↦ elim (Option-cases (db.active_pets user)) [
    | inl ep ↦ absurd (ground arith)
    | inr (current, ep) ↦ elim (Bool-cases (enabled && current)) [
      | inl on ↦ (ground arith, inl (ground arith, ground arith, ground arith), ground arith)
      | inr off ↦ elim (Bool-cases enabled) [
        | inl on ↦ elim (Option-cases jitter) [
          | inl ej ↦ absurd (ground arith)
          | inr (s, ej) ↦
              (ground arith, inr (ground arith, ground arith, λ j ne. ground arith), ground arith)
        ]
        | inr cleared ↦
            (ground arith, inr (ground arith, ground arith, λ j ne. ground arith), ground arith)
      ]
    ]
  ]
]
