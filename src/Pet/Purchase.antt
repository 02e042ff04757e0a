-- ===== src/Pet/Purchase.antt =====
-- A purchase of a pet (`BuyPet` of server/internal/pet/infrastructure/mysql_pet_service.go) is paid
-- for, takes effect at once and happens once.
use farm_server.Base.{
  ℕ, ◌+◌, ◌*◌, ◌-◌, ◌≤◌, ◌≡◌, ◌≢◌, ◌∙◌, ◌==◌, ap, put, inl, inr, arith, Bool, true, Option, some,
  List, [], ◌∷◌, Bool-cases,
}
use farm_server.Errors.{Error, ok, err}
use farm_server.Farm.{Time, second}
use farm_server.Store.Tx.{atomically, Fault}
use farm_server.Store.{Db}
use farm_server.Pet.{claim_due, renew_lease, push_next_pet_action}
use farm_server.Pet.Ownership.{buy_pet, get_status}
use farm_server.Pet.Switch.{next_at, buy_pet-OneRun, set_auto_harvest-OneRun, bought, switched}
use farm_server.Pet.Schedule.{
  Change, buys, switches, claims, renews, pushes, commits, apply, apply_all, Keeps, claim-Keeps,
  renew-Keeps, push-Keeps, after-commit,
}
use farm_server.Commit.FarmTx.{commit_locked}

-- What a purchase has done to the player `user`.
pub record IsPaid (user : ℕ) (jitter : ℕ → Option ℕ) (clock : ℕ → Time) (db d : Db) : Type 0 where
  pub coins : ℕ
  pub had : db.wallets user ≡ some coins
  pub enough : 200 ≤ coins
  pub left : d.wallets user ≡ some (coins - 200)
  pub others : (j : ℕ) → j ≢ user → d.wallets j ≡ db.wallets j
  pub status : get_status user d ≡ (true, true)
  pub attempt : ℕ
  pub drawn : ℕ
  pub draw : jitter attempt ≡ some drawn
  pub next : next_at (d.farms user) ≡ some (clock attempt + 30 * second + drawn * second)

module _ (faults : ℕ → Option Fault) (wait : ℕ → Bool) (jitter : ℕ → Option ℕ) (clock : ℕ → Time)
    (user : ℕ) where
  paid :
      (db d : Db)
      → buy_pet faults wait jitter clock user db ≡ (ok tt, d)
      → IsPaid user jitter clock db d × (d.active_pets user ≡ some true)
  unfolding get_status
  paid db d h = elim (buy_pet-OneRun faults wait jitter clock user db) [
    | inr (e, out) ↦ absurd cc
    | inl (k, x, answer, run, out) ↦
        let same : d ≡ x = cc in
        let (free, (coins, had, enough, left), pets, (row, s, draw, found, next), others) =
          bought (jitter k) (clock k) user db d (rw same run) in
        (
          record {
            coins = coins;
            had = had;
            enough = enough;
            left = ground (arith, left);
            others = λ j ne. ground (arith, left, ne);
            status = ground (arith, pets);
            attempt = k;
            drawn = s;
            draw = draw;
            next = next;
          },
          ground (arith, pets),
        )
  ]

  owned-err :
      (d : Db) (on : Bool)
      → d.active_pets user ≡ some on
      → (e : Error) × (buy_pet faults wait jitter clock user d ≡ (err e, d))
  owned-err d on owned = elim (buy_pet-OneRun faults wait jitter clock user d) [
    | inr failed ↦ failed
    | inl (k, x, answer, run, out) ↦
        let (free, price, pets, scheduled, others) = bought (jitter k) (clock k) user d x run in
        absurd cc
  ]

-- No change takes a pet away.
HasPet : ℕ → Db → Type 0
HasPet user db = (on : Bool) × (db.active_pets user ≡ some on)

kept-HasPet : (user : ℕ) (db d : Db) → Keeps db d → HasPet user db → HasPet user d
unfolding HasPet
kept-HasPet user db d (pets, scheduled) (on, e) = (on, ap (λ p. p user) pets ∙ e)

put-HasPet :
    (user player : ℕ) (b : Bool) (db d : Db)
    → d.active_pets ≡ put player (some b) db.active_pets
    → HasPet user db
    → HasPet user d
unfolding HasPet
put-HasPet user player b db d pets (on, e) = elim (Bool-cases (user == player)) [
  | inl here ↦ (b, rw pets (ground (arith, here)))
  | inr away ↦ (on, rw pets (ground (arith, away, e)))
]

apply-HasPet : (user : ℕ) (c : Change) (db : Db) → HasPet user db → HasPet user (apply c db)
unfolding apply
apply-HasPet user (buys faults wait jitter clock buyer) db h =
    elim (buy_pet-OneRun faults wait jitter clock buyer db) [
      | inr (e, out) ↦ rw (apply, out) h
      | inl (k, d, answer, run, out) ↦
          let (free, price, pets, scheduled, others) = bought (jitter k) (clock k) buyer db d run in
          rw (apply, out) (put-HasPet user buyer true db d pets h)
    ]
apply-HasPet user (switches faults wait jitter clock player enabled) db h =
    elim (set_auto_harvest-OneRun faults wait jitter clock player enabled db) [
      | inr (e, out) ↦ rw (apply, out) h
      | inl (k, d, answer, run, out) ↦
          elim ((switched (jitter k) (clock k) player enabled db d run).1) [
            | inl (on, was, same) ↦ rw (apply, out, same) h
            | inr (pets, next, others) ↦
                rw (apply, out) (put-HasPet user player enabled db d pets h)
          ]
    ]
apply-HasPet user (claims ttl id token now) db h =
    kept-HasPet user db (claim_due ttl id token now db).1 (claim-Keeps ttl id token now db) h
apply-HasPet user (renews ttl id token now) db h =
    kept-HasPet user db (renew_lease ttl id token now db).1 (renew-Keeps ttl id token now db) h
apply-HasPet user (pushes id expected token now) db h =
    kept-HasPet user db (push_next_pet_action id expected token now db).1
      (push-Keeps id expected token now db) h
apply-HasPet user (commits env event_id now cmd) db h =
    kept-HasPet user db (atomically (commit_locked env event_id now cmd) db).1
      (after-commit env event_id now cmd db) h

apply_all-HasPet :
    (user : ℕ) (cs : List Change) (db : Db) → HasPet user db → HasPet user (apply_all cs db)
unfolding apply_all
apply_all-HasPet user [] db h = h
apply_all-HasPet user (c ∷ cs) db h =
    apply_all-HasPet user cs (apply c db) (apply-HasPet user c db h)

-- A purchase that returns success has taken exactly two hundred coins from its player alone, has
-- switched the pet on and scheduled it half a minute and the drawn seconds after the attempt that
-- committed. Whatever purchases, switches, statements of the scanner and farm commands follow, every
-- later purchase by the player fails and changes nothing.
pub pet_is_bought_once :
    (faults later_faults : ℕ → Option Fault) (wait later_wait : ℕ → Bool)
    (jitter later_jitter : ℕ → Option ℕ) (clock later_clock : ℕ → Time) (user : ℕ) (db d : Db)
    (cs : List Change)
    → buy_pet faults wait jitter clock user db ≡ (ok tt, d)
    → IsPaid user jitter clock db d
      × ((e : Error) × (buy_pet later_faults later_wait later_jitter later_clock user
              (apply_all cs d)
            ≡ (err e, apply_all cs d)))
unfolding HasPet
pet_is_bought_once faults later_faults wait later_wait jitter later_jitter clock later_clock user db
      d cs h =
    let (done, owned) = paid faults wait jitter clock user db d h in
    let (on, later) = apply_all-HasPet user cs d (true, owned) in
    (
      done,
      owned-err later_faults later_wait later_jitter later_clock user (apply_all cs d) on later,
    )
