-- ===== src/Task/Reward.antt =====
-- A task's progress and its reward.
use farm_server.Base.{
  ℕ, leb, zero, suc, ◌+◌, ◌≡◌, ◌≤◌, ◌<◌, ◌⊎◌, inl, inr, refl, arith, String, List, [], ◌∷◌, none,
  some, eq_iff, Option-cases, Bool-cases, min, sym, ap, ◌∙◌, subst,
}
use farm_server.Errors.{Result-cases, ok, err, coded, task_already_claimed}
use farm_server.Store.{Db, active, completed, reward_claimed, TaskRow}
use farm_server.Store.Tx.{atomically, ◌>>◌, pure, >>=-eq-ok, >>=-err}
use farm_server.Task.{
  TaskConfig, get_task_config, progressed, incr_progress, claim_reward, mark_claimed, add_coins,
  pay_reward, claim_reward_once, set_task,
}

-- The row after a number of single events, the first of which creates it.
pub after_events : ℕ → ℕ → TaskRow
after_events target zero = progressed target 1 none
after_events target (suc n) = progressed target 1 (some (after_events target n))

abbrev Counted : ℕ → ℕ → TaskRow → Type 0
Counted target n row =
    (row.progress ≡ min (suc n) target)
    × (((row.status ≡ completed) × (1 ≤ n) × (target ≤ suc n))
        ⊎ ((row.status ≡ active) × ((n ≡ 0) ⊎ (suc n < target))))

progressed-Counted :
    (target n : ℕ) (row : TaskRow)
    → 0 < target
    → Counted target n row
    → Counted target (suc n) (progressed target 1 (some row))
unfolding progressed
progressed-Counted target n row p (c, inl (s, l, t)) =
    rw s (ground arith, inl (refl, omega arith, omega arith))
progressed-Counted target n row p (c, inr (s, l)) =
    elim (Bool-cases (leb target (min (row.progress + 1) target))) [
      | inl y ↦ rw (s, y) (ground arith, inl (refl, omega arith, ground arith))
      | inr below ↦ rw (s, below) (ground arith, inr (refl, inr (ground arith)))
    ]

-- Single events are counted up to the target, and a task is COMPLETED once its target is reached,
-- but never by its first event: a task with target one stays ACTIVE until the second event.
pub events_counted :
    (target n : ℕ)
    → 0 < target
    → ((after_events target n).progress ≡ min (suc n) target)
      × ((((after_events target n).status ≡ completed) × (1 ≤ n) × (target ≤ suc n))
          ⊎ (((after_events target n).status ≡ active) × ((n ≡ 0) ⊎ (suc n < target))))
unfolding after_events progressed
events_counted target zero p = (ground arith, inr (refl, inl refl))
events_counted target (suc n) p =
    progressed-Counted target n (after_events target n) p (events_counted target n p)

mark_claimed-eq-ok :
    (user : ℕ) (key : String) (db db' : Db) (u : Unit {0})
    → mark_claimed user key db ≡ ok (u, db')
    → (row : TaskRow) × (db.player_tasks user key ≡ some row)
      × (row.status ≡ completed)
      × (db' ≡ set_task user key (record row { status = reward_claimed }) db)
unfolding mark_claimed
mark_claimed-eq-ok user key db db' u h = ground arith

add_coins-eq-ok :
    (user coins : ℕ) (db db' : Db) (u : Unit {0})
    → add_coins user coins db ≡ ok (u, db')
    → (db'.player_tasks ≡ db.player_tasks)
      × ((balance : ℕ) → db.wallets user ≡ some balance → db'.wallets user ≡ some (balance + coins))
unfolding add_coins
add_coins-eq-ok user coins db db' u h = (ground arith, λ b e. ground arith)

reward-eq-ok :
    (user coins : ℕ) (db db' : Db) (u : Unit {0})
    → pay_reward user coins db ≡ ok (u, db')
    → (db'.player_tasks ≡ db.player_tasks)
      × ((balance : ℕ) → db.wallets user ≡ some balance → db'.wallets user ≡ some (balance + coins))
unfolding pay_reward
reward-eq-ok user zero db db' u h = (cc, λ b e. ground arith)
reward-eq-ok user (suc n) db db' u h = add_coins-eq-ok user (suc n) db db' u h

mark_again :
    (user : ℕ) (key : String) (row : TaskRow) (db : Db)
    → db.player_tasks user key ≡ some row
    → row.status ≡ reward_claimed
    → mark_claimed user key db ≡ err (coded task_already_claimed)
unfolding mark_claimed
mark_again user key row db e s = ground arith

claimed_again :
    (user : ℕ) (key : String) (cfg : TaskConfig) (row : TaskRow) (db : Db)
    → db.player_tasks user key ≡ some row
    → row.status ≡ reward_claimed
    → claim_reward_once user key cfg db ≡ err (coded task_already_claimed)
unfolding claim_reward_once
claimed_again user key cfg row db e s =
    >>=-err (mark_claimed user key) (λ _. pay_reward user cfg.coin_reward >> pure cfg.coin_reward)
      db (coded task_already_claimed) (mark_again user key row db e s)

pure-eq-ok : (a b : ℕ) (d d' : Db) → pure a d ≡ ok (b, d') → (b ≡ a) × (d ≡ d')
pure-eq-ok a b d d' h = (cc, cc)

-- What may happen to the tasks: progress by an event, and claims, rolled back where they fail.
pub data TaskEvent : Type 0 where
  progresses : ℕ → String → ℕ → TaskEvent
  claims : ℕ → String → TaskEvent

unfoldable pub happen : TaskEvent → Db → Db
happen (progresses user key delta) db = incr_progress user key delta db
happen (claims user key) db = (atomically (claim_reward user key) db).1

unfoldable pub happen_all : List TaskEvent → Db → Db
happen_all [] db = db
happen_all (e ∷ es) db = happen_all es (happen e db)

abbrev IsClaimed : ℕ → String → Db → Type 0
IsClaimed user key db =
    (row : TaskRow) × (db.player_tasks user key ≡ some row) × (row.status ≡ reward_claimed)

progress-IsClaimed :
    (user : ℕ) (key : String) (by : ℕ) (task : String) (delta : ℕ) (db : Db)
    → IsClaimed user key db
    → IsClaimed user key (incr_progress by task delta db)
unfolding incr_progress progressed
progress-IsClaimed user key by task delta db (row, e, s) =
    (row, ground (arith, e, s, eq_iff key task), s)

-- The rows after a claim of anyone's task that succeeds.
claim-rows :
    (user : ℕ) (key : String) (cfg : TaskConfig) (db db' : Db) (coins : ℕ)
    → claim_reward_once user key cfg db ≡ ok (coins, db')
    → (coins ≡ cfg.coin_reward)
      × (row : TaskRow) × (db.player_tasks user key ≡ some row)
      × (row.status ≡ completed)
      × ((balance : ℕ)
          → db.wallets user ≡ some balance
          → db'.wallets user ≡ some (balance + cfg.coin_reward))
      × (db'.player_tasks
          ≡ (set_task user key (record row { status = reward_claimed }) db).player_tasks)
unfolding claim_reward_once
claim-rows user key cfg db db' coins h =
    let pay = pay_reward user cfg.coin_reward in
    let (u, d1, marked, h1) =
      >>=-eq-ok (mark_claimed user key) (λ _. pay >> pure cfg.coin_reward) {db = db} h in
    let (v, d2, paid, h2) = >>=-eq-ok pay (λ _. pure cfg.coin_reward) {db = d1} h1 in
    let (row, found, done, t1) = mark_claimed-eq-ok user key db d1 u marked in
    let (tasks, coins_in) = reward-eq-ok user cfg.coin_reward d1 d2 v paid in
    let (paid_coins, same) = pure-eq-ok cfg.coin_reward coins d2 db' h2 in
    (
      paid_coins,
      row,
      found,
      done,
      λ b e.
          subst (λ d. d.wallets user ≡ some (b + cfg.coin_reward)) same
            (coins_in b (ap (λ d. d.wallets user) t1 ∙ e)),
      ap (λ d. d.player_tasks) (sym same) ∙ tasks ∙ ap (λ d. d.player_tasks) t1,
    )

claim-IsClaimed :
    (user : ℕ) (key : String) (by : ℕ) (task : String) (cfg : TaskConfig) (db d : Db) (coins : ℕ)
    → IsClaimed user key db
    → claim_reward_once by task cfg db ≡ ok (coins, d)
    → IsClaimed user key d
claim-IsClaimed user key by task cfg db d coins (row, e, s) h =
    let (paid, old, found, done, in_wallet, rows) = claim-rows by task cfg db d coins h in
    (row, rw rows (ground (arith, e, s, found, done, eq_iff key task)), s)

claims-IsClaimed :
    (user : ℕ) (key : String) (by : ℕ) (task : String) (db : Db)
    → IsClaimed user key db
    → IsClaimed user key (atomically (claim_reward by task) db).1
unfolding claim_reward atomically
claims-IsClaimed user key by task db claimed = elim (Option-cases (get_task_config task)) [
  | inl e ↦ rw (atomically, claim_reward, e) claimed
  | inr (cfg, e) ↦ elim (Result-cases (claim_reward_once by task cfg db)) [
    | inl ((coins, d), k) ↦
        rw (atomically, claim_reward, e, k)
          (claim-IsClaimed user key by task cfg db d coins claimed k)
    | inr (x, k) ↦ rw (atomically, claim_reward, e, k) claimed
  ]
]

happen-IsClaimed :
    (user : ℕ) (key : String) (e : TaskEvent) (db : Db)
    → IsClaimed user key db
    → IsClaimed user key (happen e db)
unfolding happen
happen-IsClaimed user key (progresses by task delta) db h =
    progress-IsClaimed user key by task delta db h
happen-IsClaimed user key (claims by task) db h = claims-IsClaimed user key by task db h

happen_all-IsClaimed :
    (user : ℕ) (key : String) (es : List TaskEvent) (db : Db)
    → IsClaimed user key db
    → IsClaimed user key (happen_all es db)
unfolding happen_all
happen_all-IsClaimed user key [] db h = h
happen_all-IsClaimed user key (e ∷ es) db h =
    happen_all-IsClaimed user key es (happen e db) (happen-IsClaimed user key e db h)

-- A claim that succeeds finds the task COMPLETED, and adds the reward to the wallet, if there is
-- one; whatever progress and claims of anyone follow, any further claim of it fails as already
-- claimed.
pub claim_pays_once :
    (user : ℕ) (key : String) (cfg : TaskConfig) (db db' : Db) (coins : ℕ) (es : List TaskEvent)
    → claim_reward_once user key cfg db ≡ ok (coins, db')
    → (coins ≡ cfg.coin_reward)
      × (row : TaskRow) × (db.player_tasks user key ≡ some row)
      × (row.status ≡ completed)
      × ((balance : ℕ)
          → db.wallets user ≡ some balance
          → db'.wallets user ≡ some (balance + cfg.coin_reward))
      × (claim_reward_once user key cfg (happen_all es db') ≡ err (coded task_already_claimed))
claim_pays_once user key cfg db db' coins es h =
    let (paid, row, found, done, in_wallet, rows) = claim-rows user key cfg db db' coins h in
    let stored : db'.player_tasks user key ≡ some (record row { status = reward_claimed }) =
      rw rows (ground (arith, eq_iff key key)) in
    let (later, e, s) =
      happen_all-IsClaimed user key es db' (record row { status = reward_claimed }, stored, refl) in
    (paid, row, found, done, in_wallet, claimed_again user key cfg later (happen_all es db') e s)
