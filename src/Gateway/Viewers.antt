-- ===== src/Gateway/Viewers.antt =====
-- The maps of the hub (`Hub` of server/internal/gateway/ws/hub.go), which its lock guards. The hooks run
-- here within the call, in the program after the lock is released; nothing below speaks of them.
use farm_server.Base.{
  ℕ, ◌≤◌, ◌≡◌, refl, arith, Bool, true, false, not, ◌&&◌, List, [], ◌∷◌, Option, none, some, leb,
  ◌==◌, if◌then◌else◌, put,
}
use farm_server.Gateway.{
  Gateway, max_guest_viewers, is_on, remove, guests, subscribe_channel, unsubscribe_channel,
  timer_fires, reopen, leave, enter, unsubscribe, subscribe,
}

abbrev pub contains : ℕ → List ℕ → Bool
contains c [] = false
contains c (d ∷ ds) = if d == c then true else contains c ds

-- What holds of a farm and a connection.
pub record IsConsistent (user : ℕ → ℕ) (s : Gateway) (f c : ℕ) : Type 0 where
  pub linked : contains c (s.viewers f) ≡ is_on f (s.conn_farm c)
  pub few : guests user f (s.viewers f) ≤ max_guest_viewers

contains-remove :
    (c d : ℕ) (cs : List ℕ) → contains c (remove d cs) ≡ (if c == d then false else contains c cs)
unfolding remove
contains-remove c d [] = ground arith
contains-remove c d (x ∷ cs) = ground (arith, contains-remove c d cs)

guests-remove :
    (user : ℕ → ℕ) (farm d : ℕ) (cs : List ℕ) → guests user farm (remove d cs) ≤ guests user farm cs
unfolding remove guests
guests-remove user farm d [] = omega arith
guests-remove user farm d (x ∷ cs) = ground (arith, guests-remove user farm d cs)

module _ (user : ℕ → ℕ) where
  gone-IsConsistent :
      (c old : ℕ) (s : Gateway) (f d : ℕ)
      → s.conn_farm c ≡ some old
      → IsConsistent user s f d
      → IsConsistent user s f c
      → IsConsistent user s old c
      → IsConsistent user (leave c (some old) s) f d
  unfolding unsubscribe_channel
  gone-IsConsistent c old s f d e h k m = record {
    linked = ground (arith, contains-remove d c (s.viewers old), h.linked, k.linked, m.linked);
    few = ground (arith, guests-remove user f c (s.viewers old), h.few);
  }

  enter-IsConsistent :
      (farm version c : ℕ) (s : Gateway) (f d : ℕ)
      → s.conn_farm c ≡ none
      → (not (user c == farm) && leb max_guest_viewers (guests user farm (s.viewers farm))) ≡ false
      → IsConsistent user s f d
      → IsConsistent user s f c
      → IsConsistent user (enter farm version c s) f d
  unfolding enter subscribe_channel guests
  enter-IsConsistent farm version c s f d e room h k = record {
    linked = ground (arith, h.linked, k.linked);
    few = ground (arith, h.few, room);
  }

  abbrev pub AllConsistent : Gateway → Type 0
  AllConsistent s = (f c : ℕ) → IsConsistent user s f c

  left-none :
      (c : ℕ) (s : Gateway) (o : Option ℕ) → s.conn_farm c ≡ o → (leave c o s).conn_farm c ≡ none
  unfolding unsubscribe_channel
  left-none c s none e = e
  left-none c s (some old) e = ground arith

  leave-AllConsistent :
      (c : ℕ) (s : Gateway) (o : Option ℕ)
      → s.conn_farm c ≡ o
      → AllConsistent s
      → AllConsistent (leave c o s)
  leave-AllConsistent c s none e h f d = h f d
  leave-AllConsistent c s (some old) e h f d =
      gone-IsConsistent c old s f d e (h f d) (h f c) (h old c)

  -- Leaving a farm makes no room in another.
  left-guests :
      (c farm : ℕ) (s : Gateway) (o : Option ℕ)
      → guests user farm ((leave c o s).viewers farm) ≤ guests user farm (s.viewers farm)
  unfolding unsubscribe_channel
  left-guests c farm s none = omega arith
  left-guests c farm s (some old) = ground (arith, guests-remove user farm c (s.viewers old))

  subscribe-AllConsistent :
      (farm version c : ℕ) (s : Gateway)
      → AllConsistent s
      → AllConsistent (subscribe user farm version c s).1
  unfolding subscribe unsubscribe
  subscribe-AllConsistent farm version c s h =
      go (is_on farm (s.conn_farm c))
        (not (user c == farm) && leb max_guest_viewers (guests user farm (s.viewers farm))) refl
    where
      left : Gateway
      left = leave c (s.conn_farm c) s

      there : AllConsistent left
      there = leave-AllConsistent c s (s.conn_farm c) refl h

      go :
          (here no_room : Bool)
          → (not (user c == farm) && leb max_guest_viewers (guests user farm (s.viewers farm)))
            ≡ no_room
          → let out : Bool × Gateway =
              if here
              then (true, record s { cursors = put c (farm, version) s.cursors })
              else if no_room
              then (false, s)
              else (true, enter farm version c left) in
            AllConsistent out.1
      go true no_room e f d = record { linked = (h f d).linked; few = (h f d).few }
      go false true e f d = h f d
      go false false e f d =
          enter-IsConsistent farm version c left f d (left-none c s (s.conn_farm c) refl)
            (ground (arith, e, left-guests c farm s (s.conn_farm c))) (there f d) (there f c)

  timer-AllConsistent :
      (farm : ℕ) (s : Gateway) → AllConsistent s → AllConsistent (timer_fires farm s)
  unfolding timer_fires
  timer-AllConsistent farm s h f d =
      let k = h f d in record { linked = ground (arith, k.linked); few = ground (arith, k.few) }

  reopen-AllConsistent : (s : Gateway) → AllConsistent s → AllConsistent (reopen s)
  unfolding reopen
  reopen-AllConsistent s h f d = let k = h f d in record { linked = k.linked; few = k.few }

-- What happens on a gateway.
pub data Step (user : ℕ → ℕ) : Gateway → Gateway → Type 0 where
  subscribes : (farm version c : ℕ) (s : Gateway) → Step user s (subscribe user farm version c s).1
  unsubscribes : (c : ℕ) (s : Gateway) → Step user s (unsubscribe c s)
  fires : (farm : ℕ) (s : Gateway) → Step user s (timer_fires farm s)
  reopens : (s : Gateway) → Step user s (reopen s)

pub data Reach (user : ℕ → ℕ) (s : Gateway) : Gateway → Type 0 where
  here : Reach user s s
  after_step : {t u : Gateway} → Reach user s t → Step user t u → Reach user s u

abbrev pub new_gateway : Gateway
new_gateway = record {
  viewers = λ f. [];
  conn_farm = λ c. none;
  cursors = λ c. (0, 0);
  refs = λ f. 0;
  timers = λ f. false;
  channels = λ f. false;
}

new-AllConsistent : (user : ℕ → ℕ) → AllConsistent user new_gateway
unfolding guests
new-AllConsistent user f c = record { linked = refl; few = omega arith }

Step-AllConsistent :
    (user : ℕ → ℕ) {s u : Gateway} → Step user s u → AllConsistent user s → AllConsistent user u
unfolding unsubscribe
Step-AllConsistent user (subscribes farm version c s) h =
    subscribe-AllConsistent user farm version c s h
Step-AllConsistent user (unsubscribes c s) h = leave-AllConsistent user c s (s.conn_farm c) refl h
Step-AllConsistent user (fires farm s) h = timer-AllConsistent user farm s h
Step-AllConsistent user (reopens s) h = reopen-AllConsistent user s h

Reach-AllConsistent :
    (user : ℕ → ℕ) {s u : Gateway} → Reach user s u → AllConsistent user s → AllConsistent user u
Reach-AllConsistent user here h = h
Reach-AllConsistent user (after_step r step) h =
    Step-AllConsistent user step (Reach-AllConsistent user r h)

-- In every state of the hub: a connection is a viewer of exactly the farm that the reverse map gives
-- it, and no farm has more than five guests. What Redis hears of the farms is no part of this.
pub viewers_consistent :
    (user : ℕ → ℕ) (s : Gateway) (f c : ℕ)
    → Reach user new_gateway s
    → (contains c (s.viewers f) ≡ is_on f (s.conn_farm c)) × (guests user f (s.viewers f) ≤ 5)
viewers_consistent user s f c r =
    let h = Reach-AllConsistent user r (new-AllConsistent user) f c in (h.linked, h.few)
