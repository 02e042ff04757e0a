-- ===== src/Sessions/Connection.antt =====
-- One connection for each user, across all gateways (server/pkg/redisstore/conn_store.go): the key
-- `ws:conn:{user}` of one user, and the messages that tell a gateway to close a connection.
use farm_server.Base.{
  ◌≡◌, ◌⊎◌, refl, ap, sym, subst, arith, Bool, true, false, ◌&&◌, String, List, [], ◌∷◌, Option,
  none, some, str_eq, eq_iff, if◌then◌else◌, IsIn, IsIn-cases, first, later, inl, inr, Bool-cases,
}

-- The value `instanceID:sessionID`.
pub record Connection : Type 0 where
  pub instance_id : String
  pub session_id : String

-- A message on the channel of `to`, with the new connection.
pub record Kick : Type 0 where
  pub to : String
  pub replacement : Connection

abbrev pub is_same : Connection → Connection → Bool
is_same a b = str_eq a.instance_id b.instance_id && str_eq a.session_id b.session_id

abbrev pub is_current : Connection → Option Connection → Bool
is_current c none = false
is_current c (some d) = is_same d c

-- `registerConnScript`: the new value of the key, and the message to the gateway of the old one.
unfoldable pub register : Connection → Option Connection → Option Kick × Option Connection
register c none = (none, some c)
register c (some old) = (
  if is_same old c then none else some (record { to = old.instance_id; replacement = c }),
  some c,
)

-- `unregisterScript`
unfoldable pub unregister : Connection → Option Connection → Option Connection
unregister c key = if is_current c key then none else key

-- The loop of `Start` for one message: the listeners of the user whose callbacks run.
unfoldable pub kicked : Kick → List String → List String
kicked k [] = []
kicked k (session_id ∷ sessions) =
    if str_eq session_id k.replacement.session_id
    then kicked k sessions
    else session_id ∷ kicked k sessions

-- The key, the messages sent so far, the connections that were taken out of the key by their own
-- gateway or by its expiry, and all that were registered.
pub record World : Type 0 where
  pub key : Option Connection
  pub kicks : List Kick
  pub ended : List Connection
  pub registered : List Connection

abbrev pub add_kick : Option Kick → List Kick → List Kick
add_kick none ks = ks
add_kick (some k) ks = k ∷ ks

abbrev pub add_ended : Option Connection → List Connection → List Connection
add_ended none cs = cs
add_ended (some c) cs = c ∷ cs

pub data Step : World → World → Type 0 where
  registers :
      (c : Connection) (w : World)
      → Step w (record w {
        key = (register c w.key).1;
        kicks = add_kick (register c w.key).0 w.kicks;
        registered = c ∷ w.registered;
      })
  unregisters :
      (c : Connection) (w : World)
      → Step w (record w { key = unregister c w.key; ended = c ∷ w.ended })
  expires : (w : World) → Step w (record w { key = none; ended = add_ended w.key w.ended })

pub data Reach (v : World) : World → Type 0 where
  here : Reach v v
  after_step : {w u : World} → Reach v w → Step w u → Reach v u

-- A message to the connection's gateway that runs the connection's callback, whatever other listeners
-- of the user the gateway has.
abbrev pub Closes : Connection → Kick → Type 0
Closes c k =
    (k.to ≡ c.instance_id)
    × ((listeners : List String)
        → IsIn c.session_id listeners
        → IsIn c.session_id (kicked k listeners))

-- The session of the connection was registered by another gateway too.
abbrev pub IsMoved : World → Connection → Type 0
IsMoved w c =
    (d : Connection) × IsIn d w.registered
    × (d.session_id ≡ c.session_id)
    × (str_eq d.instance_id c.instance_id ≡ false)

abbrev pub Accounted : World → Connection → Type 0
Accounted w c =
    (w.key ≡ some c) ⊎ IsIn c w.ended ⊎ ((k : Kick) × IsIn k w.kicks × Closes c k) ⊎ IsMoved w c

is_same-eq : (a b : Connection) → is_same a b ≡ true → a ≡ b
is_same-eq a b h =
    ground (arith, eq_iff a.instance_id b.instance_id, eq_iff a.session_id b.session_id)

kicked-keeps :
    (k : Kick) (session_id : String) (ss : List String)
    → str_eq session_id k.replacement.session_id ≡ false
    → IsIn session_id ss
    → IsIn session_id (kicked k ss)
unfolding kicked
kicked-keeps k session_id [] other i = elim i [ ]
kicked-keeps k session_id (s ∷ ss) other i = elim (IsIn-cases i) [
  | inl e ↦
      rw (subst (λ x. str_eq x k.replacement.session_id ≡ false) e other)
        (subst (λ x. IsIn session_id (x ∷ kicked k ss)) e first)
  | inr after ↦
      let rest = kicked-keeps k session_id ss other after in
      elim (Bool-cases (str_eq s k.replacement.session_id)) [
        | inl skipped ↦ rw skipped rest
        | inr run ↦ rw run (later rest)
      ]
]

IsIn-add : (o : Option Kick) (k : Kick) (ks : List Kick) → IsIn k ks → IsIn k (add_kick o ks)
IsIn-add none k ks i = i
IsIn-add (some j) k ks i = later i

-- The connection that stood under the key is replaced by itself, told to close, or has moved.
displaced :
    (c x : Connection) (ks : List Kick)
    → ((register c (some x)).1 ≡ some x)
      ⊎ ((k : Kick) × IsIn k (add_kick (register c (some x)).0 ks) × Closes x k)
      ⊎ ((c.session_id ≡ x.session_id) × (str_eq c.instance_id x.instance_id ≡ false))
unfolding register
displaced c x ks = elim (Bool-cases (is_same x c)) [
  | inl e ↦ inl (ap (λ (d : Connection). some d) (sym (is_same-eq x c e)))
  | inr e ↦
      let kick : Kick = record { to = x.instance_id; replacement = c } in
      elim (Bool-cases (str_eq x.session_id c.session_id)) [
        | inr other ↦
            rw e
              (inr (inl (kick, first, (refl, λ ss i. kicked-keeps kick x.session_id ss other i))))
        | inl same ↦ inr (
            inr (
              ground (arith, eq_iff x.session_id c.session_id),
              ground (
                arith,
                eq_iff x.session_id c.session_id,
                eq_iff c.instance_id x.instance_id,
                eq_iff x.instance_id c.instance_id,
              ),
            ))
      ]
]

module _ (c : Connection) (w : World) (x : Connection) where
  register-Accounted :
      Accounted w x
      → Accounted
          (record w {
            key = (register c w.key).1;
            kicks = add_kick (register c w.key).0 w.kicks;
            registered = c ∷ w.registered;
          })
          x
  register-Accounted (inl e) = rw e (elim (displaced c x w.kicks) [
    | inl k ↦ inl k
    | inr (inl k) ↦ inr (inr (inl k))
    | inr (inr (session, instance_id)) ↦ inr (inr (inr (c, first, session, instance_id)))
  ])
  register-Accounted (inr (inl i)) = inr (inl i)
  register-Accounted (inr (inr (inl (k, i, closes)))) =
      inr (inr (inl (k, IsIn-add (register c w.key).0 k w.kicks i, closes)))
  register-Accounted (inr (inr (inr (d, i, session, away)))) =
      inr (inr (inr (d, later i, session, away)))

  unregister-Accounted :
      Accounted w x → Accounted (record w { key = unregister c w.key; ended = c ∷ w.ended }) x
  unfolding unregister
  unregister-Accounted (inl e) = elim (Bool-cases (is_same x c)) [
    | inl same ↦ inr (inl (subst (λ d. IsIn x (d ∷ w.ended)) (is_same-eq x c same) first))
    | inr other ↦ rw (e, other) (inl refl)
  ]
  unregister-Accounted (inr (inl i)) = inr (inl (later i))
  unregister-Accounted (inr (inr k)) = inr (inr k)

expire-Accounted :
    (w : World) (x : Connection)
    → Accounted w x
    → Accounted (record w { key = none; ended = add_ended w.key w.ended }) x
expire-Accounted w x (inl e) = rw e (inr (inl first))
expire-Accounted w x (inr (inl i)) = inr (inl (add w.key))
  where
    add : (o : Option Connection) → IsIn x (add_ended o w.ended)
    add none = i
    add (some d) = later i
expire-Accounted w x (inr (inr k)) = inr (inr k)

All-Accounted : (w : World) → Type 0
All-Accounted w = (x : Connection) → IsIn x w.registered → Accounted w x

Step-Accounted : {w u : World} → Step w u → All-Accounted w → All-Accounted u
unfolding All-Accounted register
Step-Accounted (registers c w) h x i = elim (IsIn-cases i) [
  | inl new ↦ inl (key (w.key) new)
  | inr old ↦ register-Accounted c w x (h x old)
]
  where
    key : (o : Option Connection) → x ≡ c → (register c o).1 ≡ some x
    key none e = ap (λ (d : Connection). some d) (sym e)
    key (some d) e = ap (λ (d : Connection). some d) (sym e)
Step-Accounted (unregisters c w) h x i = unregister-Accounted c w x (h x i)
Step-Accounted (expires w) h x i = expire-Accounted w x (h x i)

Reach-Accounted : {w u : World} → Reach w u → All-Accounted w → All-Accounted u
Reach-Accounted here h = h
Reach-Accounted (after_step r step) h = Step-Accounted step (Reach-Accounted r h)

abbrev pub no_connections : World
no_connections = record { key = none; kicks = []; ended = []; registered = [] }

-- However the gateways register, unregister and lose connections of a user: each connection that was
-- ever registered is the one under the key, or was given up by its own gateway or expired, or a
-- message was sent to its gateway that runs its callback there among whatever listeners, or its
-- session was registered by another gateway.
pub displaced_are_kicked :
    (w : World) (c : Connection)
    → Reach no_connections w
    → IsIn c w.registered
    → (w.key ≡ some c)
      ⊎ IsIn c w.ended
      ⊎ ((k : Kick) × IsIn k w.kicks × Closes c k)
      ⊎ ((d : Connection) × IsIn d w.registered
          × (d.session_id ≡ c.session_id)
          × (str_eq d.instance_id c.instance_id ≡ false))
unfolding All-Accounted
displaced_are_kicked w c r i = Reach-Accounted r (λ x j. elim j [ ]) c i
