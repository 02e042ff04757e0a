-- ===== src/Tests/Sessions.antt =====
-- Login sessions and connections at concrete inputs.
use farm_server.Base.{
  ◌≡◌, ◌≢◌, ◌⊎◌, inl, refl, arith, false, Bool, String, List, [], ◌∷◌, none, some, IsIn, first,
  later, eq_iff, str_eq, if◌then◌else◌,
}
use farm_server.Errors.{ok, err, coded, auth_unauthorized}
use farm_server.Sessions.{
  Redis, refresh_session, logout, create, rotate, replace_token, bound_user, after_rotation,
}
use farm_server.Sessions.Spent
use farm_server.Sessions.Spent.{creates, session_expires, spent_token_refused}
use farm_server.Sessions.Owner
use farm_server.Sessions.Owner.{WsStore, open_session, begin_handoff, stale_owner_cannot_hand_off}
use farm_server.Sessions.Connection
use farm_server.Sessions.Connection.{Connection, Kick, Closes, no_connections, displaced_are_kicked}

-- Player 7 logs in and refreshes the session once.
abbrev no_keys : Redis
no_keys = record { sessions = λ sid. none; refresh = λ h. none }

abbrev same : String → String
same token = token

abbrev never_blank : String → Bool
never_blank t = false

abbrev logged_in : Redis
logged_in = create "s" "t1" 7 no_keys

abbrev refreshed : Redis
refreshed = (refresh_session same never_blank "s" "t1" "t2" logged_in).1

refreshed-ok : refresh_session same never_blank "s" "t1" "t2" logged_in ≡ (ok 7, refreshed)
unfolding refresh_session create rotate replace_token bound_user after_rotation
refreshed-ok = refl

abbrev later_login : List Spent.Operation
later_login = creates "u" "t3" 8 ∷ session_expires "s" ∷ []

abbrev at_the_end : Redis
at_the_end = Spent.run same never_blank later_login refreshed

spent_token_refused_example :
    (refresh_session same never_blank "u" "t1" "t4" at_the_end
      ≡ (err (coded auth_unauthorized), at_the_end))
    × ((logout same never_blank "u" "t1" at_the_end).0 ≢ ok tt)
spent_token_refused_example =
    spent_token_refused same never_blank "s" "t1" "t2" 7 logged_in refreshed later_login "u" "t4"
      (inl refreshed-ok) (λ e. ground (arith, eq_iff "t2" "t1"))
      ((λ e. ground (arith, eq_iff "t3" "t1")), (tt, tt))

-- Gateway "g2" takes over the session that "g1" owned at epoch 1.
abbrev no_ws : WsStore
no_ws = record { sessions = λ sid. none; tickets = λ t. none }

abbrev first_open : WsStore
first_open = (open_session "s" 7 "g1" none no_ws).1

abbrev second_open : WsStore
second_open = (open_session "s" 7 "g2" none first_open).1

second_open-ok : open_session "s" 7 "g2" none first_open ≡ (ok (0, 2), second_open)
unfolding open_session Owner.claim
second_open-ok = refl

stale_owner_cannot_hand_off_example :
    begin_handoff "s" "g1" 1 "ticket"
      (Owner.run (Owner.numbers "s" 5 ∷ Owner.session_expires "u" ∷ []) second_open)
    ≡ (false, Owner.run (Owner.numbers "s" 5 ∷ Owner.session_expires "u" ∷ []) second_open)
stale_owner_cannot_hand_off_example =
    stale_owner_cannot_hand_off "s" 7 "g2" none first_open second_open 0 2
      (Owner.numbers "s" 5 ∷ Owner.session_expires "u" ∷ []) "g1" 1 "ticket" second_open-ok
      (omega arith) (tt, ((λ e. ground (arith, e, eq_iff "u" "s")), tt))

-- A second session of the user, on another gateway.
abbrev conn : String → Connection
conn g = record { instance_id = g; session_id = if str_eq g "g1" then "c" else "d" }

abbrev registered_by : Connection → Connection.World → Connection.World
registered_by c w = record w {
  key = (Connection.register c w.key).1;
  kicks = Connection.add_kick (Connection.register c w.key).0 w.kicks;
  registered = c ∷ w.registered;
}

abbrev both : Connection.World
both = registered_by (conn "g2") (registered_by (conn "g1") no_connections)

displaced_are_kicked_example :
    (both.key ≡ some (conn "g1"))
    ⊎ IsIn (conn "g1") both.ended
    ⊎ ((k : Kick) × IsIn k both.kicks × Closes (conn "g1") k)
    ⊎ ((d : Connection) × IsIn d both.registered
        × (d.session_id ≡ "c")
        × (str_eq d.instance_id "g1" ≡ false))
displaced_are_kicked_example =
    displaced_are_kicked both (conn "g1")
      (Connection.after_step
        (Connection.after_step Connection.here (Connection.registers (conn "g1") no_connections))
        (Connection.registers (conn "g2") (registered_by (conn "g1") no_connections)))
      (later first)
