-- ===== src/Sessions/Owner.antt =====
-- Which gateway owns a WebSocket session (server/pkg/redisstore/session_store.go), and how
-- `ServeHTTP` of server/internal/gateway/ws/handler.go takes one over.
use farm_server.Base.{
  ℕ, ◌+◌, ◌≤◌, ◌<◌, ◌≡◌, ◌≢◌, All, arith, Bool, true, false, ◌&&◌, String, List, [], ◌∷◌, Option,
  none, some, ◌==◌, str_eq, eq_iff, if◌then◌else◌,
}
use farm_server.Errors.{Result, ok, err, plain}
use farm_server.Sessions.{set_key}

pub data WsStatus : Type 0 where
  active handoff_pending : WsStatus

-- The hash `sess:{id}`. Before the first claim it has no owner.
pub record WsSession : Type 0 where
  pub user_id : ℕ
  pub farm_id : ℕ
  pub last_seq : ℕ
  pub owner_instance : Option String
  pub owner_epoch : ℕ
  pub status : WsStatus

-- The sessions, and the session id under each `ws:resume:{ticket}`.
pub record WsStore : Type 0 where
  pub sessions : String → Option WsSession
  pub tickets : String → Option String

abbrev pub epoch_of : Option WsSession → ℕ
epoch_of none = 0
epoch_of (some s) = s.owner_epoch

abbrev pub seq_of : Option WsSession → ℕ
seq_of none = 0
seq_of (some s) = s.last_seq

-- `Save`
unfoldable pub save : String → WsSession → WsStore → WsStore
save sid s w = record w { sessions = set_key sid (some s) w.sessions }

-- `claimSessionScript`
unfoldable pub claimed : ℕ → ℕ → String → Option WsSession → WsSession
claimed user farm instance_id old = record {
  user_id = user;
  farm_id = farm;
  last_seq = seq_of old;
  owner_instance = some instance_id;
  owner_epoch = epoch_of old + 1;
  status = active;
}

unfoldable pub claim : String → ℕ → ℕ → String → WsStore → ℕ × WsStore
unfolding claimed
claim sid user farm instance_id w = (
  epoch_of (w.sessions sid) + 1,
  record w {
    sessions = set_key sid (some (claimed user farm instance_id (w.sessions sid))) w.sessions;
  },
)

abbrev pub is_text : String → Option String → Bool
is_text x none = false
is_text x (some y) = str_eq y x

-- `handoffScript`, and whether it returned 1.
unfoldable pub begin_handoff : String → String → ℕ → String → WsStore → Bool × WsStore
begin_handoff sid instance_id epoch ticket w = elim (w.sessions sid) [
  | none ↦ (false, w)
  | some s ↦
      if is_text instance_id s.owner_instance && (s.owner_epoch == epoch)
      then (
        true,
        record {
          sessions = set_key sid (some (record s { status = handoff_pending })) w.sessions;
          tickets = set_key ticket (some sid) w.tickets;
        },
      )
      else (false, w)
]

-- `consumeResumeScript`
unfoldable pub consume_resume : String → String → WsStore → Bool × WsStore
consume_resume ticket sid w =
    if is_text sid (w.tickets ticket)
    then (true, record w { tickets = set_key ticket none w.tickets })
    else (false, w)

-- `UpdateLastSeq`: the hash is made where it is missing.
unfoldable pub update_last_seq : String → ℕ → WsStore → WsStore
update_last_seq sid seq w = elim (w.sessions sid) [
  | none ↦ record w {
    sessions =
        set_key sid
          (some (record {
            user_id = 0;
            farm_id = 0;
            last_seq = seq;
            owner_instance = none;
            owner_epoch = 0;
            status = active;
          }))
          w.sessions;
  }
  | some s ↦ record w { sessions = set_key sid (some (record s { last_seq = seq })) w.sessions }
]

-- `Delete`
unfoldable pub delete : String → WsStore → WsStore
delete sid w = record w { sessions = set_key sid none w.sessions }

-- A connection that is opened: the sequence number to go on from, and the owner's epoch.
abbrev pub takeover : String → ℕ → String → WsStore → Result (ℕ × ℕ) × WsStore
takeover sid user instance_id w =
    let (epoch, w') = claim sid user user instance_id w in (ok (seq_of (w.sessions sid), epoch), w')

-- The part of `ServeHTTP` between the check of the token and the upgrade.
unfoldable pub open_session :
    String → ℕ → String → Option String → WsStore → Result (ℕ × ℕ) × WsStore
open_session sid user instance_id none w = takeover sid user instance_id w
open_session sid user instance_id (some ticket) w =
    let (valid, w') = consume_resume ticket sid w in
    if valid then takeover sid user instance_id w' else (err plain, w')

-- What gateways do with the store, and the end of a ticket's and of a session's time to live; `Save`
-- and `Delete` are called by no gateway.
pub data Operation : Type 0 where
  opens : String → ℕ → String → Option String → Operation
  hands_off : String → String → ℕ → String → Operation
  numbers : String → ℕ → Operation
  ticket_expires : String → Operation
  session_expires : String → Operation

unfoldable pub after : Operation → WsStore → WsStore
after (opens sid user instance_id ticket) w = (open_session sid user instance_id ticket w).1
after (hands_off sid instance_id epoch ticket) w = (begin_handoff sid instance_id epoch ticket w).1
after (numbers sid seq) w = update_last_seq sid seq w
after (ticket_expires ticket) w = record w { tickets = set_key ticket none w.tickets }
after (session_expires sid) w = delete sid w

-- The operation is not the expiry of this session.
abbrev pub Leaves : String → Operation → Type 0
Leaves sid (session_expires expired) = expired ≢ sid
Leaves sid _ = Unit {0}

unfoldable pub run : List Operation → WsStore → WsStore
run [] w = w
run (o ∷ os) w = run os (after o w)

after-epoch :
    (o : Operation) (sid : String) (w : WsStore)
    → Leaves sid o
    → epoch_of (w.sessions sid) ≤ epoch_of ((after o w).sessions sid)
unfolding after open_session claim consume_resume begin_handoff update_last_seq delete
after-epoch (opens i user instance_id none) sid w keeps = ground (arith, eq_iff sid i)
after-epoch (opens i user instance_id (some ticket)) sid w keeps = ground (arith, eq_iff sid i)
after-epoch (hands_off i instance_id epoch ticket) sid w keeps = ground (arith, eq_iff sid i)
after-epoch (numbers i seq) sid w keeps = ground (arith, eq_iff sid i)
after-epoch (ticket_expires ticket) sid w keeps = omega arith
after-epoch (session_expires i) sid w keeps = ground (arith, keeps, eq_iff sid i)

run-epoch :
    (os : List Operation) (sid : String) (w : WsStore)
    → All (Leaves sid) os
    → epoch_of (w.sessions sid) ≤ epoch_of ((run os w).sessions sid)
unfolding run
run-epoch [] sid w keeps = omega arith
run-epoch (o ∷ os) sid w keeps =
    omega (arith, after-epoch o sid w keeps.0, run-epoch os sid (after o w) keeps.1)

open-epoch :
    (sid : String) (user : ℕ) (instance_id : String) (ticket : Option String) (w w' : WsStore)
    (seq epoch : ℕ)
    → open_session sid user instance_id ticket w ≡ (ok (seq, epoch), w')
    → epoch_of (w'.sessions sid) ≡ epoch
unfolding open_session claim consume_resume
open-epoch sid user instance_id none w w' seq epoch e = ground (arith, eq_iff sid sid)
open-epoch sid user instance_id (some ticket) w w' seq epoch e = ground (arith, eq_iff sid sid)

handoff-stale :
    (sid instance_id : String) (epoch : ℕ) (ticket : String) (w : WsStore)
    → epoch < epoch_of (w.sessions sid)
    → begin_handoff sid instance_id epoch ticket w ≡ (false, w)
unfolding begin_handoff
handoff-stale sid instance_id epoch ticket w h = ground arith

-- Once a gateway has opened a session at an epoch, and as long as the session does not expire, no
-- owner with a smaller epoch can hand it off or issue a resume ticket for it, whatever connections,
-- handoffs, acknowledgements and expiries of tickets and of other sessions follow: the attempt fails
-- and changes nothing.
pub stale_owner_cannot_hand_off :
    (sid : String) (user : ℕ) (instance_id : String) (ticket : Option String) (w w' : WsStore)
    (seq epoch : ℕ) (os : List Operation) (old_instance : String) (old_epoch : ℕ)
    (new_ticket : String)
    → open_session sid user instance_id ticket w ≡ (ok (seq, epoch), w')
    → old_epoch < epoch
    → All (Leaves sid) os
    → begin_handoff sid old_instance old_epoch new_ticket (run os w') ≡ (false, run os w')
stale_owner_cannot_hand_off sid user instance_id ticket w w' seq epoch os old old_epoch new_ticket e
      h keeps =
    handoff-stale sid old old_epoch new_ticket (run os w') (
      omega
        (arith, run-epoch os sid w' keeps, open-epoch sid user instance_id ticket w w' seq epoch e))
