-- ===== src/Social.antt =====
-- Friendship across shards, as one shard sees it
-- (server/internal/social/infrastructure/friend_edge_saga.go and friend_edge_compensator.go). Each
-- operation is one transaction; display names and times are left out.
pub mod Once
pub mod Shards
use farm_server.Base.{
  ℕ, Bool, true, false, ◌&&◌, ◌||◌, List, [], ◌∷◌, Option, none, some, String, str_eq, ◌==◌,
  if◌then◌else◌,
}
use farm_server.Errors.{Error, plain}

pub data EdgeState : Type 0 where
  pending active failed : EdgeState

-- A row of `friendship_edges`.
pub record Edge : Type 0 where
  pub state : EdgeState
  pub source_event : Option String

-- The events of the saga: a request of a source for a target, its acknowledgement by the target's
-- shard, and the public event with inviter and accepter.
pub data SocialEvent : Type 0 where
  edge_requested : String → ℕ → ℕ → SocialEvent
  edge_applied : String → ℕ → ℕ → SocialEvent
  friend_accepted : ℕ → ℕ → SocialEvent

-- The edges by user and friend, the unique index on `source_event_id`, and the outbox.
pub record Social : Type 0 where
  pub edges : ℕ → ℕ → Option Edge
  pub index : String → Option (ℕ × ℕ)
  pub outbox : List SocialEvent

abbrev pub set_edge : ℕ → ℕ → Edge → Social → Social
set_edge user friend e s = record s {
  edges = λ u f. if u == user && f == friend then some e else s.edges u f;
}

abbrev pub insert_edge : ℕ → ℕ → EdgeState → String → Social → Social
insert_edge user friend state id s =
    record (set_edge user friend (record { state = state; source_event = some id }) s) {
      index = λ i. if str_eq i id then some (user, friend) else s.index i;
    }

abbrev pub emit : SocialEvent → Social → Social
emit e s = record s { outbox = e ∷ s.outbox }

abbrev pub is_invalid : ℕ → ℕ → String → Bool
is_invalid source target id = source == 0 || target == 0 || source == target || str_eq id ""

-- The first INSERT of `Begin`: any row with the pair or with the event's id makes it do nothing.
abbrev pub insert_pending : ℕ → ℕ → String → Option Edge → Option (ℕ × ℕ) → Social → Social
insert_pending source target id none none s = insert_edge source target pending id s
insert_pending source target id _ _ s = s

unfoldable pub has_request : String → List SocialEvent → Bool
has_request id [] = false
has_request id (edge_requested i source target ∷ es) =
    if str_eq i id then true else has_request id es
has_request id (edge_applied i source target ∷ es) = has_request id es
has_request id (friend_accepted inviter accepter ∷ es) = has_request id es

abbrev pub request : ℕ → ℕ → Option String → Social → Social → Option Error × Social
request source target none before s = (some plain, before)
request source target (some id) before s =
    if str_eq id ""
    then (some plain, before)
    else if has_request id s.outbox
    then (none, s)
    else (none, emit (edge_requested id source target) s)

abbrev pub begin_state : ℕ → ℕ → EdgeState → Option String → Social → Social → Option Error × Social
begin_state source target active id before s = (none, s)
begin_state source target pending id before s = request source target id before s
begin_state source target failed id before s = (some plain, before)

abbrev pub begin_locked : ℕ → ℕ → Option Edge → Social → Social → Option Error × Social
begin_locked source target none before s = (some plain, before)
begin_locked source target (some e) before s =
    begin_state source target e.state e.source_event before s

-- `Begin`: the request is sent with the id that is stored.
unfoldable pub begin : ℕ → ℕ → String → Social → Option Error × Social
unfolding has_request
begin source target id s =
    let inserted = insert_pending source target id (s.edges source target) (s.index id) s in
    if is_invalid source target id
    then (some plain, s)
    else begin_locked source target (inserted.edges source target) s inserted

-- `ON DUPLICATE KEY UPDATE` on one row, with the acknowledgement where the row changes.
abbrev pub activate : ℕ → ℕ → String → ℕ → ℕ → Option Edge → Social → Social
activate source target id user friend none s = s
activate source target id user friend (some e) s = elim e.state [
  | pending ↦
      emit (edge_applied id source target) (set_edge user friend (record e { state = active }) s)
  | active ↦ s
  | failed ↦ s
]

abbrev pub upsert : ℕ → ℕ → String → Option Edge → Option (ℕ × ℕ) → Social → Social
upsert source target id (some e) other s = activate source target id target source (some e) s
upsert source target id none none s =
    emit (edge_applied id source target) (insert_edge target source active id s)
upsert source target id none (some (user, friend)) s =
    activate source target id user friend (s.edges user friend) s

-- `ApplyRemote`, in the target's shard.
unfoldable pub apply_remote : ℕ → ℕ → String → Social → Option Error × Social
apply_remote source target id s =
    if is_invalid source target id
    then (some plain, s)
    else (none, upsert source target id (s.edges target source) (s.index id) s)

abbrev pub has_source : String → Option String → Bool
has_source id none = false
has_source id (some i) = str_eq i id

abbrev pub confirm_edge : ℕ → ℕ → Edge → Social → Option Error × Social
confirm_edge source target e s = elim e.state [
  | pending ↦ (
    none,
    emit (friend_accepted target source) (set_edge source target (record e { state = active }) s),
  )
  | active ↦ (none, s)
  | failed ↦ (some plain, s)
]

abbrev pub confirm_found : ℕ → ℕ → String → Option Edge → Social → Option Error × Social
confirm_found source target id none s = (some plain, s)
confirm_found source target id (some e) s =
    if has_source id e.source_event then confirm_edge source target e s else (some plain, s)

-- `ConfirmSource`, in the source's shard.
unfoldable pub confirm_source : ℕ → ℕ → String → Social → Option Error × Social
confirm_source source target id s =
    if is_invalid source target id
    then (some plain, s)
    else confirm_found source target id (s.edges source target) s

-- `CompensateDeadRequests`: which requests are DEAD in the outbox, and which of the candidates the
-- bounded query picks, comes from outside.
abbrev pub fail_edge : (String → Bool) → Bool → Option Edge → Option Edge
fail_edge dead chosen none = none
fail_edge dead chosen (some e) = elim e.state [
  | active ↦ some e
  | failed ↦ some e
  | pending ↦ elim e.source_event [
    | none ↦ some e
    | some id ↦ if dead id && chosen then some (record e { state = failed }) else some e
  ]
]

unfoldable pub compensate_dead_requests : (String → Bool) → (ℕ → ℕ → Bool) → Social → Social
compensate_dead_requests dead chosen s = record s {
  edges = λ u f. fail_edge dead (chosen u f) (s.edges u f);
}
