-- ===== src/Gateway.antt =====
-- The viewers of farms on one gateway: `Hub` of server/internal/gateway/ws/hub.go, and the
-- subscriptions to the farms' channels that its hooks drive (`Subscriber` of
-- server/internal/farm/realtime/bus.go). A connection is a number. A call of the hub is one step,
-- its hooks included; the Pub/Sub connection is open.
pub mod Viewers
use farm_server.Base.{
  ℕ, suc, ◌+◌, ◌-◌, Bool, true, false, not, ◌&&◌, List, [], ◌∷◌, Option, none, some, ltb, leb, ◌==◌,
  if◌then◌else◌, put,
}

abbrev pub max_guest_viewers : ℕ
max_guest_viewers = 5

-- `viewers` and `conn_farm` are the maps of the hub, a missing set being empty; `cursors` are the
-- farm and version that each connection has installed; the rest is the subscriber.
pub record Gateway : Type 0 where
  pub viewers : ℕ → List ℕ
  pub conn_farm : ℕ → Option ℕ
  pub cursors : ℕ → ℕ × ℕ
  pub refs : ℕ → ℕ
  pub timers : ℕ → Bool
  pub channels : ℕ → Bool

abbrev pub is_on : ℕ → Option ℕ → Bool
is_on farm none = false
is_on farm (some f) = f == farm

unfoldable pub remove : ℕ → List ℕ → List ℕ
remove c [] = []
remove c (d ∷ ds) = let rest = remove c ds in if d == c then rest else d ∷ rest

abbrev pub is_empty : List ℕ → Bool
is_empty [] = true
is_empty (c ∷ cs) = false

-- The viewers who are not the owner, by the user of each connection.
unfoldable pub guests : (ℕ → ℕ) → ℕ → List ℕ → ℕ
guests user farm [] = 0
guests user farm (c ∷ cs) =
    let rest = guests user farm cs in if user c == farm then rest else suc rest

-- `Subscriber.Subscribe`
unfoldable pub subscribe_channel : ℕ → Gateway → Gateway
subscribe_channel farm s = record s {
  timers = put farm false s.timers;
  refs = put farm (s.refs farm + 1) s.refs;
  channels = if s.refs farm + 1 == 1 then put farm true s.channels else s.channels;
}

-- `Subscriber.Unsubscribe`
unfoldable pub unsubscribe_channel : ℕ → Gateway → Gateway
unsubscribe_channel farm s =
    if ltb 1 (s.refs farm)
    then record s { refs = put farm (s.refs farm - 1) s.refs }
    else record s { refs = put farm 0 s.refs; timers = put farm true s.timers }

-- The end of the delay that `Unsubscribe` has started.
unfoldable pub timer_fires : ℕ → Gateway → Gateway
timer_fires farm s =
    if s.timers farm
    then record s {
      timers = put farm false s.timers;
      channels = if s.refs farm == 0 then put farm false s.channels else s.channels;
    }
    else s

-- `open` after a lost connection: the channels that still have viewers.
unfoldable pub reopen : Gateway → Gateway
reopen s = record s { channels = λ f. ltb 0 (s.refs f) }

-- `onFirst` and `onLast` are called for a farm id that is not zero.
abbrev pub on_first : ℕ → Gateway → Gateway
on_first farm s = if farm == 0 then s else subscribe_channel farm s

abbrev pub on_last : ℕ → Gateway → Gateway
on_last farm s = if farm == 0 then s else unsubscribe_channel farm s

abbrev pub gone : ℕ → ℕ → Gateway → Gateway
gone c old s = record s {
  viewers = put old (remove c (s.viewers old)) s.viewers;
  conn_farm = put c none s.conn_farm;
}

abbrev pub leave : ℕ → Option ℕ → Gateway → Gateway
leave c none s = s
leave c (some old) s =
    if is_empty (remove c (s.viewers old)) then on_last old (gone c old s) else gone c old s

abbrev pub entered : ℕ → ℕ → ℕ → Gateway → Gateway
entered farm version c s = record s {
  viewers = put farm (c ∷ s.viewers farm) s.viewers;
  conn_farm = put c (some farm) s.conn_farm;
  cursors = put c (farm, version) s.cursors;
}

unfoldable pub enter : ℕ → ℕ → ℕ → Gateway → Gateway
enter farm version c s =
    if is_empty (s.viewers farm)
    then on_first farm (entered farm version c s)
    else entered farm version c s

-- `Unsubscribe`
unfoldable pub unsubscribe : ℕ → Gateway → Gateway
unfolding subscribe_channel unsubscribe_channel remove
unsubscribe c s = leave c (s.conn_farm c) s

-- `Subscribe`: whether the connection is let in. The old farm is left only then.
unfoldable pub subscribe : (ℕ → ℕ) → ℕ → ℕ → ℕ → Gateway → Bool × Gateway
unfolding unsubscribe enter guests
subscribe user farm version c s =
    if is_on farm (s.conn_farm c)
    then (true, record s { cursors = put c (farm, version) s.cursors })
    else if not (user c == farm) && leb max_guest_viewers (guests user farm (s.viewers farm))
    then (false, s)
    else (true, enter farm version c (unsubscribe c s))
