-- ===== src/Tests/Friends.antt =====
-- Friendship across shards at concrete inputs.
use farm_server.Base.{ℕ, ◌≡◌, ◌≤◌, ◌≢◌, ◌%◌, refl, put, first, inl}
use farm_server.Social.{begin, apply_remote, confirm_source}
use farm_server.Social.Once.{announced, accepted, active_of}
use farm_server.Social.Shards.{
  Shards, here, after_step, no_friends, begins, applies, confirms, friendship_mutual,
}

-- Player 2 on shard 0 accepts an invitation of player 1 on shard 1.
abbrev home : ℕ → ℕ
home u = u % 2

abbrev requested : Shards
requested = put (home 2) (begin 2 1 "e1" (no_friends 0)).1 no_friends

abbrev applied : Shards
applied = put (home 1) (apply_remote 2 1 "e1" (requested 1)).1 requested

abbrev confirmed : Shards
confirmed = put (home 2) (confirm_source 2 1 "e1" (applied 0)).1 applied

friendship_mutual_example :
    (announced 2 1 (confirmed 0).outbox ≤ active_of ((confirmed 0).edges 2 1))
    × (active_of ((confirmed 0).edges 2 1) ≤ 1)
    × (accepted 2 1 (confirmed 0).outbox ≢ 0 → active_of ((confirmed 1).edges 1 2) ≡ 1)
unfolding begin apply_remote
friendship_mutual_example = friendship_mutual home confirmed 2 1 (
    after_step
      (after_step (after_step here (begins 2 1 "e1" no_friends))
        (applies 2 1 "e1" requested first (inl refl)))
      (confirms 2 1 "e1" applied first))

-- Both players ask each other at the same time: each request activates the other side's waiting
-- edge, both confirmations find their edge ACTIVE, and neither shard announces the friendship.
abbrev both_requested : Shards
both_requested = put (home 1) (begin 1 2 "e2" (requested 1)).1 requested

abbrev crossed : Shards
crossed =
    put (home 2) (apply_remote 1 2 "e2" (both_requested 0)).1
      (put (home 1) (apply_remote 2 1 "e1" (both_requested 1)).1 both_requested)

abbrev settled : Shards
settled =
    put (home 1) (confirm_source 1 2 "e2" (crossed 1)).1
      (put (home 2) (confirm_source 2 1 "e1" (crossed 0)).1 crossed)

crossing_unannounced :
    (active_of ((settled 0).edges 2 1) ≡ 1)
    × (active_of ((settled 1).edges 1 2) ≡ 1)
    × (accepted 2 1 (settled 0).outbox ≡ 0)
    × (accepted 1 2 (settled 1).outbox ≡ 0)
unfolding begin apply_remote confirm_source accepted
crossing_unannounced = (refl, refl, refl, refl)
