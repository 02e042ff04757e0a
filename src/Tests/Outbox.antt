-- ===== src/Tests/Outbox.antt =====
-- The relay and the consumer of events at concrete inputs.
use farm_server.Base.{
  ℕ, ◌+◌, ◌-◌, min, ◌≡◌, refl, arith, true, false, none, some, Option, String, List, [], ◌∷◌, IsIn,
  first, length, ◌++◌, ◌==◌, if◌then◌else◌,
}
use farm_server.Errors.{plain, is_duplicate_key}
use farm_server.Farm.Crops.{crop_id_to_item_id}
use farm_server.Farm.Apply.{stolen}
use farm_server.Store.{OutboxRow, EventHead, farm_stolen, id_text, crop_item, quantity}
use farm_server.Relay.{
  Entry, Config, Claimed, message, reclaim_stale, default_config, claimed, lock, batch, claim_batch,
  set_published, scan_ok,
}
use farm_server.Relay.Scan.{publish_one, scan_and_publish}
use farm_server.Relay.Workers.{
  Workers, as_worker, new_entry, Reach, idle_workers, published-IsIn, inserts, claims, publishes,
  here, after_step,
}
use farm_server.Relay.Refinement.{scan-Reach}
use farm_server.Relay.Claims.{count, backlog, is_published}
use farm_server.Relay.Drain.{no_faults, working, scan_drains}
use farm_server.Consumer.{KafkaMessage, Consumer, Attempt, Verdict, Fetched, try_from, run}
use farm_server.Consumer.Delivery.{AllSettled, run-AllSettled, try_from-some}
use farm_server.Consumer.Steal.{
  credit_cross_shard_steal, Pools, handle, saved, rolled_back, saved_unknown,
}
use farm_server.Consumer.Steal.Once.{IsRemoteTheft, deliver_all, stolen_credited_once}
use farm_server.Shard.{shard_for_user_id}
use farm_server.Commit.Assets.{insert_economy_transaction, add_inventory_item, find_row}
use farm_server.Tests.Data.{test_env, test_db, now}

-- Player 2, on shard "a", has stolen from player 1, on shard "b".
abbrev theft_head : EventHead
theft_head = record {
  farm_id = 1;
  owner_user_id = 1;
  actor_user_id = 2;
  farm_version = 4;
  plot_id = 7;
  cmd_id = "c1";
}

abbrev theft_row : OutboxRow
theft_row = record {
  event_id = "e1";
  event_type = stolen;
  aggregate_id = 1;
  correlation_id = "c1";
  payload = farm_stolen theft_head (id_text 1) (id_text 2) "WHEAT" 1 4 now;
  available_at = now;
}

abbrev events : ℕ → OutboxRow
events id = theft_row

abbrev config : Config
config = default_config "w1"

abbrev start : Workers
start = idle_workers config events

abbrev inserted : Workers
inserted = record start { relay = record { entries = new_entry 1 theft_row ∷ []; bus = [] } }

abbrev taken : Workers
taken = record {
  relay = record inserted.relay {
    entries = (claim_batch (as_worker config "w1") no_faults now inserted.relay.entries).1;
  };
  held = batch (as_worker config "w1") no_faults now inserted.relay.entries ++ [];
  sent = [];
}

abbrev done : Workers
done = record taken {
  relay =
      (publish_one (as_worker config "w1") no_faults working now (claimed (new_entry 1 theft_row))
        taken.relay).1;
}

done-reached : Reach config events start done
unfolding claim_batch
done-reached =
    after_step (after_step (after_step here (inserts 1 start)) (claims "w1" no_faults now inserted))
      (publishes "w1" no_faults working now (claimed (new_entry 1 theft_row)) taken first)

abbrev sent_entry : Entry
sent_entry = set_published now (lock (as_worker config "w1") now (new_entry 1 theft_row))

published-IsIn_example :
    (theft_row ≡ theft_row)
    × IsIn (record { topic = "farm-events"; event = theft_row }) done.relay.bus
unfolding claim_batch publish_one
published-IsIn_example = published-IsIn config events done sent_entry done-reached first refl

scan-Reach_example :
    (u : Workers) × Reach config events inserted u
    × (u.relay ≡ (scan_and_publish (as_worker config "w2") no_faults working now inserted.relay).1)
scan-Reach_example = scan-Reach config events "w2" no_faults working now inserted

scan_drains_example :
    ((scan_and_publish config no_faults working now inserted.relay).0
      ≡ scan_ok (min 50 (backlog now inserted.relay)))
    × (backlog now (scan_and_publish config no_faults working now inserted.relay).1
        ≡ backlog now inserted.relay - 50)
    × (count is_published (scan_and_publish config no_faults working now inserted.relay).1.entries
        ≡ count is_published inserted.relay.entries + min 50 (backlog now inserted.relay))
    × ((c : Claimed)
        → IsIn c (batch config no_faults now (reclaim_stale now inserted.relay.entries))
        → IsIn
            (message config c)
            (scan_and_publish config no_faults working now inserted.relay).1.bus)
    × (length (batch config no_faults now (reclaim_stale now inserted.relay.entries))
        ≡ min 50 (backlog now inserted.relay))
scan_drains_example = scan_drains config now 0 inserted.relay (omega arith, tt)

-- A consumer that counts: its projector fails at the first attempt on each message.
abbrev attempts : ℕ → Attempt ℕ
attempts n = record {
  resolve_fails = false;
  check_fails = false;
  handle = λ row store. (if n == 1 then some plain else none, store + 1);
  mark_fails = false;
  cancelled = false;
}

abbrev consumer : Consumer ℕ
consumer = record { store = 0; consumed = []; failures = []; committed = [] }

abbrev good_message : KafkaMessage
good_message = record { offset = 11; envelope = some theft_row }

abbrev bad_message : KafkaMessage
bad_message = record { offset = 12; envelope = none }

abbrev fetched : List (Fetched ℕ)
fetched =
    record { message = good_message; attempts = attempts; answers = []; commits = true }
    ∷ record {
      message = bad_message;
      attempts = attempts;
      answers = false ∷ true ∷ [];
      commits = true;
    }
    ∷ []

run-AllSettled_example : AllSettled (run 5 fetched consumer)
run-AllSettled_example = run-AllSettled 5 fetched consumer tt

try_from-some_example :
    (out : Verdict × Consumer ℕ) × (try_from 5 5 [] attempts good_message 1 consumer ≡ some out)
try_from-some_example = try_from-some 4 5 [] attempts good_message 1 consumer (omega arith)

abbrev same_id : String → Option String
same_id id = some id

abbrev shards : List String
shards = "a" ∷ "b" ∷ []

abbrev pools : Pools
pools name = test_db

remote_theft : IsRemoteTheft test_env same_id shards theft_row
unfolding shard_for_user_id
remote_theft = record {
  head = theft_head;
  owner_name = id_text 1;
  actor_name = id_text 2;
  crop = "WHEAT";
  amount = 1;
  remaining = 4;
  at = now;
  payload = refl;
  event_id = "e1";
  key = "e1";
  normalized = refl;
  stored = refl;
  owner_shard = "b";
  actor_shard = "a";
  owner_at = refl;
  actor_at = refl;
  remote = refl;
  has_owner = refl;
  has_actor = refl;
  has_asset = refl;
}

stolen_credited_once_example :
    quantity
      (deliver_all test_env same_id shards theft_row remote_theft
        (saved_unknown ∷ rolled_back ∷ saved ∷ [])
        pools
        "a")
      2
      crop_item
      (crop_id_to_item_id "WHEAT")
    ≡ quantity test_db 2 crop_item (crop_id_to_item_id "WHEAT") + 1
unfolding handle credit_cross_shard_steal insert_economy_transaction add_inventory_item find_row
    is_duplicate_key shard_for_user_id quantity remote_theft
stolen_credited_once_example =
    stolen_credited_once test_env same_id shards theft_row remote_theft
      (saved_unknown ∷ rolled_back ∷ saved ∷ []) pools refl refl
