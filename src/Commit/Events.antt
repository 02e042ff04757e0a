-- ===== src/Commit/Events.antt =====
-- The outbox event of a farm command: `buildPayload`, `loadDisplayNames`, `displayName` and
-- `insertOutbox` of server/internal/farm/infrastructure/committer_mysql.go.
use farm_server.Base.{ℕ, String, ◌∷◌, none, some, if◌then◌else◌}
use farm_server.Farm.{Time, Snapshot, Command}
use farm_server.Farm.Apply.{EventType, planted, harvested, watered, stolen, ApplyResult}
use farm_server.Store.{
  Env, DisplayName, named, id_text, EventHead, Payload, farm_planted, farm_harvested, farm_watered,
  farm_stolen, OutboxRow, Db,
}

-- A failed query and a blank name fall back to the id.
pub load_display_name : Env → ℕ → Db → DisplayName
load_display_name env user db = elim (db.accounts user) [
  | none ↦ id_text user
  | some name ↦ if env.is_blank name then id_text user else named name
]

event_head : Snapshot → Command → ApplyResult → EventHead
event_head s cmd ar = record {
  farm_id = s.farm_id;
  owner_user_id = s.owner_id;
  actor_user_id = cmd.actor_user;
  farm_version = s.version;
  plot_id = ar.changed_plot.plot_id;
  cmd_id = cmd.cmd_id;
}

unfoldable pub build_payload :
    Env → Snapshot → Command → ApplyResult → Time → Db → EventType → Payload
unfolding event_head
build_payload env s cmd ar now db planted =
    farm_planted (event_head s cmd ar) ar.changed_plot.crop_id ar.changed_plot.planted_at
      ar.changed_plot.mature_at
build_payload env s cmd ar now db harvested =
    farm_harvested (event_head s cmd ar) ar.harvested_crop_id ar.harvested_yield ar.harvest_mode now
build_payload env s cmd ar now db watered = farm_watered (event_head s cmd ar) now
build_payload env s cmd ar now db stolen =
    farm_stolen (event_head s cmd ar) (load_display_name env s.owner_id db)
      (load_display_name env cmd.actor_user db) ar.harvested_crop_id ar.stolen_amount
      ar.remaining_yield now

unfoldable pub outbox_row : Env → String → Snapshot → Command → ApplyResult → Time → Db → OutboxRow
outbox_row env event_id s cmd ar now db = record {
  event_id = event_id;
  event_type = ar.event_type;
  aggregate_id = s.farm_id;
  correlation_id = cmd.cmd_id;
  payload = build_payload env s cmd ar now db ar.event_type;
  available_at = now;
}

unfoldable pub insert_outbox : Env → String → Snapshot → Command → ApplyResult → Time → Db → Db
insert_outbox env event_id s cmd ar now db = record db {
  outbox = outbox_row env event_id s cmd ar now db ∷ db.outbox;
}
