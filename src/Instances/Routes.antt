-- ===== src/Instances/Routes.antt =====
-- backend/app/api/routes/instances.py: the instance of the session of a request, and its heartbeat. The
-- expiry that `current_instance` makes is not committed there; it is what the answer is read from.
use game_gardens_of_karaxas.Base.{
  ℕ, String, Option, none, some, List, ◌==◌, nat_equality, string_equality, pair_equality,
  option_equality, if◌then◌else◌, is_none, update_where,
}
use game_gardens_of_karaxas.Base.Text.{is_empty}
use game_gardens_of_karaxas.Models.{UserSession}
use game_gardens_of_karaxas.Instances.{
  WorldInstance, WorldInstanceMember, InstanceTables, expire_stale_instances, instance_by_id,
  is_inside,
}

abbrev found_instance : Option String → List WorldInstance → Option WorldInstance
found_instance none instances = none
found_instance (some id) instances = if is_empty id then none else instance_by_id id instances

-- the row of the answer, if any
unfoldable pub current_instance :
    ℕ → UserSession → InstanceTables → Option WorldInstance × InstanceTables
current_instance now session db =
    let (expired, after) = expire_stale_instances now db in
    (found_instance session.current_instance_id after.instances, after)

pub data Heartbeat : Type 0 where
  no_instance : Heartbeat
  missing_instance : String → Heartbeat
  beat : String → ℕ → Heartbeat

-- the writes of a heartbeat
unfoldable pub touch_instance : ℕ → String → UserSession → InstanceTables → InstanceTables
touch_instance now id session db = record db {
  instances =
      update_where (λ (i : WorldInstance). i.id == id)
        (λ (i : WorldInstance). record i { last_active_at = now }) db.instances;
  members =
      update_where (is_inside id session.user_id)
        (λ (m : WorldInstanceMember). record m { last_seen_at = now; session_id = some session.id })
        db.members;
}

unfoldable pub heartbeat_at : ℕ → String → UserSession → InstanceTables → Heartbeat × InstanceTables
heartbeat_at now id session db =
    if is_none (instance_by_id id db.instances)
    then (missing_instance id, db)
    else (beat id now, touch_instance now id session db)

unfoldable pub heartbeat : ℕ → UserSession → InstanceTables → Heartbeat × InstanceTables
heartbeat now session db = elim session.current_instance_id [
  | none ↦ (no_instance, db)
  | some id ↦ if is_empty id then (no_instance, db) else heartbeat_at now id session db
]
