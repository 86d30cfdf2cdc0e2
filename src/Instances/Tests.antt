-- ===== src/Instances/Tests.antt =====
-- An assignment to the hub at given inputs.
use game_gardens_of_karaxas.Base.{
  ◌≡◌, refl, true, none, some, [], ◌∷◌, arith, ◌==◌, nat_equality, string_equality, pair_equality,
  option_equality, first_where, count_where, micros,
}
use game_gardens_of_karaxas.Models.{UserSession, new_session}
use game_gardens_of_karaxas.Base.Decimal.{decimal}
use game_gardens_of_karaxas.Instances.{
  WorldInstance, InstanceTables, expire_stale_instances, resolve_instance_descriptor,
  hub_instance_id, Entry, instance_by_id, is_inside, moved_session, assign_session_world_instance,
}
use game_gardens_of_karaxas.Instances.Assign.{place_of, assign_stays}

abbrev player : UserSession
player = new_session "a" 1 (micros 100000)

abbrev tables : InstanceTables
tables = record { instances = []; members = []; sessions = player ∷ []; assignments = [] }

abbrev to_hub : Entry
to_hub = record {
  user_id = 1;
  character_id = 3;
  level_id = 4;
  party_id = none;
  is_hub_level = true;
}

hub_id : (place_of to_hub).0 ≡ "hub-l4"
unfolding resolve_instance_descriptor hub_instance_id decimal
hub_id = refl

assign_stays_example :
    (let (first, after) = assign_session_world_instance (micros 10) player to_hub tables in
      let (expired, kept) = expire_stale_instances (micros 20) after in
      let moved = moved_session (place_of to_hub).0 to_hub player in
      (i : WorldInstance) × (instance_by_id first.instance_id kept.instances ≡ some i)
      × (i.status ≡ "active")
      × (i.level_id ≡ some 4)
      × (count_where (is_inside first.instance_id 1) kept.members ≡ 1)
      × (first_where (λ (s : UserSession). s.id == "a") kept.sessions ≡ some moved)
      × ((assign_session_world_instance (micros 30) moved to_hub kept).0.restored ≡ true)
      × ((assign_session_world_instance (micros 30) moved to_hub kept).0.instance_id
          ≡ first.instance_id))
unfolding resolve_instance_descriptor
assign_stays_example =
    assign_stays (micros 10) (micros 20) (micros 30) player player to_hub tables (omega arith) refl
      (omega arith)
