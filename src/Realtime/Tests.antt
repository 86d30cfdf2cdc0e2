-- ===== src/Realtime/Tests.antt =====
-- A hub with two players at given inputs.
use game_gardens_of_karaxas.Base.{
  ℕ, ◌≤◌, ◌≡◌, ◌↔◌, ◌⊎◌, refl, Bool, true, false, not, ◌&&◌, ◌||◌, none, some, [], ◌∷◌, arith, ◌==◌,
  nat_equality, string_equality, pair_equality, option_equality, length,
}
use game_gardens_of_karaxas.Base.Dict.{get, put, remove}
use game_gardens_of_karaxas.Realtime.{
  ConnectionMeta, RealtimeHub, Scope, contains, bucket, set_add, index_add, index_discard, join,
  rescope, rescope_known, updated_meta, move_presence,
}
use game_gardens_of_karaxas.Realtime.Delivery.{sockets_for_zone, disconnect, update_zone_scope}
use game_gardens_of_karaxas.Realtime.Consistent.{
  IsConsistent, Reaches, at_start, has_joined, Reaches-IsConsistent, sockets_for_zone_lem,
}
use game_gardens_of_karaxas.Realtime.Ends.{disconnect-Ends}
use game_gardens_of_karaxas.Realtime.Moves.{update_zone_scope_lem}

abbrev in_hub : ℕ → ConnectionMeta
in_hub user = record {
  user_id = user;
  channel_id = some 9;
  client_version = "1.0.0";
  zone_level_id = some 5;
  instance_id = none;
  party_id = none;
  is_hub_zone = true;
  adjacent_level_ids = [];
  allow_adjacent_preview = true;
}

abbrev empty : RealtimeHub
empty = record {
  channels = [];
  users = [];
  zones = [];
  meta = [];
  hub_presence = [];
  sent = [];
  zone_broadcasts = [];
}

abbrev first : RealtimeHub
first = (join 1 (in_hub 1) empty).0

abbrev both : RealtimeHub
both = (join 2 (in_hub 2) first).0

both-Reaches : Reaches both
unfolding join get put
both-Reaches = has_joined 2 (in_hub 2) first (has_joined 1 (in_hub 1) empty at_start refl) refl

both-IsConsistent : IsConsistent both
both-IsConsistent = Reaches-IsConsistent both both-Reaches

abbrev never : ℕ → Bool
never s = false

disconnect-Ends_example :
    (after : RealtimeHub) × (disconnect 2 never 1 both ≡ some after)
    × IsConsistent after
    × (length after.meta ≤ length both.meta)
    × (get 1 after.meta ≡ none)
    × ((t : ℕ)
        → (get t after.meta ≡ get t both.meta)
          ⊎ ((get t after.meta ≡ none) × (((t == 1) || not (never t)) ≡ true)))
unfolding join put
disconnect-Ends_example = disconnect-Ends never 2 1 both both-IsConsistent (omega arith)

abbrev field : Scope
field = record {
  zone_level_id = some 6;
  adjacent_level_ids = 5 ∷ 0 ∷ 5 ∷ [];
  is_hub_zone = false;
  allow_adjacent_preview = true;
}

abbrev only_first : ℕ → Bool
only_first s = s == 1

update_zone_scope_lem_example :
    (after : RealtimeHub) × (moved : ConnectionMeta) × (update_zone_scope 2 only_first 1 field both
      ≡ some after)
    × IsConsistent after
    × (get 1 after.meta ≡ some moved)
    × (moved.user_id ≡ 1)
    × (moved.channel_id ≡ some 9)
    × (moved.zone_level_id ≡ some 6)
    × (moved.is_hub_zone ≡ false)
    × (moved.allow_adjacent_preview ≡ true)
    × ((k : ℕ)
        → contains k moved.adjacent_level_ids ≡ (contains k (5 ∷ 0 ∷ 5 ∷ []) && not (k == 0)))
    × ((k : ℕ) → contains 1 (bucket k after.zones) ≡ (6 == k))
    × ((t : ℕ)
        → (t ≡ 1)
          ⊎ (get t after.meta ≡ get t both.meta)
          ⊎ ((get t after.meta ≡ none) × (only_first t ≡ false)))
unfolding join put get
update_zone_scope_lem_example =
    update_zone_scope_lem only_first 2 1 6 field both (in_hub 1) both-IsConsistent (omega arith)
      refl refl refl refl

sockets_for_zone_lem_example : (contains 2 (sockets_for_zone 5 false (some 1) both) ≡ true) ↔ (
    (m : ConnectionMeta) × (get 2 both.meta ≡ some m)
    × (m.zone_level_id ≡ some 5)
    × ((m.user_id == 1) ≡ false))
sockets_for_zone_lem_example = sockets_for_zone_lem both 5 1 2 both-Reaches refl

zone_runs : sockets_for_zone 5 false (some 1) both ≡ 2 ∷ []
unfolding sockets_for_zone join get put index_add set_add
zone_runs = refl

-- A second socket of a user moves in the field: the user leaves the hub where the first one still is.
abbrev twice : RealtimeHub
twice = (join 3 (record (in_hub 1) { zone_level_id = none; is_hub_zone = false }) both).0

leaves_with_second_socket :
    (let (after, leaves, joins) = rescope 3 field twice in
      (leaves ≡ some (1, 5))
      × (get 1 after.hub_presence ≡ none)
      × (get 1 after.meta ≡ some (in_hub 1)))
unfolding rescope rescope_known updated_meta move_presence join get put remove index_add
    index_discard set_add
leaves_with_second_socket = (refl, refl, refl)
