-- ===== src/Instances.antt =====
-- backend/app/services/instance_manager.py: the instances of levels in which players are, one for a hub,
-- for a party or for a single character, and the membership of users in them.
use game_gardens_of_karaxas.Base.{
  true, false, ℕ, ◌+◌, ◌*◌, String, Bool, Option, none, some, List, [], ◌∷◌, ◌++◌, ltb, leb, not,
  ◌==◌, ◌&&◌, ◌||◌, nat_equality, string_equality, pair_equality, option_equality, if◌then◌else◌,
  is_none, first_where, count_where, update_where, any_where, micros,
}
use game_gardens_of_karaxas.Base.Text.{is_empty}
use game_gardens_of_karaxas.Base.Decimal.{decimal, concat_text}
use game_gardens_of_karaxas.Models.{UserSession}
use game_gardens_of_karaxas.SessionDrain.Enforce.{replace_session}
mod Assign
mod Routes
mod Tests

-- models/instance.py
pub record WorldInstance : Type 0 where
  pub id : String
  pub kind : String
  pub level_id : Option ℕ
  pub owner_user_id : Option ℕ
  pub party_id : Option String
  pub status : String
  pub last_active_at : ℕ
  pub expires_at : Option ℕ

pub record WorldInstanceMember : Type 0 where
  pub instance_id : String
  pub user_id : ℕ
  pub session_id : Option String
  pub character_id : Option ℕ
  pub last_seen_at : ℕ

-- `assignments` is what `record_instance_assignment` was called with
pub record InstanceTables : Type 0 where
  pub instances : List WorldInstance
  pub members : List WorldInstanceMember
  pub sessions : List UserSession
  pub assignments : List (String × Bool)

pub record InstanceAssignment : Type 0 where
  pub instance_id : String
  pub instance_kind : String
  pub level_id : ℕ
  pub party_id : Option String
  pub restored : Bool
  pub expires_at : Option ℕ

unfoldable pub solo_instance_id : ℕ → ℕ → String
solo_instance_id level character =
    concat_text "solo-l" (concat_text (decimal level) (concat_text "-c" (decimal character)))

unfoldable pub party_instance_id : ℕ → String → String
party_instance_id level party =
    concat_text "party-l" (concat_text (decimal level) (concat_text "-" party))

unfoldable pub hub_instance_id : ℕ → String
hub_instance_id level = concat_text "hub-l" (decimal level)

abbrev pub has_ended : ℕ → Option ℕ → Bool
has_ended now none = false
has_ended now (some t) = leb t now

-- the rows that `expire_stale_instances` expires
abbrev pub is_over : ℕ → WorldInstance → Bool
is_over now i = (i.status == "active") && has_ended now i.expires_at

unfoldable pub expire_stale_instances : ℕ → InstanceTables → ℕ × InstanceTables
expire_stale_instances now db = (
  count_where (is_over now) db.instances,
  record db {
    instances =
        update_where (is_over now)
          (λ (i : WorldInstance). record i { status = "expired"; last_active_at = now })
          db.instances;
  },
)

abbrev party_or_solo : ℕ → ℕ → Option String → String × String
party_or_solo level character none = (solo_instance_id level character, "solo")
party_or_solo level character (some party) =
    if is_empty party
    then (solo_instance_id level character, "solo")
    else (party_instance_id level party, "party")

unfoldable pub resolve_instance_descriptor : ℕ → ℕ → Option String → Bool → String × String
resolve_instance_descriptor level character party is_hub =
    if is_hub then (hub_instance_id level, "hub") else party_or_solo level character party

-- INSTANCE_TTL_MINUTES and HUB_INSTANCE_TTL_HOURS
abbrev pub ttl_of : String → ℕ
ttl_of kind = if kind == "hub" then micros (12 * 3600) else micros (90 * 60)

-- a player, where he goes
pub record Entry : Type 0 where
  pub user_id : ℕ
  pub character_id : ℕ
  pub level_id : ℕ
  pub party_id : Option String
  pub is_hub_level : Bool

abbrev pub instance_by_id : String → List WorldInstance → Option WorldInstance
instance_by_id id = first_where (λ (i : WorldInstance). i.id == id)

-- the write of the instance: a new row, or the one that is there
unfoldable pub open_instance : ℕ → String → String → Entry → List WorldInstance → List WorldInstance
open_instance now id kind entry instances =
    let expires = some (now + ttl_of kind) in
    if is_none (instance_by_id id instances)
    then instances
      ++ record {
        id = id;
        kind = kind;
        level_id = some entry.level_id;
        owner_user_id = some entry.user_id;
        party_id = entry.party_id;
        status = "active";
        last_active_at = now;
        expires_at = expires;
      }
        ∷ []
    else update_where (λ (i : WorldInstance). i.id == id)
        (λ (i : WorldInstance). record i {
          status = "active";
          level_id = some entry.level_id;
          party_id = entry.party_id;
          last_active_at = now;
          expires_at = expires;
        })
        instances

abbrev pub is_inside : String → ℕ → WorldInstanceMember → Bool
is_inside id user m = (m.instance_id == id) && (m.user_id == user)

-- the write of the membership
unfoldable pub join_instance :
    ℕ → String → String → Entry → List WorldInstanceMember → List WorldInstanceMember
join_instance now id session entry members =
    if any_where (is_inside id entry.user_id) members
    then update_where (is_inside id entry.user_id)
        (λ (m : WorldInstanceMember). record m {
          session_id = some session;
          character_id = some entry.character_id;
          last_seen_at = now;
        })
        members
    else members
      ++ record {
        instance_id = id;
        user_id = entry.user_id;
        session_id = some session;
        character_id = some entry.character_id;
        last_seen_at = now;
      }
        ∷ []

-- the row of the session behind the assignment
abbrev pub moved_session : String → Entry → UserSession → UserSession
moved_session id entry s = record s {
  current_party_id = entry.party_id;
  current_instance_id = some id;
  current_character_id = some entry.character_id;
  current_level_id = some entry.level_id;
}

unfoldable pub assign_session_world_instance :
    ℕ → UserSession → Entry → InstanceTables → InstanceAssignment × InstanceTables
assign_session_world_instance now session entry db =
    let (expired, fresh) = expire_stale_instances now db in
    let (id, kind) =
      resolve_instance_descriptor entry.level_id entry.character_id entry.party_id
        entry.is_hub_level in
    let restored = session.current_instance_id == some id in
    (
      record {
        instance_id = id;
        instance_kind = kind;
        level_id = entry.level_id;
        party_id = entry.party_id;
        restored = restored;
        expires_at = some (now + ttl_of kind);
      },
      record {
        instances = open_instance now id kind entry fresh.instances;
        members = join_instance now id session.id entry fresh.members;
        sessions = replace_session (moved_session id entry session) fresh.sessions;
        assignments = fresh.assignments ++ (kind, restored) ∷ [];
      },
    )

abbrev pub is_running : WorldInstance → Bool
is_running i = i.status == "active"

abbrev in_running : List WorldInstance → WorldInstanceMember → Bool
in_running instances m =
    any_where (λ (i : WorldInstance). (i.id == m.instance_id) && is_running i) instances

-- `instance_runtime_metrics`: the active instances, those of a kind, and the members of active ones
unfoldable pub active_instances_total : InstanceTables → ℕ
active_instances_total db = count_where is_running db.instances

unfoldable pub active_instances_by_kind : String → InstanceTables → ℕ
active_instances_by_kind kind db =
    count_where (λ (i : WorldInstance). is_running i && (i.kind == kind)) db.instances

unfoldable pub active_instance_members_total : InstanceTables → ℕ
active_instance_members_total db = count_where (in_running db.instances) db.members
