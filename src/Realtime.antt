-- ===== src/Realtime.antt =====
-- backend/app/services/realtime.py: the hub of the websocket connections, which routes messages to
-- channels and to the zones of the world, and tells players who is in a hub. A socket is a number, a set
-- of sockets a list without repetitions. Each block under the lock is one function here (join, leave,
-- rescope); Delivery sends messages between such steps, and a socket that fails is disconnected. A zone
-- that a client names is a natural number, since a negative one is treated like 0.
use game_gardens_of_karaxas.Base.{
  true, false, not, ℕ, ◌+◌, String, Bool, Option, none, some, List, [], ◌∷◌, ◌++◌, ◌==◌, ◌&&◌, ◌||◌,
  nat_equality, string_equality, pair_equality, option_equality, if◌then◌else◌, length, or_default,
  any_where, select, is_none,
}
use game_gardens_of_karaxas.Base.Dict.{Dict, get, put, remove}
pub mod Delivery
pub mod Index
mod Consistent
mod Sizes
mod Reached
mod Keeps
mod Ends
mod Moves
mod Tests

pub record ConnectionMeta : Type 0 where
  pub user_id : ℕ
  pub channel_id : Option ℕ
  pub client_version : String
  pub zone_level_id : Option ℕ
  pub instance_id : Option String
  pub party_id : Option String
  pub is_hub_zone : Bool
  pub adjacent_level_ids : List ℕ
  pub allow_adjacent_preview : Bool

pub data Message : Type 0 where
  hub_presence_join : ℕ → ℕ → Message
  hub_presence_leave : ℕ → ℕ → Message
  -- min_supported_version, min_supported_content_version_key, enforce_after, update_feed_url, timestamp
  force_update : String → String → Option String → Option String → String → Message
  -- event_id, content_version_key, reason_code, deadline, grace_seconds, timestamp
  content_publish_started : Option ℕ → String → String → Option String → ℕ → String → Message
  -- event_id, content_version_key, reason_code, deadline, seconds_remaining, timestamp
  content_publish_warning : Option ℕ → String → String → Option String → ℕ → String → Message
  -- event_id, content_version_key, reason_code, cutoff_at, timestamp
  content_publish_forced_logout : Option ℕ → String → String → Option String → String → Message
  -- a payload of a caller, as text
  other_message : String → Message

-- `sent` are the messages that were sent, and `zone_broadcasts` the counts that are recorded
pub record RealtimeHub : Type 0 where
  pub channels : Dict ℕ (List ℕ)
  pub users : Dict ℕ (List ℕ)
  pub zones : Dict ℕ (List ℕ)
  pub meta : Dict ℕ ConnectionMeta
  pub hub_presence : Dict ℕ ℕ
  pub sent : List (ℕ × Message)
  pub zone_broadcasts : List ℕ

abbrev pub contains : ℕ → List ℕ → Bool
contains s = any_where (λ t. t == s)

-- `defaultdict(set)`, read
abbrev pub bucket : ℕ → Dict ℕ (List ℕ) → List ℕ
bucket k index = or_default (get k index) []

-- `set.add` and `set.discard`
unfoldable pub set_add : ℕ → List ℕ → List ℕ
set_add s set = if contains s set then set else set ++ s ∷ []

unfoldable pub set_discard : ℕ → List ℕ → List ℕ
set_discard s set = select (λ t. not (t == s)) set

-- `index[k].add(socket)`, for a key that is not None
unfoldable pub index_add : Option ℕ → ℕ → Dict ℕ (List ℕ) → Dict ℕ (List ℕ)
index_add none s index = index
index_add (some k) s index = put k (set_add s (bucket k index)) index

abbrev pub discard_from : ℕ → ℕ → Option (List ℕ) → Dict ℕ (List ℕ) → Dict ℕ (List ℕ)
discard_from k s none index = index
discard_from k s (some set) index =
    let rest = set_discard s set in if length rest == 0 then remove k index else put k rest index

-- the discard of a socket, and of the key if nothing is left
unfoldable pub index_discard : Option ℕ → ℕ → Dict ℕ (List ℕ) → Dict ℕ (List ℕ)
index_discard none s index = index
index_discard (some k) s index = discard_from k s (get k index) index

abbrev pub hub_of : ConnectionMeta → Option ℕ
hub_of m = if m.is_hub_zone then m.zone_level_id else none

-- an event is a user and the hub that he has joined or left
abbrev pub HubEvent : Type 0
HubEvent = Option (ℕ × ℕ)

abbrev pub join_presence : ℕ → Option ℕ → Dict ℕ ℕ → Dict ℕ ℕ × HubEvent
join_presence user none presence = (presence, none)
join_presence user (some zone) presence =
    if get user presence == some zone
    then (presence, none)
    else (put user zone presence, some (user, zone))

-- the block of `connect`
unfoldable pub join : ℕ → ConnectionMeta → RealtimeHub → RealtimeHub × HubEvent
join s m hub =
    let (presence, event) = join_presence m.user_id (hub_of m) hub.hub_presence in
    (
      record hub {
        channels = index_add m.channel_id s hub.channels;
        zones = index_add m.zone_level_id s hub.zones;
        users = index_add (some m.user_id) s hub.users;
        meta = put s m hub.meta;
        hub_presence = presence;
      },
      event,
    )

abbrev pub left : ℕ → Option ℕ → HubEvent
left user none = none
left user (some zone) = some (user, zone)

-- the block of `disconnect` behind the lookup of the socket
unfoldable pub leave_known : ℕ → ConnectionMeta → RealtimeHub → RealtimeHub × HubEvent
leave_known s m hub =
    let users = index_discard (some m.user_id) s hub.users in
    let gone = not (is_none (get m.user_id hub.users)) && is_none (get m.user_id users) in
    (
      record hub {
        channels = index_discard m.channel_id s hub.channels;
        zones = index_discard m.zone_level_id s hub.zones;
        users = users;
        meta = remove s hub.meta;
        hub_presence = (if gone then remove m.user_id hub.hub_presence else hub.hub_presence);
      },
      (if gone then left m.user_id (get m.user_id hub.hub_presence) else none),
    )

-- the block of `disconnect`
unfoldable pub leave : ℕ → RealtimeHub → RealtimeHub × HubEvent
leave s hub = elim (get s hub.meta) [ none ↦ (hub, none) | some m ↦ leave_known s m hub ]

-- the loop over `adjacent_level_ids`; the entries that are no numbers have been dropped
unfoldable pub sanitized : List ℕ → List ℕ → List ℕ
sanitized seen [] = []
sanitized seen (z ∷ zones) =
    let skip = sanitized seen zones in
    let keep = z ∷ sanitized (z ∷ seen) zones in if (z == 0) || contains z seen then skip else keep

pub record Scope : Type 0 where
  pub zone_level_id : Option ℕ
  pub adjacent_level_ids : List ℕ
  pub is_hub_zone : Bool
  pub allow_adjacent_preview : Bool

abbrev pub positive : Option ℕ → Option ℕ
positive none = none
positive (some z) = if z == 0 then none else some z

unfoldable pub updated_meta : Scope → ConnectionMeta → ConnectionMeta
updated_meta scope m = record m {
  zone_level_id = positive scope.zone_level_id;
  is_hub_zone = scope.is_hub_zone && not (is_none (positive scope.zone_level_id));
  adjacent_level_ids = sanitized [] scope.adjacent_level_ids;
  allow_adjacent_preview = scope.allow_adjacent_preview;
}

-- the presence of a user whose socket moves: the leave and the join event
unfoldable pub move_presence :
    ConnectionMeta → ConnectionMeta → Dict ℕ ℕ → Dict ℕ ℕ × HubEvent × HubEvent
move_presence old new presence =
    let previous = get old.user_id presence in
    let leaves = old.is_hub_zone && not (is_none previous) && not (previous == new.zone_level_id) in
    let presence' = (if leaves then remove old.user_id presence else presence) in
    let first = (if leaves then left old.user_id previous else none) in
    let (joined, event) = join_presence old.user_id (hub_of new) presence' in
    let still = get old.user_id presence' in
    if new.is_hub_zone then (joined, first, event) else (
      remove old.user_id presence',
      (if is_none still then first else left old.user_id still),
      none,
    )

-- the block of `update_zone_scope` behind the lookup of the socket
unfoldable pub rescope_known :
    ℕ → Scope → ConnectionMeta → RealtimeHub → RealtimeHub × HubEvent × HubEvent
rescope_known s scope old hub =
    let new = updated_meta scope old in
    let (presence, leaves, joins) = move_presence old new hub.hub_presence in
    (
      record hub {
        zones = index_add new.zone_level_id s (index_discard old.zone_level_id s hub.zones);
        meta = put s new hub.meta;
        hub_presence = presence;
      },
      leaves,
      joins,
    )

-- the block of `update_zone_scope`
unfoldable pub rescope : ℕ → Scope → RealtimeHub → RealtimeHub × HubEvent × HubEvent
rescope s scope hub = elim (get s hub.meta) [
  | none ↦ (hub, none, none)
  | some old ↦ rescope_known s scope old hub
]
