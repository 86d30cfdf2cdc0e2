-- ===== src/Realtime/Delivery.antt =====
-- services/realtime.py: the messages. `sends s` tells whether sending to the socket works. A send that
-- fails disconnects the socket, which may tell others that the user has left a hub, and those sends may
-- fail in turn: the depth of that is the fuel, and there is no value where it runs out.
use game_gardens_of_karaxas.Base.{
  ℕ, zero, suc, ◌+◌, Bool, true, false, not, ◌&&◌, Option, none, some, List, [], ◌∷◌, ◌++◌, ◌==◌,
  nat_equality, string_equality, pair_equality, option_equality, if◌then◌else◌, select, String,
}
use game_gardens_of_karaxas.Base.Dict.{Dict, get}
use game_gardens_of_karaxas.Realtime.{
  ConnectionMeta, Message, force_update, content_publish_started, content_publish_warning,
  content_publish_forced_logout, hub_presence_join, hub_presence_leave, RealtimeHub, HubEvent,
  Scope, contains, bucket, join, leave, rescope,
}

abbrev pub excluded : Option ℕ → ConnectionMeta → Bool
excluded none m = false
excluded (some user) m = m.user_id == user

-- the sockets of a zone and those that see it as an adjacent one
unfoldable pub previewing : ℕ → Option ℕ → Dict ℕ ConnectionMeta → List ℕ
previewing zone exclude [] = []
previewing zone exclude ((s, m) ∷ metas) =
    let rest = previewing zone exclude metas in
    if excluded exclude m
    then rest
    else if m.zone_level_id == some zone
    then s ∷ rest
    else if m.allow_adjacent_preview && contains zone m.adjacent_level_ids
    then s ∷ rest
    else rest

abbrev pub is_recipient : ℕ → Option ConnectionMeta → Bool
is_recipient user none = false
is_recipient user (some m) = not (m.user_id == user)

abbrev pub without_user : Option ℕ → Dict ℕ ConnectionMeta → List ℕ → List ℕ
without_user none metas sockets = sockets
without_user (some user) metas sockets = select (λ s. is_recipient user (get s metas)) sockets

unfoldable pub sockets_for_zone : ℕ → Bool → Option ℕ → RealtimeHub → List ℕ
sockets_for_zone zone preview exclude hub =
    if zone == 0
    then []
    else if preview
    then previewing zone exclude hub.meta
    else without_user exclude hub.meta (bucket zone hub.zones)

-- the loop over the recipients: how many were reached
unfoldable pub deliver :
    (ℕ → RealtimeHub → Option RealtimeHub)
    → (ℕ → Bool)
    → Message
    → List ℕ
    → RealtimeHub
    → Option (ℕ × RealtimeHub)
deliver drop sends message [] hub = some (0, hub)
deliver drop sends message (s ∷ ss) hub = elim (sends s) [
  | true ↦
      elim (deliver drop sends message ss (record hub { sent = hub.sent ++ (s, message) ∷ [] })) [
        | none ↦ none
        | some (n, after) ↦ some (n + 1, after)
      ]
  | false ↦ elim (drop s hub) [ none ↦ none | some after ↦ deliver drop sends message ss after ]
]

abbrev pub recorded : Option (ℕ × RealtimeHub) → Option RealtimeHub
recorded none = none
recorded (some (n, hub)) = some (record hub { zone_broadcasts = hub.zone_broadcasts ++ n ∷ [] })

abbrev pub broadcast_zone_with :
    (ℕ → RealtimeHub → Option RealtimeHub)
    → (ℕ → Bool)
    → ℕ
    → Bool
    → Option ℕ
    → Message
    → RealtimeHub
    → Option RealtimeHub
broadcast_zone_with drop sends zone preview exclude message hub =
    recorded (deliver drop sends message (sockets_for_zone zone preview exclude hub) hub)

unfoldable pub disconnect : ℕ → (ℕ → Bool) → ℕ → RealtimeHub → Option RealtimeHub
disconnect zero sends s hub =
    let (after, event) = leave s hub in elim event [ none ↦ some after | some _ ↦ none ]
disconnect (suc fuel) sends s hub =
    let (after, event) = leave s hub in
    elim event [
      | none ↦ some after
      | some (user, zone) ↦
          broadcast_zone_with (disconnect fuel sends) sends zone false (some user)
            (hub_presence_leave user zone) after
    ]

unfoldable pub broadcast_zone :
    ℕ → (ℕ → Bool) → ℕ → Bool → Option ℕ → Message → RealtimeHub → Option RealtimeHub
broadcast_zone fuel sends zone preview exclude message hub =
    broadcast_zone_with (disconnect fuel sends) sends zone preview exclude message hub

abbrev pub announce :
    ℕ → (ℕ → Bool) → (ℕ → ℕ → Message) → HubEvent → RealtimeHub → Option RealtimeHub
announce fuel sends message none hub = some hub
announce fuel sends message (some (user, zone)) hub =
    broadcast_zone fuel sends zone false (some user) (message user zone) hub

abbrev pub after_leaving :
    Option RealtimeHub → (RealtimeHub → Option RealtimeHub) → Option RealtimeHub
after_leaving none next = none
after_leaving (some hub) next = next hub

unfoldable pub connect : ℕ → (ℕ → Bool) → ℕ → ConnectionMeta → RealtimeHub → Option RealtimeHub
connect fuel sends s m hub =
    let (after, event) = join s m hub in announce fuel sends hub_presence_join event after

unfoldable pub update_zone_scope : ℕ → (ℕ → Bool) → ℕ → Scope → RealtimeHub → Option RealtimeHub
update_zone_scope fuel sends s scope hub =
    let (after, leaves, joins) = rescope s scope hub in
    after_leaving (announce fuel sends hub_presence_leave leaves after)
      (announce fuel sends hub_presence_join joins)

abbrev pub keys : Dict ℕ ConnectionMeta → List ℕ
keys [] = []
keys ((s, _) ∷ metas) = s ∷ keys metas

abbrev pub hub_behind : Option (ℕ × RealtimeHub) → Option RealtimeHub
hub_behind none = none
hub_behind (some (_, hub)) = some hub

-- `broadcast` to a channel
unfoldable pub broadcast : ℕ → (ℕ → Bool) → ℕ → Message → RealtimeHub → Option RealtimeHub
broadcast fuel sends channel message hub =
    hub_behind (deliver (disconnect fuel sends) sends message (bucket channel hub.channels) hub)

-- `_broadcast_all`
unfoldable pub broadcast_all : ℕ → (ℕ → Bool) → Message → RealtimeHub → Option RealtimeHub
broadcast_all fuel sends message hub =
    hub_behind (deliver (disconnect fuel sends) sends message (keys hub.meta) hub)

-- `notify_force_update` has the loop of `_broadcast_all` written out. `timestamp` is the clock.
unfoldable pub notify_force_update :
    ℕ
    → (ℕ → Bool)
    → String
    → String
    → String
    → Option String
    → Option String
    → RealtimeHub
    → Option RealtimeHub
notify_force_update fuel sends timestamp version key enforce_after feed_url hub =
    broadcast_all fuel sends (force_update version key enforce_after feed_url timestamp) hub

unfoldable pub notify_content_publish_started :
    ℕ
    → (ℕ → Bool)
    → String
    → Option ℕ
    → String
    → String
    → Option String
    → ℕ
    → RealtimeHub
    → Option RealtimeHub
notify_content_publish_started fuel sends timestamp event_id key reason deadline grace hub =
    broadcast_all fuel sends (content_publish_started event_id key reason deadline grace timestamp)
      hub

-- `max(0, seconds_remaining)` is the number itself
unfoldable pub notify_content_publish_warning :
    ℕ
    → (ℕ → Bool)
    → String
    → Option ℕ
    → String
    → String
    → Option String
    → ℕ
    → RealtimeHub
    → Option RealtimeHub
notify_content_publish_warning fuel sends timestamp event_id key reason deadline seconds hub =
    broadcast_all fuel sends
      (content_publish_warning event_id key reason deadline seconds timestamp) hub

unfoldable pub notify_content_publish_forced_logout :
    ℕ
    → (ℕ → Bool)
    → String
    → Option ℕ
    → String
    → String
    → Option String
    → RealtimeHub
    → Option RealtimeHub
notify_content_publish_forced_logout fuel sends timestamp event_id key reason cutoff hub =
    broadcast_all fuel sends (content_publish_forced_logout event_id key reason cutoff timestamp)
      hub
