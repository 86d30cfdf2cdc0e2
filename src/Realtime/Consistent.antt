-- ===== src/Realtime/Consistent.antt =====
-- The tables of the hub and its connections, through the steps under the lock.
use game_gardens_of_karaxas.Base.{
  ℕ, ◌≡◌, ◌↔◌, inl, inr, refl, sym, ap, ◌∙◌, Bool, true, false, ◌&&◌, Option, none, some, List, [],
  ◌∷◌, arith, ◌==◌, nat_equality, string_equality, pair_equality, option_equality, Bool-cases,
  Option-cases, select,
}
use mathlib.Core.Path.{subst}
use game_gardens_of_karaxas.Base.Dict.{get}
use game_gardens_of_karaxas.Realtime.{
  ConnectionMeta, Message, RealtimeHub, Scope, contains, bucket, join, leave, leave_known, rescope,
  rescope_known, updated_meta,
}
use game_gardens_of_karaxas.Realtime.Index.{
  Indexes, keyed, Indexes-add, Indexes-discard, Indexes-move, Indexes-keep,
}
use game_gardens_of_karaxas.Realtime.Delivery.{sockets_for_zone, is_recipient}

abbrev pub channel_key : ConnectionMeta → Option ℕ
channel_key m = m.channel_id

abbrev pub zone_key : ConnectionMeta → Option ℕ
zone_key m = m.zone_level_id

abbrev pub user_key : ConnectionMeta → Option ℕ
user_key m = some m.user_id

-- Each of the three tables holds a socket exactly where the connection of the socket says.
pub record IsConsistent (hub : RealtimeHub) : Type 0 where
  pub by_channel : Indexes channel_key hub.channels hub.meta
  pub by_zone : Indexes zone_key hub.zones hub.meta
  pub by_user : Indexes user_key hub.users hub.meta

pub join-IsConsistent :
    (s : ℕ) (m : ConnectionMeta) (hub : RealtimeHub)
    → get s hub.meta ≡ none
    → IsConsistent hub
    → IsConsistent (join s m hub).0
unfolding join
join-IsConsistent s m hub new h = record {
  by_channel = Indexes-add channel_key hub.channels hub.meta s m new h.by_channel;
  by_zone = Indexes-add zone_key hub.zones hub.meta s m new h.by_zone;
  by_user = Indexes-add user_key hub.users hub.meta s m new h.by_user;
}

pub leave-IsConsistent :
    (s : ℕ) (hub : RealtimeHub) → IsConsistent hub → IsConsistent (leave s hub).0
leave-IsConsistent s hub h = elim (Option-cases (get s hub.meta)) [
  | inl gone ↦ unfold leave in rw (gone, leave) h
  | inr (m, known) ↦
      unfold leave leave_known in
      rw (known, leave)
        (record {
          by_channel = Indexes-discard channel_key hub.channels hub.meta s m known h.by_channel;
          by_zone = Indexes-discard zone_key hub.zones hub.meta s m known h.by_zone;
          by_user = Indexes-discard user_key hub.users hub.meta s m known h.by_user;
        })
]

pub rescope-IsConsistent :
    (s : ℕ) (scope : Scope) (hub : RealtimeHub)
    → IsConsistent hub
    → IsConsistent (rescope s scope hub).0
rescope-IsConsistent s scope hub h = elim (Option-cases (get s hub.meta)) [
  | inl gone ↦ unfold rescope in rw (gone, rescope) h
  | inr (m, known) ↦
      unfold rescope rescope_known updated_meta in
      rw (known, rescope)
        (record {
          by_channel =
              Indexes-keep channel_key hub.channels hub.meta s m (updated_meta scope m) known refl
                h.by_channel;
          by_zone =
              Indexes-move zone_key hub.zones hub.meta s m (updated_meta scope m) known h.by_zone;
          by_user =
              Indexes-keep user_key hub.users hub.meta s m (updated_meta scope m) known refl
                h.by_user;
        })
]

contains-select :
    (p : ℕ → Bool) (s : ℕ) (set : List ℕ) → contains s (select p set) ≡ (contains s set && p s)
contains-select p s [] = refl
contains-select p s (t ∷ set) = elim (Bool-cases (t == s)) [
  | inr other ↦ ground (arith, other, contains-select p s set)
  | inl same ↦
      let named : t ≡ s = ground (arith, same) in
      let test : p t ≡ p s = ap p named in ground (arith, same, test, contains-select p s set)
]

nothing_indexed : (k s : ℕ) → contains s (bucket k []) ≡ false
unfolding get
nothing_indexed k s = refl

-- The hubs that the blocks under the lock lead to from the hub at start, in any order and of any tasks,
-- with messages between them.
pub data Reaches : RealtimeHub → Type 0 where
  at_start : Reaches (record {
    channels = [];
    users = [];
    zones = [];
    meta = [];
    hub_presence = [];
    sent = [];
    zone_broadcasts = [];
  })
  has_joined :
      (s : ℕ) (m : ConnectionMeta) (hub : RealtimeHub)
      → Reaches hub
      → get s hub.meta ≡ none
      → Reaches (join s m hub).0
  has_left : (s : ℕ) (hub : RealtimeHub) → Reaches hub → Reaches (leave s hub).0
  has_moved :
      (s : ℕ) (scope : Scope) (hub : RealtimeHub) → Reaches hub → Reaches (rescope s scope hub).0
  has_sent :
      (sent : List (ℕ × Message)) (counts : List ℕ) (hub : RealtimeHub)
      → Reaches hub
      → Reaches (record hub { sent = sent; zone_broadcasts = counts })

pub Reaches-IsConsistent : (hub : RealtimeHub) → Reaches hub → IsConsistent hub
unfolding get
Reaches-IsConsistent _ at_start = record {
  by_channel = nothing_indexed;
  by_zone = nothing_indexed;
  by_user = nothing_indexed;
}
Reaches-IsConsistent _ (has_joined s m hub h new) =
    join-IsConsistent s m hub new (Reaches-IsConsistent hub h)
Reaches-IsConsistent _ (has_left s hub h) = leave-IsConsistent s hub (Reaches-IsConsistent hub h)
Reaches-IsConsistent _ (has_moved s scope hub h) =
    rescope-IsConsistent s scope hub (Reaches-IsConsistent hub h)
Reaches-IsConsistent _ (has_sent sent counts hub h) =
    let good = Reaches-IsConsistent hub h in
    record { by_channel = good.by_channel; by_zone = good.by_zone; by_user = good.by_user }

in_zone_but :
    (zone user : ℕ) (found : Option ConnectionMeta)
    → (keyed zone_key zone found && is_recipient user found) ≡ true ↔ (
        (m : ConnectionMeta) × (found ≡ some m)
        × (m.zone_level_id ≡ some zone)
        × ((m.user_id == user) ≡ false))
in_zone_but zone user none =
    (λ h. absurd (ground (arith, h)), λ (m, e, _, _). absurd (ground (arith, e)))
in_zone_but zone user (some m) = (
  λ h. (m, refl, ground (arith, h), ground (arith, h)),
  λ (n, e, at, other). ground (arith, e, at, other),
)

-- In every hub that connecting, disconnecting and moving sockets lead to, a message to a zone that
-- leaves out a user goes exactly to the sockets whose connection stands in the zone and is another
-- user's. The zone is not 0, and the adjacent zones are not asked for.
pub sockets_for_zone_lem :
    (hub : RealtimeHub) (zone user s : ℕ)
    → Reaches hub
    → (zone == 0) ≡ false
    → (contains s (sockets_for_zone zone false (some user) hub) ≡ true) ↔ (
        (m : ConnectionMeta) × (get s hub.meta ≡ some m)
        × (m.zone_level_id ≡ some zone)
        × ((m.user_id == user) ≡ false))
sockets_for_zone_lem hub zone user s h real =
    let good = Reaches-IsConsistent hub h in
    let listed : contains s (sockets_for_zone zone false (some user) hub)
        ≡ (keyed zone_key zone (get s hub.meta) && is_recipient user (get s hub.meta)) =
      unfold sockets_for_zone in
      rw real (
        contains-select (λ t. is_recipient user (get t hub.meta)) s (bucket zone hub.zones)
        ∙ rw (good.by_zone zone s) refl) in
    subst
      (λ b. (b ≡ true) ↔ (
        (m : ConnectionMeta) × (get s hub.meta ≡ some m)
        × (m.zone_level_id ≡ some zone)
        × ((m.user_id == user) ≡ false)))
      (sym listed) (in_zone_but zone user (get s hub.meta))
