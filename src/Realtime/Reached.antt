-- ===== src/Realtime/Reached.antt =====
-- services/realtime.py: connecting, disconnecting, moving a socket and telling a zone are sequences of the
-- steps under the lock, with messages between them.
use game_gardens_of_karaxas.Base.{
  ℕ, zero, suc, ◌≡◌, inl, inr, Bool, false, Option, none, some, List, [], ◌∷◌, ◌++◌, nat_equality,
  string_equality, pair_equality, option_equality, Bool-cases, Option-cases,
}
use mathlib.Core.Path.{subst}
use game_gardens_of_karaxas.Base.Dict.{get}
use game_gardens_of_karaxas.Realtime.{
  ConnectionMeta, Message, hub_presence_join, hub_presence_leave, RealtimeHub, HubEvent, Scope,
  join, leave, rescope,
}
use game_gardens_of_karaxas.Realtime.Delivery.{
  deliver, disconnect, broadcast_zone_with, recorded, broadcast_zone, announce, connect,
  update_zone_scope, sockets_for_zone,
}
use game_gardens_of_karaxas.Realtime.Consistent.{Reaches, has_joined, has_left, has_moved, has_sent}

-- the hub behind an operation, if there is one, is reached
abbrev pub Reached : Option RealtimeHub → Type 0
Reached none = Unit {0}
Reached (some hub) = Reaches hub

abbrev ReachedCounted : Option (ℕ × RealtimeHub) → Type 0
ReachedCounted none = Unit {0}
ReachedCounted (some (_, hub)) = Reaches hub

module _ (sends : ℕ → Bool) where
  deliver-Reached :
      (drop : ℕ → RealtimeHub → Option RealtimeHub) (message : Message) (ss : List ℕ)
      (hub : RealtimeHub)
      → ((s : ℕ) (h : RealtimeHub) → Reaches h → Reached (drop s h))
      → Reaches hub
      → ReachedCounted (deliver drop sends message ss hub)
  unfolding deliver
  deliver-Reached drop message [] hub keep h = h
  deliver-Reached drop message (s ∷ ss) hub keep h = elim (Bool-cases (sends s)) [
    | inl works ↦
        let sent = hub.sent ++ (s, message) ∷ [] in
        let told = record hub { sent = sent } in
        let rest =
          deliver-Reached drop message ss told keep (has_sent sent hub.zone_broadcasts hub h) in
        elim (Option-cases (deliver drop sends message ss told)) [
          | inl out ↦ rw (works, ReachedCounted, deliver) (rw out tt)
          | inr ((n, after), e) ↦
              rw (works, ReachedCounted, deliver) (rw e (subst ReachedCounted e rest))
        ]
    | inr broken ↦ elim (Option-cases (drop s hub)) [
      | inl out ↦ rw (broken, ReachedCounted, deliver) (rw out tt)
      | inr (after, e) ↦
          rw (broken, ReachedCounted, deliver)
            (rw e (deliver-Reached drop message ss after keep (subst Reached e (keep s hub h))))
    ]
  ]

  recorded-Reached :
      (result : Option (ℕ × RealtimeHub)) → ReachedCounted result → Reached (recorded result)
  recorded-Reached none h = tt
  recorded-Reached (some (n, hub)) h = has_sent hub.sent (hub.zone_broadcasts ++ n ∷ []) hub h

  broadcast-Reached :
      (drop : ℕ → RealtimeHub → Option RealtimeHub) (zone : ℕ) (preview : Bool) (exclude : Option ℕ)
      (message : Message) (hub : RealtimeHub)
      → ((s : ℕ) (h : RealtimeHub) → Reaches h → Reached (drop s h))
      → Reaches hub
      → Reached (broadcast_zone_with drop sends zone preview exclude message hub)
  broadcast-Reached drop zone preview exclude message hub keep h =
      recorded-Reached _
        (deliver-Reached drop message (sockets_for_zone zone preview exclude hub) hub keep h)

  pub disconnect-Reached :
      (fuel s : ℕ) (hub : RealtimeHub) → Reaches hub → Reached (disconnect fuel sends s hub)
  unfolding disconnect
  disconnect-Reached zero s hub h = elim (Option-cases (leave s hub).1) [
    | inl quiet ↦ rw (quiet, Reached, disconnect) (has_left s hub h)
    | inr (event, told) ↦ rw (told, Reached, disconnect) tt
  ]
  disconnect-Reached (suc fuel) s hub h = elim (Option-cases (leave s hub).1) [
    | inl quiet ↦ rw (quiet, Reached, disconnect) (has_left s hub h)
    | inr ((user, zone), told) ↦
        rw (told, Reached, disconnect)
          (broadcast-Reached (disconnect fuel sends) zone false (some user)
            (hub_presence_leave user zone) (leave s hub).0 (disconnect-Reached fuel)
            (has_left s hub h))
  ]

  announce-Reached :
      (fuel : ℕ) (message : ℕ → ℕ → Message) (event : HubEvent) (hub : RealtimeHub)
      → Reaches hub
      → Reached (announce fuel sends message event hub)
  unfolding broadcast_zone
  announce-Reached fuel message none hub h = h
  announce-Reached fuel message (some (user, zone)) hub h =
      broadcast-Reached (disconnect fuel sends) zone false (some user) (message user zone) hub
        (disconnect-Reached fuel) h

  pub connect-Reached :
      (fuel s : ℕ) (m : ConnectionMeta) (hub : RealtimeHub)
      → get s hub.meta ≡ none
      → Reaches hub
      → Reached (connect fuel sends s m hub)
  unfolding connect
  connect-Reached fuel s m hub new h =
      announce-Reached fuel hub_presence_join (join s m hub).1 (join s m hub).0
        (has_joined s m hub h new)

  pub update-Reached :
      (fuel s : ℕ) (scope : Scope) (hub : RealtimeHub)
      → Reaches hub
      → Reached (update_zone_scope fuel sends s scope hub)
  unfolding update_zone_scope
  update-Reached fuel s scope hub h =
      let moved = rescope s scope hub in
      let first =
        announce-Reached fuel hub_presence_leave moved.1 moved.0 (has_moved s scope hub h) in
      elim (Option-cases (announce fuel sends hub_presence_leave moved.1 moved.0)) [
        | inl out ↦ rw out tt
        | inr (there, e) ↦
            rw e (announce-Reached fuel hub_presence_join moved.2 there (subst Reached e first))
      ]
