-- ===== src/Realtime/Moves.antt =====
-- services/realtime.py: what `update_zone_scope` makes of the connections and of the table of zones.
use game_gardens_of_karaxas.Base.{
  ℕ, ◌≤◌, ◌≡◌, ◌⊎◌, inl, inr, refl, ap, ◌∙◌, Bool, true, false, not, ◌&&◌, none, some, List, [],
  ◌∷◌, arith, ◌==◌, nat_equality, string_equality, pair_equality, option_equality, Bool-cases,
  length,
}
use game_gardens_of_karaxas.Base.Dict.{get, put, get-put, get-put_self}
use game_gardens_of_karaxas.Realtime.{
  ConnectionMeta, hub_presence_join, hub_presence_leave, RealtimeHub, Scope, contains, bucket,
  rescope, rescope_known, updated_meta, sanitized,
}
use game_gardens_of_karaxas.Realtime.Delivery.{update_zone_scope}
use game_gardens_of_karaxas.Realtime.Consistent.{IsConsistent, rescope-IsConsistent}
use game_gardens_of_karaxas.Realtime.Sizes.{length-put}
use game_gardens_of_karaxas.Realtime.Ends.{Ends, fails, announce-Ends}
use game_gardens_of_karaxas.Realtime.Keeps.{Keeps, Keeps-trans}

rescope_meta :
    (s : ℕ) (scope : Scope) (hub : RealtimeHub) (m : ConnectionMeta)
    → get s hub.meta ≡ some m
    → (rescope s scope hub).0.meta ≡ put s (updated_meta scope m) hub.meta
rescope_meta s scope hub m known = unfold rescope rescope_known in rw (known, rescope) refl

-- both announcements behind the move
moved-Ends :
    (sends : ℕ → Bool) (fuel s : ℕ) (scope : Scope) (hub : RealtimeHub) (m : ConnectionMeta)
    → get s hub.meta ≡ some m
    → IsConsistent hub
    → length hub.meta ≤ fuel
    → Ends
        (fails sends)
        (length hub.meta)
        (rescope s scope hub).0
        (update_zone_scope fuel sends s scope hub)
moved-Ends sends fuel s scope hub m known good few =
    let moved = rescope s scope hub in
    let same : length moved.0.meta ≡ length hub.meta =
      rw (rescope_meta s scope hub m known) (length-put s m _ hub.meta known) in
    let (first, e, good', few', keep) =
      announce-Ends sends fuel hub_presence_leave moved.1 moved.0
        (rescope-IsConsistent s scope hub good) (omega (arith, same, few)) in
    let (last, e', good'', few'', keep') =
      announce-Ends sends fuel hub_presence_join moved.2 first good'
        (omega (arith, few', same, few)) in
    (
      last,
      (unfold update_zone_scope in rw (e, update_zone_scope) e'),
      good'',
      omega (arith, few'', few', same),
      Keeps-trans (fails sends) moved.0 first last keep keep',
    )

-- a socket whose sends work keeps its connection
kept :
    (sends : ℕ → Bool) (a b : RealtimeHub) (s : ℕ)
    → Keeps (fails sends) a b
    → sends s ≡ true
    → get s b.meta ≡ get s a.meta
kept sends a b s h works = elim (h s) [
  | inl same ↦ same
  | inr (gone, e) ↦ absurd (ground (arith, works, e))
]

contains-sanitized :
    (k : ℕ) (seen zones : List ℕ)
    → contains k (sanitized seen zones)
      ≡ (contains k zones && not (k == 0) && not (contains k seen))
unfolding sanitized
contains-sanitized k seen [] = refl
contains-sanitized k seen (z ∷ zones) = elim (Bool-cases (z == k)) [
  | inl same ↦
      let named : z ≡ k = ground (arith, same) in
      let listed : contains z seen ≡ contains k seen = ap (λ n. contains n seen) named in
      ground (
        arith,
        same,
        listed,
        contains-sanitized k seen zones,
        contains-sanitized k (z ∷ seen) zones,
      )
  | inr other ↦
      ground (arith, other, contains-sanitized k seen zones, contains-sanitized k (z ∷ seen) zones)
]

-- Moving a connection to a zone ends, whichever other sends fail, if the fuel is at least the number of
-- connections and the send to the moved socket works. The connection has the zone, the flags and the
-- adjacent zones of the request, of these none that is 0, and its user and channel as before; the table of zones lists its socket
-- under that zone and under no other. Every other socket keeps its connection, except that one whose
-- send fails may lose it, and none gets a new one. The tables of the hub agree with its connections
-- again. The zone of the request is not 0.
pub update_zone_scope_lem :
    (sends : ℕ → Bool) (fuel s zone : ℕ) (scope : Scope) (hub : RealtimeHub) (m : ConnectionMeta)
    → IsConsistent hub
    → length hub.meta ≤ fuel
    → get s hub.meta ≡ some m
    → sends s ≡ true
    → scope.zone_level_id ≡ some zone
    → (zone == 0) ≡ false
    → (after : RealtimeHub) × (moved : ConnectionMeta) × (update_zone_scope fuel sends s scope hub
        ≡ some after)
      × IsConsistent after
      × (get s after.meta ≡ some moved)
      × (moved.user_id ≡ m.user_id)
      × (moved.channel_id ≡ m.channel_id)
      × (moved.zone_level_id ≡ some zone)
      × (moved.is_hub_zone ≡ scope.is_hub_zone)
      × (moved.allow_adjacent_preview ≡ scope.allow_adjacent_preview)
      × ((k : ℕ)
          → contains k moved.adjacent_level_ids
            ≡ (contains k scope.adjacent_level_ids && not (k == 0)))
      × ((k : ℕ) → contains s (bucket k after.zones) ≡ (zone == k))
      × ((t : ℕ)
          → (t ≡ s)
            ⊎ (get t after.meta ≡ get t hub.meta)
            ⊎ ((get t after.meta ≡ none) × (sends t ≡ false)))
unfolding updated_meta
update_zone_scope_lem sends fuel s zone scope hub m good few known works named real =
    let moved = updated_meta scope m in
    let there = (rescope s scope hub).0 in
    let table = rescope_meta s scope hub m known in
    let (after, e, good', _, keep) = moved-Ends sends fuel s scope hub m known good few in
    let own : get s after.meta ≡ some moved =
      kept sends there after s keep works ∙ (ap (get s) table ∙ get-put_self s moved hub.meta) in
    let at_zone : moved.zone_level_id ≡ some zone = rw named (rw real refl) in
    (
      after,
      moved,
      e,
      good',
      own,
      refl,
      refl,
      at_zone,
      rw named (rw real (ground arith)),
      refl,
      (λ k. contains-sanitized k [] scope.adjacent_level_ids ∙ ground arith),
      (λ k. good'.by_zone k s ∙ rw own (rw at_zone (ground arith))),
      λ t.
          let here = ap (get t) table ∙ get-put s t moved hub.meta in
          elim (Bool-cases (s == t)) [
            | inl same ↦ inl (ground (arith, same))
            | inr other ↦ inr (elim (keep t) [
              | inl same ↦ inl (same ∙ (here ∙ rw other refl))
              | inr (gone, broken) ↦ inr (gone, ground (arith, broken))
            ])
          ],
    )
