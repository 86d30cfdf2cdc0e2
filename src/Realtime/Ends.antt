-- ===== src/Realtime/Ends.antt =====
-- How broadcasts end, where a send that fails disconnects a socket and sends again.
use game_gardens_of_karaxas.Base.{
  ℕ, zero, suc, ◌+◌, ◌≤◌, ◌<◌, ◌≡◌, ◌⊎◌, inl, inr, refl, ap, ◌∙◌, Bool, true, false, not, ◌||◌,
  Option, none, some, List, [], ◌∷◌, ◌++◌, arith, ◌==◌, nat_equality, string_equality,
  pair_equality, option_equality, if◌then◌else◌, Bool-cases, Option-cases, length,
}
use game_gardens_of_karaxas.Base.Dict.{get, remove, get-remove, get-remove_self}
use game_gardens_of_karaxas.Realtime.{
  ConnectionMeta, Message, hub_presence_join, hub_presence_leave, RealtimeHub, HubEvent, join,
  leave, leave_known,
}
use game_gardens_of_karaxas.Realtime.Delivery.{
  deliver, disconnect, broadcast_zone_with, recorded, broadcast_zone, announce, connect,
  sockets_for_zone,
}
use game_gardens_of_karaxas.Realtime.Consistent.{
  IsConsistent, join-IsConsistent, leave-IsConsistent,
}
use game_gardens_of_karaxas.Realtime.Keeps.{Keeps, Keeps-trans, Keeps-mono, stays_gone}
use game_gardens_of_karaxas.Realtime.Sizes.{length-remove-lt, length-put-le}

-- an operation ends in a hub that is consistent, has no more connections than `n`, and keeps those of
-- the hub before
abbrev pub Ends : (ℕ → Bool) → ℕ → RealtimeHub → Option RealtimeHub → Type 0
Ends may n before result =
    (after : RealtimeHub) × (result ≡ some after)
    × IsConsistent after
    × (length after.meta ≤ n)
    × Keeps may before after

abbrev EndsCounted : (ℕ → Bool) → ℕ → RealtimeHub → Option (ℕ × RealtimeHub) → Type 0
EndsCounted may n before result =
    (k : ℕ) × (after : RealtimeHub) × (result ≡ some (k, after))
    × IsConsistent after
    × (length after.meta ≤ n)
    × Keeps may before after

-- the sends themselves change no table
sent-IsConsistent :
    (hub : RealtimeHub) (sent : List (ℕ × Message)) (counts : List ℕ)
    → IsConsistent hub
    → IsConsistent (record hub { sent = sent; zone_broadcasts = counts })
sent-IsConsistent hub sent counts h = record {
  by_channel = h.by_channel;
  by_zone = h.by_zone;
  by_user = h.by_user;
}

module _ (sends : ℕ → Bool) where
  -- the sockets whose sends fail
  abbrev pub fails : ℕ → Bool
  fails t = not (sends t)

  -- what dropping a socket does, for a socket whose send fails
  abbrev Drops : ℕ → (ℕ → RealtimeHub → Option RealtimeHub) → Type 0
  Drops n drop =
      (s : ℕ) (h : RealtimeHub)
      → sends s ≡ false
      → IsConsistent h
      → length h.meta ≤ n
      → Ends fails n h (drop s h)

  sent_step :
      (drop : ℕ → RealtimeHub → Option RealtimeHub) (message : Message) (s : ℕ) (ss : List ℕ)
      (hub : RealtimeHub) (k : ℕ) (after : RealtimeHub)
      → sends s ≡ true
      → deliver drop sends message ss (record hub { sent = hub.sent ++ (s, message) ∷ [] })
        ≡ some (k, after)
      → deliver drop sends message (s ∷ ss) hub ≡ some (k + 1, after)
  sent_step drop message s ss hub k after works e =
      unfold deliver in rw (works, deliver) (rw e refl)

  failed_step :
      (drop : ℕ → RealtimeHub → Option RealtimeHub) (message : Message) (s : ℕ) (ss : List ℕ)
      (hub there : RealtimeHub) (result : Option (ℕ × RealtimeHub))
      → sends s ≡ false
      → drop s hub ≡ some there
      → deliver drop sends message ss there ≡ result
      → deliver drop sends message (s ∷ ss) hub ≡ result
  failed_step drop message s ss hub there result fails e next =
      unfold deliver in rw (fails, deliver) (rw e next)

  deliver-EndsCounted :
      (drop : ℕ → RealtimeHub → Option RealtimeHub) (message : Message) (n : ℕ) (ss : List ℕ)
      (hub : RealtimeHub)
      → Drops n drop
      → IsConsistent hub
      → length hub.meta ≤ n
      → EndsCounted fails n hub (deliver drop sends message ss hub)
  deliver-EndsCounted drop message n [] hub ends good few =
      (0, hub, (unfold deliver in refl), good, few, λ t. inl refl)
  deliver-EndsCounted drop message n (s ∷ ss) hub ends good few = elim (Bool-cases (sends s)) [
    | inl works ↦
        let sent = hub.sent ++ (s, message) ∷ [] in
        let (k, after, e, good', few', keep) =
          deliver-EndsCounted drop message n ss (record hub { sent = sent }) ends
            (sent-IsConsistent hub sent hub.zone_broadcasts good) few in
        (k + 1, after, sent_step drop message s ss hub k after works e, good', few', keep)
    | inr broken ↦
        let (there, e, good', few', keep) = ends s hub broken good few in
        let (k, after, e', good'', few'', keep') =
          deliver-EndsCounted drop message n ss there ends good' few' in
        (
          k,
          after,
          failed_step drop message s ss hub there (some (k, after)) broken e e',
          good'',
          few'',
          Keeps-trans fails hub there after keep keep',
        )
  ]

  broadcast-Ends :
      (drop : ℕ → RealtimeHub → Option RealtimeHub) (n zone : ℕ) (preview : Bool)
      (exclude : Option ℕ) (message : Message) (hub : RealtimeHub)
      → Drops n drop
      → IsConsistent hub
      → length hub.meta ≤ n
      → Ends fails n hub (broadcast_zone_with drop sends zone preview exclude message hub)
  broadcast-Ends drop n zone preview exclude message hub ends good few =
      let (k, after, e, good', few', keep) =
        deliver-EndsCounted drop message n (sockets_for_zone zone preview exclude hub) hub ends good
          few in
      let counts = after.zone_broadcasts ++ k ∷ [] in
      (
        record after { zone_broadcasts = counts },
        ap recorded e,
        sent-IsConsistent after after.sent counts good',
        few',
        keep,
      )

  quiet_leave :
      (fuel s : ℕ) (hub : RealtimeHub)
      → (leave s hub).1 ≡ none
      → disconnect fuel sends s hub ≡ some (leave s hub).0
  quiet_leave zero s hub e = unfold disconnect in rw (e, disconnect) refl
  quiet_leave (suc fuel) s hub e = unfold disconnect in rw (e, disconnect) refl

  told_leave :
      (fuel s : ℕ) (hub : RealtimeHub) (user zone : ℕ)
      → (leave s hub).1 ≡ some (user, zone)
      → disconnect (suc fuel) sends s hub
        ≡ broadcast_zone_with
            (disconnect fuel sends)
            sends
            zone
            false
            (some user)
            (hub_presence_leave user zone)
            (leave s hub).0
  told_leave fuel s hub user zone e = unfold disconnect in rw (e, disconnect) refl

  stranger_leaves : (s : ℕ) (hub : RealtimeHub) → get s hub.meta ≡ none → leave s hub ≡ (hub, none)
  stranger_leaves s hub gone = unfold leave in rw (gone, leave) refl

  leave_removes :
      (s : ℕ) (hub : RealtimeHub) (m : ConnectionMeta)
      → get s hub.meta ≡ some m
      → (leave s hub).0.meta ≡ remove s hub.meta
  leave_removes s hub m known = unfold leave leave_known in rw (known, leave) refl

  -- the sockets that disconnecting `s` may drop
  abbrev dropped : ℕ → ℕ → Bool
  dropped s t = (t == s) || not (sends t)

  broken_only : (s : ℕ) → sends s ≡ false → (t : ℕ) → dropped s t ≡ true → not (sends t) ≡ true
  broken_only s broken t h = elim (Bool-cases (t == s)) [
    | inl same ↦
        let named : t ≡ s = ground (arith, same) in ap (λ u. not (sends u)) named ∙ ap not broken
    | inr other ↦ ground (arith, h, other)
  ]

  leave-Keeps :
      (s : ℕ) (hub : RealtimeHub) (m : ConnectionMeta)
      → get s hub.meta ≡ some m
      → Keeps (dropped s) hub (leave s hub).0
  leave-Keeps s hub m known t =
      let now : get t (leave s hub).0.meta ≡ (if s == t then none else get t hub.meta) =
        ap (get t) (leave_removes s hub m known) ∙ get-remove s t hub.meta in
      elim (Bool-cases (s == t)) [
        | inl same ↦
            let out : get t (leave s hub).0.meta ≡ none = now ∙ rw same refl in
            inr (out, ground (arith, same))
        | inr other ↦ inl (now ∙ rw other refl)
      ]

  leave-gone :
      (s : ℕ) (hub : RealtimeHub) (m : ConnectionMeta)
      → get s hub.meta ≡ some m
      → get s (leave s hub).0.meta ≡ none
  leave-gone s hub m known = ap (get s) (leave_removes s hub m known) ∙ get-remove_self s hub.meta

  -- Disconnecting a socket ends, whichever sends fail, if the fuel is at least the number of connections.
  -- The socket is gone. Every other socket keeps its connection, except that one whose send fails may
  -- lose it, and none gets a new one. The tables of the hub agree with its connections again.
  pub disconnect-Ends :
      (fuel s : ℕ) (hub : RealtimeHub)
      → IsConsistent hub
      → length hub.meta ≤ fuel
      → (after : RealtimeHub) × (disconnect fuel sends s hub ≡ some after)
        × IsConsistent after
        × (length after.meta ≤ length hub.meta)
        × (get s after.meta ≡ none)
        × ((t : ℕ)
            → (get t after.meta ≡ get t hub.meta)
              ⊎ ((get t after.meta ≡ none) × (((t == s) || not (sends t)) ≡ true)))
  disconnect-Ends zero s hub good few = elim (Option-cases (get s hub.meta)) [
    | inl gone ↦
        let out : disconnect zero sends s hub ≡ some hub =
          quiet_leave zero s hub (ap (λ r. r.1) (stranger_leaves s hub gone))
          ∙ ap (λ r. some r.0) (stranger_leaves s hub gone) in
        (hub, out, good, omega arith, gone, λ t. inl refl)
    | inr (m, known) ↦ absurd (omega (arith, few, length-remove-lt s hub.meta m known))
  ]
  disconnect-Ends (suc fuel) s hub good few = elim (Option-cases (get s hub.meta)) [
    | inl gone ↦
        let out : disconnect (suc fuel) sends s hub ≡ some hub =
          quiet_leave (suc fuel) s hub (ap (λ r. r.1) (stranger_leaves s hub gone))
          ∙ ap (λ r. some r.0) (stranger_leaves s hub gone) in
        (hub, out, good, omega arith, gone, λ t. inl refl)
    | inr (m, known) ↦
        let after = (leave s hub).0 in
        let good' = leave-IsConsistent s hub good in
        let out = leave-gone s hub m known in
        let keep = leave-Keeps s hub m known in
        let fewer : length after.meta < length hub.meta =
          rw (leave_removes s hub m known) (length-remove-lt s hub.meta m known) in
        elim (Option-cases (leave s hub).1) [
          | inl quiet ↦
              (after, quiet_leave (suc fuel) s hub quiet, good', omega (arith, fewer), out, keep)
          | inr ((user, zone), told) ↦
              let n = length after.meta in
              let (there, e, good'', few'', keep') =
                broadcast-Ends (disconnect fuel sends) n zone false (some user)
                  (hub_presence_leave user zone) after
                  (λ t h broken c le.
                    let (end, e, c', le', _, kept) =
                      disconnect-Ends fuel t h c (omega (arith, le, fewer, few)) in
                    (
                      end,
                      e,
                      c',
                      omega (arith, le', le),
                      Keeps-mono (dropped t) fails h end (broken_only t broken) kept,
                    ))
                  good' (omega arith) in
              (
                there,
                told_leave fuel s hub user zone told ∙ e,
                good'',
                omega (arith, few'', fewer),
                stays_gone fails after there s keep' out,
                Keeps-trans (dropped s) hub after there keep
                    (Keeps-mono fails (dropped s) after there (λ t e. ground (arith, e)) keep'),
              )
        ]
  ]

  disconnect-Drops : (fuel n : ℕ) → n ≤ fuel → Drops n (disconnect fuel sends)
  disconnect-Drops fuel n enough t h broken good few =
      let (end, e, good', few', _, kept) =
        disconnect-Ends fuel t h good (omega (arith, few, enough)) in
      (
        end,
        e,
        good',
        omega (arith, few', few),
        Keeps-mono (dropped t) fails h end (broken_only t broken) kept,
      )

  -- every broadcast from a hub with at most as many connections as the fuel
  told-Ends :
      (fuel : ℕ) (zone : ℕ) (preview : Bool) (exclude : Option ℕ) (message : Message)
      (hub : RealtimeHub)
      → IsConsistent hub
      → length hub.meta ≤ fuel
      → Ends fails
          (length hub.meta)
          hub
          (broadcast_zone fuel sends zone preview exclude message hub)
  told-Ends fuel zone preview exclude message hub good few =
      unfold broadcast_zone in
      broadcast-Ends (disconnect fuel sends) (length hub.meta) zone preview exclude message hub
        (disconnect-Drops fuel (length hub.meta) few) good (omega arith)

  pub announce-Ends :
      (fuel : ℕ) (message : ℕ → ℕ → Message) (event : HubEvent) (hub : RealtimeHub)
      → IsConsistent hub
      → length hub.meta ≤ fuel
      → Ends fails (length hub.meta) hub (announce fuel sends message event hub)
  announce-Ends fuel message none hub good few = (hub, refl, good, omega arith, λ t. inl refl)
  announce-Ends fuel message (some (user, zone)) hub good few =
      told-Ends fuel zone false (some user) (message user zone) hub good few

  -- Connecting a new socket ends, if the fuel is more than the number of connections before: the hub is
  -- consistent again, and keeps the connections that it has with the new one.
  pub connect-Ends :
      (fuel s : ℕ) (m : ConnectionMeta) (hub : RealtimeHub)
      → get s hub.meta ≡ none
      → IsConsistent hub
      → length hub.meta < fuel
      → Ends fails (length (join s m hub).0.meta) (join s m hub).0 (connect fuel sends s m hub)
  connect-Ends fuel s m hub new good few =
      let joined = (join s m hub).0 in
      let more : length joined.meta ≤ suc (length hub.meta) =
        unfold join in length-put-le s m hub.meta in
      unfold connect in
      announce-Ends fuel hub_presence_join (join s m hub).1 joined
        (join-IsConsistent s m hub new good) (omega (arith, more, few))
