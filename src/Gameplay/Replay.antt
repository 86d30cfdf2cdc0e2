-- ===== src/Gameplay/Replay.antt =====
-- What the audit of the actions guarantees.
use game_gardens_of_karaxas.Base.{
  ℕ, ◌+◌, ◌≤◌, ◌<◌, String, ◌≡◌, ◌⊎◌, inl, inr, refl, ◌∙◌, true, false, not, none, some, List, [],
  ◌∷◌, ◌++◌, arith, ltb, string_eq_iff, ◌==◌, nat_equality, string_equality, pair_equality,
  option_equality, if◌then◌else◌, Bool-cases, Option-cases, first_where, any_where,
}
use game_gardens_of_karaxas.Gameplay.Rewards.{
  Character, Runtime, ActionResolution, resolve_combat_and_rewards,
}
use game_gardens_of_karaxas.Base.Text.{strip}
use game_gardens_of_karaxas.Gameplay.Resolve.{
  audit_row, skill_of, World, ActionRequest, ActionResult, answer, uncaught_integrity_error,
  ActionAnswer, has_nonce, latest_audit, is_too_soon, refusal, refuse, commit_action, resolve_for,
  own_character, resolve_action, ActionAudit,
}

other_sessions :
    (session : String) (rows : List ActionAudit)
    → any_where (λ (a : ActionAudit). a.session_id == session) rows ≡ false
    → latest_audit session rows ≡ none
other_sessions session [] h = refl
other_sessions session (a ∷ rows) h = elim (Bool-cases (a.session_id == session)) [
  | inl own ↦ absurd (ground (arith, h, own))
  | inr other ↦ rw (other_sessions session rows (ground (arith, h, other))) (rw other refl)
]

-- the last row of a session, behind which only rows of other sessions stand
latest_audit-append :
    (session : String) (rows rest : List ActionAudit) (last : ActionAudit)
    → last.session_id ≡ session
    → any_where (λ (a : ActionAudit). a.session_id == session) rest ≡ false
    → latest_audit session (rows ++ last ∷ rest) ≡ some last
latest_audit-append session [] rest last own others =
    rw (other_sessions session rest others)
      (rw ((string_eq_iff last.session_id session).1 own) refl)
latest_audit-append session (a ∷ rows) rest last own others =
    rw (latest_audit-append session rows rest last own others) refl

module _ {Damage : Type 0} (runtime : Runtime Damage) (lower : String → String) (now : ℕ)
    (request : ActionRequest) (world : World) where
  refused_again :
      (no_damage : Damage) (reason event : String) (c : Character)
      → has_nonce world.session.id request.action_nonce world.audits ≡ true
      → refuse no_damage reason event now request c world ≡ (uncaught_integrity_error, world)
  unfolding refuse
  refused_again no_damage reason event c used = rw (used, refuse) refl

  committed_again :
      (no_damage : Damage) (c : Character) (r : ActionResolution Damage)
      → has_nonce world.session.id request.action_nonce world.audits ≡ true
      → commit_action no_damage now request c r world
        ≡ (answer (refusal no_damage "action_nonce_reused" request c world.session), world)
  unfolding commit_action
  committed_again no_damage c r used = rw (used, commit_action) refl

  -- the answer to a repeated action of a character
  abbrev again : Character → ActionResult Damage
  again c =
      if not (
        runtime.movement_sanity_ok world.session.current_location_x world.session.current_location_y
          request.reported_x request.reported_y request.delta_micros)
      then uncaught_integrity_error
      else if is_too_soon now (latest_audit world.session.id world.audits)
      then uncaught_integrity_error
      else answer (refusal runtime.zero_damage "action_nonce_reused" request c world.session)

  resolve_for-again :
      (c : Character)
      → has_nonce world.session.id request.action_nonce world.audits ≡ true
      → resolve_for runtime lower now request c world ≡ (again c, world)
  resolve_for-again c used =
      let moves =
        runtime.movement_sanity_ok world.session.current_location_x world.session.current_location_y
          request.reported_x request.reported_y request.delta_micros in
      let soon = is_too_soon now (latest_audit world.session.id world.audits) in
      elim (Bool-cases moves) [
        | inl fine ↦ elim (Bool-cases soon) [
          | inl early ↦
              unfold resolve_for in
              rw (fine, early, resolve_for)
                (refused_again runtime.zero_damage "action_rate_limited"
                  "gameplay_action_rate_limited" c used)
          | inr later ↦
              unfold resolve_for in
              rw (fine, later, resolve_for)
                (committed_again runtime.zero_damage c
                  (resolve_combat_and_rewards runtime (lower (strip request.action_type))
                    (skill_of lower request.skill_key) c.stats request.enemies_defeated
                    request.requested_loot_tier)
                  used)
        ]
        | inr jump ↦
            unfold resolve_for in
            rw (jump, resolve_for)
              (refused_again runtime.zero_damage "movement_sanity_failed"
                "gameplay_movement_sanity_failed" c used)
      ]

  -- A nonce that the session has used before buys nothing: the characters, their levels and
  -- inventories, the session and the audit are as they were, on every path of the handler.
  pub replay_changes_nothing :
      has_nonce world.session.id request.action_nonce world.audits ≡ true
      → (resolve_action runtime lower now request world).1 ≡ world
  replay_changes_nothing used =
      let own =
        own_character world.session.user_id
          (first_where (λ (d : Character). d.id == request.character_id) world.characters) in
      elim (Option-cases own) [
        | inl nobody ↦ unfold resolve_action in rw (nobody, resolve_action) refl
        | inr (c, mine) ↦
            unfold resolve_action in rw (mine, resolve_action) (rw (resolve_for-again c used) refl)
      ]

  again_early :
      (c : Character) (last : ActionAudit)
      → latest_audit world.session.id world.audits ≡ some last
      → now < last.created_at + 50000
      → again c ≡ uncaught_integrity_error
  again_early c last newest early =
      let soon : ltb now (last.created_at + 50000) ≡ true = ground (arith, early) in
      let refused : is_too_soon now (latest_audit world.session.id world.audits) ≡ true =
        rw newest soon in
      rw refused (ground arith)

  again_late :
      (c : Character) (last : ActionAudit)
      → latest_audit world.session.id world.audits ≡ some last
      → last.created_at + 50000 ≤ now
      → again c ≡ (
          if runtime.movement_sanity_ok world.session.current_location_x
            world.session.current_location_y request.reported_x request.reported_y
            request.delta_micros
          then answer (refusal runtime.zero_damage "action_nonce_reused" request c world.session)
          else uncaught_integrity_error)
  again_late c last newest late =
      let soon : ltb now (last.created_at + 50000) ≡ false = ground (arith, late) in
      let fine : is_too_soon now (latest_audit world.session.id world.audits) ≡ false =
        rw newest soon in
      rw fine (ground arith)

  -- An action of an own character with a nonce that the session has used before is answered with a
  -- refusal, `action_nonce_reused`, that grants nothing, exactly if its movement is allowed and the last
  -- row of the session's audit is at least 50 milliseconds old; otherwise it ends in a database error
  -- that the handler does not catch. Rows of other sessions may stand behind that row.
  pub replay_answer :
      (c : Character) (rows rest : List ActionAudit) (last : ActionAudit)
      → own_character world.session.user_id
          (first_where (λ (d : Character). d.id == request.character_id) world.characters)
        ≡ some c
      → has_nonce world.session.id request.action_nonce world.audits ≡ true
      → world.audits ≡ rows ++ last ∷ rest
      → last.session_id ≡ world.session.id
      → any_where (λ (a : ActionAudit). a.session_id == world.session.id) rest ≡ false
      → let result = (resolve_action runtime lower now request world).0 in
        let moves =
          runtime.movement_sanity_ok world.session.current_location_x
            world.session.current_location_y request.reported_x request.reported_y
            request.delta_micros in
        ((result ≡ uncaught_integrity_error) × ((moves ≡ false) ⊎ (now < last.created_at + 50000)))
        ⊎ ((r : ActionAnswer Damage) × (result ≡ answer r)
            × (r.accepted ≡ false)
            × (r.reason_code ≡ "action_nonce_reused")
            × (r.server_damage ≡ runtime.zero_damage)
            × (r.xp_granted ≡ 0)
            × (r.levels_gained ≡ 0)
            × (r.loot_granted ≡ [])
            × (moves ≡ true)
            × (last.created_at + 50000 ≤ now))
  replay_answer c rows rest last mine used table own others =
      let result : (resolve_action runtime lower now request world).0 ≡ again c =
        unfold resolve_action in rw (mine, resolve_action) (rw (resolve_for-again c used) refl) in
      let newest : latest_audit world.session.id world.audits ≡ some last =
        rw table (latest_audit-append world.session.id rows rest last own others) in
      let moves =
        runtime.movement_sanity_ok world.session.current_location_x world.session.current_location_y
          request.reported_x request.reported_y request.delta_micros in
      elim (Bool-cases (ltb now (last.created_at + 50000))) [
        | inl early ↦
            let before : now < last.created_at + 50000 = ground (arith, early) in
            inl (result ∙ again_early c last newest before, inr before)
        | inr late ↦
            let after : last.created_at + 50000 ≤ now = ground (arith, late) in
            let end = result ∙ again_late c last newest after in
            elim (Bool-cases moves) [
              | inl fine ↦ inr (
                refusal runtime.zero_damage "action_nonce_reused" request c world.session,
                end ∙ rw fine refl,
                refl,
                refl,
                refl,
                refl,
                refl,
                refl,
                fine,
                after,
              )
              | inr jump ↦ inl (end ∙ rw jump refl, inl jump)
            ]
      ]

now_used :
    (session nonce : String) (rows : List ActionAudit) (a : ActionAudit)
    → a.session_id ≡ session
    → a.action_nonce ≡ nonce
    → has_nonce session nonce (rows ++ a ∷ []) ≡ true
now_used session nonce [] a h k =
    ground (arith, string_eq_iff a.session_id session, string_eq_iff a.action_nonce nonce, h, k)
now_used session nonce (r ∷ rows) a h k = ground (arith, now_used session nonce rows a h k)

module _ {Damage : Type 0} (runtime : Runtime Damage) (lower : String → String)
    (request : ActionRequest) where
  -- the nonce is used in the world
  abbrev IsUsed : World → Type 0
  IsUsed w = has_nonce w.session.id request.action_nonce w.audits ≡ true

  refuse-IsUsed :
      (no_damage : Damage) (reason event : String) (now : ℕ) (c : Character) (world : World)
      → has_nonce world.session.id request.action_nonce world.audits ≡ false
      → IsUsed (refuse no_damage reason event now request c world).1
  unfolding refuse
  refuse-IsUsed no_damage reason event now c world fresh =
      rw (fresh, refuse)
        (now_used world.session.id request.action_nonce world.audits
          (audit_row now request c false reason world.session) refl refl)

  commit_action-IsUsed :
      (no_damage : Damage) (now : ℕ) (c : Character) (r : ActionResolution Damage) (world : World)
      → has_nonce world.session.id request.action_nonce world.audits ≡ false
      → IsUsed (commit_action no_damage now request c r world).1
  unfolding commit_action
  commit_action-IsUsed no_damage now c r world fresh =
      rw (fresh, commit_action)
        (now_used world.session.id request.action_nonce world.audits
          (audit_row now request c r.accepted r.reason_code world.session) refl refl)

  resolve_for-IsUsed :
      (now : ℕ) (c : Character) (world : World)
      → has_nonce world.session.id request.action_nonce world.audits ≡ false
      → IsUsed (resolve_for runtime lower now request c world).1
  resolve_for-IsUsed now c world fresh =
      let moves =
        runtime.movement_sanity_ok world.session.current_location_x world.session.current_location_y
          request.reported_x request.reported_y request.delta_micros in
      let soon = is_too_soon now (latest_audit world.session.id world.audits) in
      elim (Bool-cases moves) [
        | inl fine ↦ elim (Bool-cases soon) [
          | inl early ↦
              unfold resolve_for in
              rw (fine, early, resolve_for)
                (refuse-IsUsed runtime.zero_damage "action_rate_limited"
                  "gameplay_action_rate_limited" now c world fresh)
          | inr later ↦
              unfold resolve_for in
              rw (fine, later, resolve_for)
                (commit_action-IsUsed runtime.zero_damage now c
                  (resolve_combat_and_rewards runtime (lower (strip request.action_type))
                    (skill_of lower request.skill_key) c.stats request.enemies_defeated
                    request.requested_loot_tier)
                  world fresh)
        ]
        | inr jump ↦
            unfold resolve_for in
            rw (jump, resolve_for)
              (refuse-IsUsed runtime.zero_damage "movement_sanity_failed"
                "gameplay_movement_sanity_failed" now c world fresh)
      ]

  -- A request takes effect once: the same request, sent again at any time and whatever became of it
  -- the first time, leaves the characters, the session and the audit as the first one has left them.
  pub resolve_action_twice :
      (now later : ℕ) (world : World)
      → (let after = (resolve_action runtime lower now request world).1 in
          (resolve_action runtime lower later request after).1 ≡ after)
  resolve_action_twice now later world =
      let own =
        own_character world.session.user_id
          (first_where (λ (d : Character). d.id == request.character_id) world.characters) in
      elim (Bool-cases (has_nonce world.session.id request.action_nonce world.audits)) [
        | inl used ↦
            let same = replay_changes_nothing runtime lower now request world used in
            rw same (replay_changes_nothing runtime lower later request world used)
        | inr fresh ↦ elim (Option-cases own) [
          | inl nobody ↦
              let none_now : (resolve_action runtime lower now request world).1 ≡ world =
                unfold resolve_action in rw (nobody, resolve_action) refl in
              rw none_now (unfold resolve_action in rw (nobody, resolve_action) refl)
          | inr (c, mine) ↦
              let done : (resolve_action runtime lower now request world).1
                  ≡ (resolve_for runtime lower now request c world).1 =
                unfold resolve_action in rw (mine, resolve_action) refl in
              rw done (
                replay_changes_nothing runtime lower later request
                  (resolve_for runtime lower now request c world).1
                  (resolve_for-IsUsed now c world fresh))
        ]
      ]
