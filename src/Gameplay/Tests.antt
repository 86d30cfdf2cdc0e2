-- ===== src/Gameplay/Tests.antt =====
-- Runs of the action handler at concrete inputs.
use game_gardens_of_karaxas.Base.{
  ℕ, ◌+◌, ◌*◌, ◌≤◌, ◌<◌, ◌≡◌, ◌⊎◌, refl, true, false, ◌&&◌, none, some, [], ◌∷◌, ltb, ◌==◌,
  nat_equality, string_equality, pair_equality, option_equality, if◌then◌else◌,
}
use game_gardens_of_karaxas.Base.Int.{pos}
use game_gardens_of_karaxas.Models.{new_session}
use game_gardens_of_karaxas.Gameplay.Rewards.{
  Character, Runtime, IsBounded, resolve_combat_and_rewards, level_up, apply_progression,
  apply_progression_lem, resolve_combat_and_rewards-IsBounded,
}
use game_gardens_of_karaxas.Gameplay.Resolve.{
  World, ActionAudit, ActionAnswer, answer, uncaught_integrity_error, ActionRequest, resolve_action,
}
use game_gardens_of_karaxas.Gameplay.Replay.{replay_answer, resolve_action_twice}

-- a skill's damage is a number here; the movement is bounded by 100
abbrev config : Runtime ℕ
config = record {
  xp_per_enemy = pos 12;
  zero_damage = 0;
  skill_damage = λ stats key. if key == "bolt" then some 7 else none;
  loot_tier = λ tier. if tier == 2 then some ("iron" ∷ "bone" ∷ []) else none;
  movement_sanity_ok = λ px py x y delta. ltb x 100 && ltb y 100;
}

abbrev hero : Character
hero = record {
  id = 5;
  user_id = 1;
  location_x = none;
  location_y = none;
  level = 1;
  experience = 90;
  inventory = [];
  stats = "{}";
}

abbrev world : World
world = record {
  characters = hero ∷ [];
  session = new_session "a" 1 1000000000;
  audits = [];
  security = [];
}

abbrev strike : ActionRequest
strike = record {
  character_id = 5;
  action_nonce = "nonce-001";
  action_type = "basic_attack";
  skill_key = none;
  reported_x = 10;
  reported_y = 20;
  delta_micros = 200000;
  enemies_defeated = 20;
  requested_loot_tier = 2;
}

abbrev first_strike : ActionAudit
first_strike = record {
  session_id = "a";
  user_id = 1;
  character_id = 5;
  action_nonce = "nonce-001";
  action_type = "basic_attack";
  accepted = true;
  reason_code = "accepted";
  created_at = 1000000;
}

abbrev done_before : World
done_before = record world { audits = first_strike ∷ [] }

-- 90 points and 20 enemies at 12 points each are three levels and 30 points
levels : apply_progression hero 240 ≡ (3, record hero { level = 4; experience = 30 })
unfolding apply_progression level_up
levels = refl

apply_progression_lem_example :
    (let (gained, after) = apply_progression hero 240 in
      (after.level * 100 + after.experience ≡ 1 * 100 + 90 + 240)
      × (after.level ≡ 1 + gained)
      × (after.experience < 100))
apply_progression_lem_example = apply_progression_lem hero 240 refl

resolve_combat_and_rewards-IsBounded_example :
    IsBounded (resolve_combat_and_rewards config "skill" (some "bolt") "{}" 300 2)
resolve_combat_and_rewards-IsBounded_example =
    resolve_combat_and_rewards-IsBounded config "skill" (some "bolt") "{}" 300 2

replay_answer_example :
    let result = (resolve_action config (λ s. s) 1010000 strike done_before).0 in
    ((result ≡ uncaught_integrity_error) × ((true ≡ false) ⊎ (1010000 < 1000000 + 50000)))
    ⊎ ((r : ActionAnswer ℕ) × (result ≡ answer r)
        × (r.accepted ≡ false)
        × (r.reason_code ≡ "action_nonce_reused")
        × (r.server_damage ≡ 0)
        × (r.xp_granted ≡ 0)
        × (r.levels_gained ≡ 0)
        × (r.loot_granted ≡ [])
        × (true ≡ true)
        × (1000000 + 50000 ≤ 1010000))
replay_answer_example =
    replay_answer config (λ s. s) 1010000 strike done_before hero [] [] first_strike refl refl refl
      refl refl

resolve_action_twice_example :
    (let after = (resolve_action config (λ s. s) 1000000 strike world).1 in
      (resolve_action config (λ s. s) 9000000 strike after).1 ≡ after)
resolve_action_twice_example = resolve_action_twice config (λ s. s) strike 1000000 9000000 world
