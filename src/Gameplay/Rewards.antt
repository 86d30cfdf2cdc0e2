-- ===== src/Gameplay/Rewards.antt =====
-- gameplay_authority.py and `_apply_progression`: what an action grants, and levels. The damage of a
-- skill is a float of combat.py, so its type and its value are fields of `Runtime`.
use game_gardens_of_karaxas.Base.{
  ℕ, ◌+◌, ◌-◌, ◌*◌, ◌%◌, ◌≤◌, ◌<◌, min, max, String, ◌≡◌, inl, inr, refl, Bool, true, false, ◌||◌,
  Option, none, some, List, [], ◌∷◌, arith, leb, ◌==◌, nat_equality, string_equality, pair_equality,
  option_equality, if◌then◌else◌, Bool-cases, length,
}
use game_gardens_of_karaxas.Base.Int.{ℤ, pos, negsuc}
use game_gardens_of_karaxas.Base.Text.{is_empty}

pub record Item : Type 0 where
  pub item_key : String
  pub qty : ℕ
  pub tier : ℕ

-- the columns of a character that an action reads or writes; `stats` is the JSON text
pub record Character : Type 0 where
  pub id : ℕ
  pub user_id : ℕ
  pub location_x : Option ℕ
  pub location_y : Option ℕ
  pub level : ℕ
  pub experience : ℕ
  pub inventory : List Item
  pub stats : String

-- The runtime configuration. `skill_damage` has no value where `compute_skill_damage` raises,
-- `loot_tier` none where the tier has no list.
pub record Runtime (Damage : Type 0) : Type 0 where
  pub xp_per_enemy : ℤ
  pub zero_damage : Damage
  pub skill_damage : String → String → Option Damage
  pub loot_tier : ℕ → Option (List String)
  pub movement_sanity_ok : Option ℕ → Option ℕ → ℕ → ℕ → ℕ → Bool

pub record ActionResolution (Damage : Type 0) : Type 0 where
  pub accepted : Bool
  pub reason_code : String
  pub server_damage : Damage
  pub xp_granted : ℕ
  pub loot_granted : List Item

-- `max(0, min(2000, enemies_defeated * xp_per_enemy))`
abbrev pub xp_for : ℕ → ℤ → ℕ
xp_for enemies (pos xp) = min 2000 (enemies * xp)
xp_for enemies (negsuc _) = 0

abbrev pub entry_at : ℕ → String → List String → String
entry_at _ d [] = d
entry_at ℕ.zero _ (e ∷ _) = e
entry_at (ℕ.suc n) d (_ ∷ es) = entry_at n d es

-- a missing, malformed or empty list of the tier is the list of one shard
abbrev pub tier_entries : Option (List String) → List String
tier_entries none = "scrap_shard" ∷ []
tier_entries (some []) = "scrap_shard" ∷ []
tier_entries (some (e ∷ es)) = e ∷ es

abbrev pub loot_for : {Damage : Type 0} → Runtime Damage → ℕ → ℕ → List Item
loot_for runtime enemies tier =
    let key = min (max tier 1) 10 in
    let entries = tier_entries (runtime.loot_tier key) in
    if enemies == 0
    then []
    else record { item_key = entry_at (enemies % length entries) "" entries; qty = 1; tier = key }
      ∷ []

abbrev pub rejected : {Damage : Type 0} → Runtime Damage → String → ActionResolution Damage
rejected runtime reason = record {
  accepted = false;
  reason_code = reason;
  server_damage = runtime.zero_damage;
  xp_granted = 0;
  loot_granted = [];
}

abbrev pub granted : {Damage : Type 0} → Runtime Damage → Damage → ℕ → ℕ → ActionResolution Damage
granted runtime damage enemies tier = record {
  accepted = true;
  reason_code = "accepted";
  server_damage = damage;
  xp_granted = xp_for enemies runtime.xp_per_enemy;
  loot_granted = loot_for runtime enemies tier;
}

-- the branch of a skill whose key is there
abbrev pub skill_result :
    {Damage : Type 0} → Runtime Damage → Option Damage → ℕ → ℕ → ActionResolution Damage
skill_result runtime none enemies tier = rejected runtime "invalid_skill"
skill_result runtime (some damage) enemies tier = granted runtime damage enemies tier

abbrev pub skill_action :
    {Damage : Type 0} → Runtime Damage → Option String → String → ℕ → ℕ → ActionResolution Damage
skill_action runtime none stats enemies tier = rejected runtime "missing_skill_key"
skill_action runtime (some key) stats enemies tier =
    if is_empty key
    then rejected runtime "missing_skill_key"
    else skill_result runtime (runtime.skill_damage stats key) enemies tier

unfoldable pub resolve_combat_and_rewards :
    {Damage : Type 0}
    → Runtime Damage
    → String
    → Option String
    → String
    → ℕ
    → ℕ
    → ActionResolution Damage
resolve_combat_and_rewards runtime action skill stats enemies tier =
    if action == "skill"
    then skill_action runtime skill stats enemies tier
    else if (action == "move") || (action == "loot") || (action == "basic_attack")
    then granted runtime runtime.zero_damage enemies tier
    else rejected runtime "invalid_action_type"

-- experience, level and levels gained
abbrev pub Progress : Type 0
Progress = ℕ × ℕ × ℕ

-- the loop of `_apply_progression`: the experience before it is more fuel than it has turns
unfoldable pub level_up : ℕ → ℕ → ℕ → ℕ → Progress
level_up ℕ.zero experience level gained = (experience, level, gained)
level_up (ℕ.suc fuel) experience level gained =
    let rest = level_up fuel (experience - 100) (level + 1) (gained + 1) in
    if leb 100 experience then rest else (experience, level, gained)

-- the levels gained, and the character
unfoldable pub apply_progression : Character → ℕ → ℕ × Character
apply_progression c xp =
    let (experience, level, gained) = level_up (c.experience + xp) (c.experience + xp) c.level 0 in
    if xp == 0 then (0, c) else (gained, record c { experience = experience; level = level })

level_up_lem :
    (fuel experience level gained : ℕ)
    → experience ≤ fuel
    → (let (e, l, g) = level_up fuel experience level gained in
        (l * 100 + e ≡ level * 100 + experience) × (l + gained ≡ level + g) × (e < 100))
unfolding level_up
level_up_lem ℕ.zero experience level gained h = (refl, refl, omega (arith, h))
level_up_lem (ℕ.suc fuel) experience level gained h = elim (Bool-cases (leb 100 experience)) [
  | inl more ↦
      let (worth, count, small) =
        level_up_lem fuel (experience - 100) (level + 1) (gained + 1) (ground (arith, h, more)) in
      rw more (ground (arith, worth, more), omega (arith, count), small)
  | inr less ↦ rw less (refl, refl, ground (arith, less))
]

-- A grant of experience loses nothing and creates nothing: a level is worth 100 points, the levels that
-- are reported are the levels that were gained, and less than a level is left over.
pub apply_progression_lem :
    (c : Character) (xp : ℕ)
    → (xp == 0) ≡ false
    → (let (gained, after) = apply_progression c xp in
        (after.level * 100 + after.experience ≡ c.level * 100 + c.experience + xp)
        × (after.level ≡ c.level + gained)
        × (after.experience < 100))
unfolding apply_progression
apply_progression_lem c xp some_xp =
    let (worth, count, small) =
      level_up_lem (c.experience + xp) (c.experience + xp) c.level 0 (omega arith) in
    rw some_xp (omega (arith, worth), omega (arith, count), small)

-- at most 2000 points and one item where the action is accepted, nothing otherwise
abbrev pub IsBounded : {Damage : Type 0} → ActionResolution Damage → Type 0
IsBounded r =
    (r.xp_granted ≤ (if r.accepted then 2000 else 0))
    × (length r.loot_granted ≤ (if r.accepted then 1 else 0))

module _ {Damage : Type 0} (runtime : Runtime Damage) where
  xp_for-le : (enemies : ℕ) (xp : ℤ) → xp_for enemies xp ≤ 2000
  xp_for-le enemies (pos n) = omega arith
  xp_for-le enemies (negsuc n) = omega arith

  granted-IsBounded :
      (damage : Damage) (enemies tier : ℕ) → IsBounded (granted runtime damage enemies tier)
  granted-IsBounded damage enemies tier = (
    xp_for-le enemies runtime.xp_per_enemy,
    elim (Bool-cases (enemies == 0)) [
      | inl no_enemy ↦ rw no_enemy (omega arith)
      | inr some_enemy ↦ rw some_enemy (omega arith)
    ],
  )

  skill_result-IsBounded :
      (damage : Option Damage) (enemies tier : ℕ)
      → IsBounded (skill_result runtime damage enemies tier)
  skill_result-IsBounded none enemies tier = (omega arith, omega arith)
  skill_result-IsBounded (some damage) enemies tier = granted-IsBounded damage enemies tier

  skill_action-IsBounded :
      (skill : Option String) (stats : String) (enemies tier : ℕ)
      → IsBounded (skill_action runtime skill stats enemies tier)
  skill_action-IsBounded none stats enemies tier = (omega arith, omega arith)
  skill_action-IsBounded (some key) stats enemies tier = elim (Bool-cases (is_empty key)) [
    | inl no_key ↦ rw no_key (omega arith, omega arith)
    | inr key_given ↦
        rw key_given (skill_result-IsBounded (runtime.skill_damage stats key) enemies tier)
  ]

  -- What an action grants is bounded: an accepted action at most 2000 points and one item, a refused
  -- one nothing, whatever the client says it has defeated.
  pub resolve_combat_and_rewards-IsBounded :
      (action : String) (skill : Option String) (stats : String) (enemies tier : ℕ)
      → IsBounded (resolve_combat_and_rewards runtime action skill stats enemies tier)
  unfolding resolve_combat_and_rewards
  resolve_combat_and_rewards-IsBounded action skill stats enemies tier =
      elim (Bool-cases (action == "skill")) [
        | inl is_skill ↦ rw (is_skill) (skill_action-IsBounded skill stats enemies tier)
        | inr no_skill ↦
            elim (Bool-cases
              ((action == "move") || (action == "loot") || (action == "basic_attack"))) [
                | inl known ↦
                    rw no_skill (rw known (granted-IsBounded runtime.zero_damage enemies tier))
                | inr unknown ↦ rw no_skill (rw unknown (omega arith, omega arith))
              ]
      ]
