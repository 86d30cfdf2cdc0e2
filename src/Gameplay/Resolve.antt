-- ===== src/Gameplay/Resolve.antt =====
-- api/routes/gameplay.py: `resolve_action`. The session is the one of the request; `lower` is
-- `str.lower`.
use game_gardens_of_karaxas.Base.{
  ℕ, ◌+◌, String, Bool, false, not, ◌&&◌, Option, none, some, List, [], ◌∷◌, ◌++◌, ltb, ◌==◌,
  nat_equality, string_equality, pair_equality, option_equality, if◌then◌else◌, first_where,
  update_where, any_where,
}
use game_gardens_of_karaxas.Base.Text.{is_empty, strip}
use game_gardens_of_karaxas.Models.{UserSession}
use game_gardens_of_karaxas.Gameplay.Rewards.{
  Item, Character, Runtime, ActionResolution, resolve_combat_and_rewards, apply_progression,
}

pub record ActionAudit : Type 0 where
  pub session_id : String
  pub user_id : ℕ
  pub character_id : ℕ
  pub action_nonce : String
  pub action_type : String
  pub accepted : Bool
  pub reason_code : String
  pub created_at : ℕ

-- `security` has the types of the security events that were written.
pub record World : Type 0 where
  pub characters : List Character
  pub session : UserSession
  pub audits : List ActionAudit
  pub security : List String

pub record ActionRequest : Type 0 where
  pub character_id : ℕ
  pub action_nonce : String
  pub action_type : String
  pub skill_key : Option String
  pub reported_x : ℕ
  pub reported_y : ℕ
  pub delta_micros : ℕ
  pub enemies_defeated : ℕ
  pub requested_loot_tier : ℕ

pub record ActionAnswer (Damage : Type 0) : Type 0 where
  pub accepted : Bool
  pub reason_code : String
  pub server_damage : Damage
  pub xp_granted : ℕ
  pub levels_gained : ℕ
  pub loot_granted : List Item
  pub position_x : ℕ
  pub position_y : ℕ
  pub level : ℕ
  pub experience : ℕ

pub data ActionResult (Damage : Type 0) : Type 0 where
  answer : ActionAnswer Damage → ActionResult Damage
  character_not_found : ActionResult Damage
  -- an `IntegrityError` of a commit that the handler does not catch
  uncaught_integrity_error : ActionResult Damage

-- the unique constraint uq_gameplay_action_session_nonce
abbrev pub has_nonce : String → String → List ActionAudit → Bool
has_nonce session nonce =
    any_where (λ (a : ActionAudit). (a.session_id == session) && (a.action_nonce == nonce))

-- the newest audit row of a session; the rows are in the order of their ids
abbrev pub or_row : Option ActionAudit → Option ActionAudit → Option ActionAudit
or_row none other = other
or_row (some a) _ = some a

abbrev pub latest_audit : String → List ActionAudit → Option ActionAudit
latest_audit session [] = none
latest_audit session (a ∷ rows) =
    or_row (latest_audit session rows) (if a.session_id == session then some a else none)

-- `elapsed < 0.05`
abbrev pub is_too_soon : ℕ → Option ActionAudit → Bool
is_too_soon now none = false
is_too_soon now (some a) = ltb now (a.created_at + 50000)

-- `int(x or reported)`: a position of 0 counts as none
abbrev pub position_or : Option ℕ → ℕ → ℕ
position_or none reported = reported
position_or (some x) reported = if x == 0 then reported else x

abbrev pub audit_row : ℕ → ActionRequest → Character → Bool → String → UserSession → ActionAudit
audit_row now request c accepted reason s = record {
  session_id = s.id;
  user_id = s.user_id;
  character_id = c.id;
  action_nonce = request.action_nonce;
  action_type = request.action_type;
  accepted = accepted;
  reason_code = reason;
  created_at = now;
}

abbrev pub refusal :
    {Damage : Type 0}
    → Damage
    → String
    → ActionRequest
    → Character
    → UserSession
    → ActionAnswer Damage
refusal no_damage reason request c s = record {
  accepted = false;
  reason_code = reason;
  server_damage = no_damage;
  xp_granted = 0;
  levels_gained = 0;
  loot_granted = [];
  position_x = position_or s.current_location_x request.reported_x;
  position_y = position_or s.current_location_y request.reported_y;
  level = c.level;
  experience = c.experience;
}

-- the two early refusals: an audit row, a security event and a commit that is not guarded
unfoldable pub refuse :
    {Damage : Type 0}
    → Damage
    → String
    → String
    → ℕ
    → ActionRequest
    → Character
    → World
    → ActionResult Damage × World
refuse no_damage reason event now request c world =
    if has_nonce world.session.id request.action_nonce world.audits
    then (uncaught_integrity_error, world)
    else (
      answer (refusal no_damage reason request c world.session),
      record world {
        audits = world.audits ++ audit_row now request c false reason world.session ∷ [];
        security = world.security ++ event ∷ [];
      },
    )

-- the character behind the action; the assignment of the inventory is taken as a write of the column
abbrev pub moved : ActionRequest → List Item → Character → Character
moved request loot c = record c {
  inventory = c.inventory ++ loot;
  location_x = some request.reported_x;
  location_y = some request.reported_y;
}

abbrev pub located : ActionRequest → Character → UserSession → UserSession
located request c s = record s {
  current_location_x = some request.reported_x;
  current_location_y = some request.reported_y;
  current_character_id = some c.id;
}

abbrev pub success :
    {Damage : Type 0}
    → ActionRequest
    → ActionResolution Damage
    → ℕ
    → Character
    → ActionAnswer Damage
success request r levels c = record {
  accepted = r.accepted;
  reason_code = r.reason_code;
  server_damage = r.server_damage;
  xp_granted = r.xp_granted;
  levels_gained = levels;
  loot_granted = r.loot_granted;
  position_x = request.reported_x;
  position_y = request.reported_y;
  level = c.level;
  experience = c.experience;
}

-- the writes and the guarded commit: a rollback leaves the world as it was
unfoldable pub commit_action :
    {Damage : Type 0}
    → Damage
    → ℕ
    → ActionRequest
    → Character
    → ActionResolution Damage
    → World
    → ActionResult Damage × World
commit_action no_damage now request c r world =
    let (levels, grown) = apply_progression c r.xp_granted in
    let after = moved request r.loot_granted grown in
    if has_nonce world.session.id request.action_nonce world.audits
    then (answer (refusal no_damage "action_nonce_reused" request c world.session), world)
    else (
      answer (success request r levels after),
      record world {
        characters = update_where (λ (d : Character). d.id == c.id) (λ _. after) world.characters;
        session = located request c world.session;
        audits =
            world.audits ++ audit_row now request c r.accepted r.reason_code world.session ∷ [];
      },
    )

-- the key of the skill: `payload.skill_key.strip().lower() if payload.skill_key else None`
abbrev pub skill_of : (String → String) → Option String → Option String
skill_of lower none = none
skill_of lower (some key) = if is_empty key then none else some (lower (strip key))

-- the handler for a character of the user
unfoldable pub resolve_for :
    {Damage : Type 0}
    → Runtime Damage
    → (String → String)
    → ℕ
    → ActionRequest
    → Character
    → World
    → ActionResult Damage × World
resolve_for runtime lower now request c world =
    let s = world.session in
    let movement_ok =
      runtime.movement_sanity_ok s.current_location_x s.current_location_y request.reported_x
        request.reported_y request.delta_micros in
    let r =
      resolve_combat_and_rewards runtime (lower (strip request.action_type))
        (skill_of lower request.skill_key) c.stats request.enemies_defeated
        request.requested_loot_tier in
    if not movement_ok
    then refuse runtime.zero_damage "movement_sanity_failed" "gameplay_movement_sanity_failed" now
        request c world
    else if is_too_soon now (latest_audit s.id world.audits)
    then refuse runtime.zero_damage "action_rate_limited" "gameplay_action_rate_limited" now request
        c world
    else commit_action runtime.zero_damage now request c r world

abbrev pub own_character : ℕ → Option Character → Option Character
own_character user none = none
own_character user (some c) = if c.user_id == user then some c else none

unfoldable pub resolve_action :
    {Damage : Type 0}
    → Runtime Damage
    → (String → String)
    → ℕ
    → ActionRequest
    → World
    → ActionResult Damage × World
resolve_action runtime lower now request world =
    elim (own_character world.session.user_id
      (first_where (λ (c : Character). c.id == request.character_id) world.characters)) [
        | none ↦ (character_not_found, world)
        | some c ↦ resolve_for runtime lower now request c world
      ]
