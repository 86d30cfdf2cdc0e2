-- ===== src/Gameplay/Commands.antt =====
-- api/routes/gameplay.py: the commands for the world service (`_battle_action_command`,
-- `_domain_action_command`) and what is read from a client's JSON payload. The commands are data types
-- here, JSON objects there.
use game_gardens_of_karaxas.Base.{
  ℕ, String, ◌≡◌, Bool, true, false, not, ◌||◌, Option, none, some, ltb, ◌==◌, nat_equality,
  string_equality, pair_equality, option_equality, if◌then◌else◌, or_default,
}
use game_gardens_of_karaxas.Base.Int.{ℤ, pos, negsuc}
use game_gardens_of_karaxas.Base.Text.{strip}

-- an answer 422, with its code
pub data Parsed (A : Type 0) : Type 0 where
  parsed : A → Parsed A
  invalid : String → Parsed A

abbrev pub and_then : {A B : Type 0} → Parsed A → (A → Parsed B) → Parsed B
and_then (parsed a) f = f a
and_then (invalid e) f = invalid e

pub data BattleCommand : Type 0 where
  set_battle_formation : ℕ → String → String → BattleCommand
  deploy_battle_reserve : ℕ → String → ℕ → BattleCommand
  force_resolve_battle_instance : ℕ → BattleCommand

pub record BattleCommandRequest : Type 0 where
  pub battle_instance_id : ℕ
  pub action_type : String
  pub side : Option String
  pub formation : Option String
  pub reserve_strength : Option ℕ

abbrev pub is_side : String → Bool
is_side s = (s == "attacker") || (s == "defender")

abbrev pub is_formation : String → Bool
is_formation f = (f == "line") || (f == "wedge") || (f == "defensive")

-- the command of `deploy_reserve`, whose strength is required
abbrev pub deploy : ℕ → String → Option ℕ → Parsed BattleCommand
deploy instance_id side none = invalid "missing_reserve_strength"
deploy instance_id side (some strength) = parsed (deploy_battle_reserve instance_id side strength)

unfoldable pub battle_action_command :
    (String → String) → BattleCommandRequest → Parsed BattleCommand
battle_action_command lower request =
    let action = lower (strip request.action_type) in
    let side = lower (strip (or_default request.side "")) in
    let formation = lower (strip (or_default request.formation "")) in
    if action == "set_formation"
    then (if not (is_side side)
        then invalid "invalid_battle_side"
        else if not (is_formation formation)
        then invalid "invalid_formation"
        else parsed (set_battle_formation request.battle_instance_id side formation))
    else if action == "deploy_reserve"
    then (if not (is_side side)
        then invalid "invalid_battle_side"
        else deploy request.battle_instance_id side request.reserve_strength)
    else if action == "force_resolve"
    then parsed (force_resolve_battle_instance request.battle_instance_id)
    else invalid "invalid_battle_action_type"

-- what the world service takes: a side and a formation that it knows, for the instance of the request
abbrev pub IsBattleCommand : ℕ → BattleCommand → Type 0
IsBattleCommand i (set_battle_formation j side formation) =
    (j ≡ i) × (is_side side ≡ true) × (is_formation formation ≡ true)
IsBattleCommand i (deploy_battle_reserve j side strength) = (j ≡ i) × (is_side side ≡ true)
IsBattleCommand i (force_resolve_battle_instance j) = j ≡ i

-- a JSON value of the payload, as far as `int` and `isinstance` tell them apart; `numeral` is a text
-- that `int` reads, `number` a finite float with its integer part; an infinite one is left out
pub data JsonValue : Type 0 where
  missing : JsonValue
  integer : ℤ → JsonValue
  number : ℤ → JsonValue
  boolean : Bool → JsonValue
  numeral : String → ℤ → JsonValue
  text : String → JsonValue
  container : JsonValue

abbrev pub bool_to_int : Bool → ℤ
bool_to_int true = pos 1
bool_to_int false = pos 0

-- `int(value)`; no value where it raises `TypeError` or `ValueError`
abbrev pub to_int : JsonValue → Option ℤ
to_int (integer z) = some z
to_int (number z) = some z
to_int (boolean b) = some (bool_to_int b)
to_int (numeral _ z) = some z
to_int _ = none

-- the test of the bounds, which are natural numbers
abbrev pub in_range : ℕ → ℕ → Option ℤ → Parsed ℕ
in_range low high none = invalid "invalid_domain_action_payload"
in_range low high (some (negsuc n)) = invalid "invalid_domain_action_payload"
in_range low high (some (pos n)) =
    if ltb n low || ltb high n then invalid "invalid_domain_action_payload" else parsed n

unfoldable pub payload_int : ℕ → ℕ → JsonValue → Parsed ℕ
payload_int low high value = in_range low high (to_int value)

abbrev pub bool_text : String → Parsed Bool
bool_text s =
    if (s == "true") || (s == "1") || (s == "yes")
    then parsed true
    else if (s == "false") || (s == "0") || (s == "no")
    then parsed false
    else invalid "invalid_domain_action_payload"

unfoldable pub payload_bool : (String → String) → JsonValue → Parsed Bool
payload_bool lower (boolean b) = parsed b
payload_bool lower (text s) = bool_text (lower (strip s))
payload_bool lower (numeral s _) = bool_text (lower (strip s))
payload_bool lower _ = invalid "invalid_domain_action_payload"
