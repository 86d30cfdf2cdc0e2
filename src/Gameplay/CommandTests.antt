-- ===== src/Gameplay/CommandTests.antt =====
-- Commands that are built from concrete requests.
use game_gardens_of_karaxas.Base.{
  arith, String, ◌≡◌, refl, true, none, some, ◌==◌, nat_equality, string_equality, pair_equality,
  option_equality, if◌then◌else◌,
}
use game_gardens_of_karaxas.Base.Int.{pos, negsuc}
use game_gardens_of_karaxas.Base.Text.{strip, lstrip, rstrip, is_space}
use game_gardens_of_karaxas.Gameplay.Commands.{
  parsed, invalid, BattleCommandRequest, battle_action_command, set_battle_formation, JsonValue,
  missing, integer, boolean, payload_int,
}
use game_gardens_of_karaxas.Gameplay.Domain.{
  queue_supply_transfer, request_intel_report, domain_action_command, intel_command,
  IsDomainCommand, IsParsed,
}
use game_gardens_of_karaxas.Gameplay.Valid.{transfer_accepted, domain_action_command-IsParsed}

abbrev wedge : BattleCommandRequest
wedge = record {
  battle_instance_id = 9;
  action_type = " set_formation ";
  side = some "attacker";
  formation = some "wedge";
  reserve_strength = none;
}

wedge_command :
    battle_action_command (λ s. s) wedge ≡ parsed (set_battle_formation 9 "attacker" "wedge")
unfolding battle_action_command strip lstrip rstrip is_space
wedge_command = refl

abbrev report : String → JsonValue
report key =
    if key == "informant_id"
    then integer (pos 4)
    else if key == "subject_settlement"
    then boolean true
    else missing

report_command :
    domain_action_command (λ s. s) "request_intel_report" report ≡ parsed (request_intel_report 4 1)
unfolding domain_action_command intel_command payload_int strip lstrip rstrip is_space
report_command = refl

negative : payload_int 0 10 (integer (negsuc 0)) ≡ invalid "invalid_domain_action_payload"
unfolding payload_int
negative = refl

domain_action_command-IsParsed_example :
    IsParsed IsDomainCommand (domain_action_command (λ s. s) "request_intel_report" report)
domain_action_command-IsParsed_example =
    domain_action_command-IsParsed (λ s. s) "request_intel_report" report

abbrev cargo : String → JsonValue
cargo key =
    if key == "from_army"
    then integer (pos 7)
    else if key == "to_army"
    then integer (pos 8)
    else if key == "food"
    then integer (pos 50)
    else if key == "horses"
    then integer (pos 0)
    else if key == "materiel"
    then integer (pos 9)
    else missing

transfer_accepted_example :
    domain_action_command (λ s. s) "queue_supply_transfer" cargo
    ≡ parsed (queue_supply_transfer 7 8 50 0 9)
unfolding strip lstrip rstrip is_space
transfer_accepted_example =
    transfer_accepted (λ s. s) "queue_supply_transfer" cargo 7 8 50 0 9 refl refl refl refl refl
      refl
      (
        (omega arith, omega arith),
        (omega arith, omega arith),
        omega arith,
        omega arith,
        omega arith,
      )
