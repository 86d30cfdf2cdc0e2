-- ===== src/Gameplay/Valid.antt =====
-- The commands that the gameplay routes send to the world service satisfy its bounds.
use game_gardens_of_karaxas.Base.Int.{pos}
use game_gardens_of_karaxas.Base.{
  ℕ, ◌≤◌, String, ◌≡◌, inl, inr, refl, Bool, true, Option, none, some, ◌==◌, nat_equality,
  string_equality, pair_equality, option_equality, Bool-cases, or_default, ltb, ◌||◌, false, arith,
}
use game_gardens_of_karaxas.Base.Text.{strip}
use game_gardens_of_karaxas.Gameplay.Commands.{
  integer, Parsed, parsed, invalid, and_then, is_side, deploy, IsBattleCommand, JsonValue,
  payload_int, payload_bool, battle_action_command, BattleCommandRequest, is_formation,
}
use game_gardens_of_karaxas.Gameplay.Domain.{
  DomainCommand, queue_supply_transfer, queue_trade_shipment, request_intel_report,
  set_treaty_status, is_treaty_kind, value_text, id_field, amount_field, goods_command,
  intel_command, treaty_command, domain_action_command, AreGoods, IsDomainCommand, IsParsed,
  and_then-IsParsed, payload_int-IsParsed,
}

bind-IsParsed :
    (low high : ℕ) (v : JsonValue) (f : ℕ → Parsed DomainCommand)
    → ((n : ℕ) → (low ≤ n) × (n ≤ high) → IsParsed IsDomainCommand (f n))
    → IsParsed IsDomainCommand (and_then (payload_int low high v) f)
bind-IsParsed low high v f h =
    and_then-IsParsed (λ n. (low ≤ n) × (n ≤ high)) IsDomainCommand (payload_int low high v) f
      (payload_int-IsParsed low high v) h

goods_command-IsParsed :
    (build : ℕ → ℕ → ℕ → ℕ → ℕ → DomainCommand) (raw : String → JsonValue)
    (from_key to_key : String)
    → ((a b food horses materiel : ℕ)
        → AreGoods a b food horses materiel
        → IsDomainCommand (build a b food horses materiel))
    → IsParsed IsDomainCommand (goods_command build raw from_key to_key)
unfolding goods_command
goods_command-IsParsed build raw from_key to_key good =
    bind-IsParsed 1 2147483647 (raw from_key)
      (λ a. and_then (id_field raw to_key) (λ b. and_then (amount_field raw "food") (λ food.
        and_then (amount_field raw "horses") (λ horses.
          and_then (amount_field raw "materiel")
            (λ materiel. parsed (build a b food horses materiel))))))
      (λ a a_ok.
        bind-IsParsed 1 2147483647 (raw to_key)
          (λ b. and_then (amount_field raw "food") (λ food.
            and_then (amount_field raw "horses") (λ horses.
              and_then (amount_field raw "materiel")
                (λ materiel. parsed (build a b food horses materiel)))))
          (λ b b_ok.
            bind-IsParsed 0 100000 (raw "food")
              (λ food. and_then (amount_field raw "horses") (λ horses.
                and_then (amount_field raw "materiel")
                  (λ materiel. parsed (build a b food horses materiel))))
              (λ food food_ok.
                bind-IsParsed 0 100000 (raw "horses")
                  (λ horses.
                    and_then (amount_field raw "materiel")
                      (λ materiel. parsed (build a b food horses materiel)))
                  (λ horses horses_ok.
                    bind-IsParsed 0 100000 (raw "materiel")
                      (λ materiel. parsed (build a b food horses materiel))
                      (λ materiel materiel_ok.
                        good a b food horses materiel
                          (a_ok, b_ok, food_ok.1, horses_ok.1, materiel_ok.1))))))

intel_command-IsParsed : (raw : String → JsonValue) → IsParsed IsDomainCommand (intel_command raw)
unfolding intel_command
intel_command-IsParsed raw =
    bind-IsParsed 1 2147483647 (raw "informant_id")
      (λ informant.
        and_then (id_field raw "subject_settlement")
          (λ subject. parsed (request_intel_report informant subject)))
      (λ informant ok.
        bind-IsParsed 1 2147483647 (raw "subject_settlement")
          (λ subject. parsed (request_intel_report informant subject)) (λ subject ok'. (ok, ok')))

any_bool : (p : Parsed Bool) → IsParsed (λ (_ : Bool). Unit) p
any_bool (parsed b) = tt
any_bool (invalid e) = tt

treaty_command-IsParsed :
    (lower : String → String) (raw : String → JsonValue) (kind : String)
    → is_treaty_kind kind ≡ true
    → IsParsed IsDomainCommand (treaty_command lower raw kind)
unfolding treaty_command
treaty_command-IsParsed lower raw kind known =
    let last = λ (treaty a b : ℕ) (active : Bool) (trust : ℕ).
      parsed (set_treaty_status treaty a b kind active trust) in
    let fourth = λ (treaty a b : ℕ) (active : Bool).
      and_then (payload_int 0 10000 (raw "trust_bp")) (last treaty a b active) in
    let third =
      λ (treaty a b : ℕ). and_then (payload_bool lower (raw "active")) (fourth treaty a b) in
    let second = λ (treaty a : ℕ). and_then (id_field raw "faction_b") (third treaty a) in
    bind-IsParsed 1 2147483647 (raw "treaty_id")
      (λ treaty. and_then (id_field raw "faction_a") (second treaty))
      (λ treaty treaty_ok. bind-IsParsed 1 2147483647 (raw "faction_a") (second treaty) (λ a a_ok.
        bind-IsParsed 1 2147483647 (raw "faction_b") (third treaty a) (λ b b_ok.
          and_then-IsParsed (λ (_ : Bool). Unit) IsDomainCommand (payload_bool lower (raw "active"))
            (fourth treaty a b) (any_bool (payload_bool lower (raw "active")))
            (λ active _.
              bind-IsParsed 0 10000 (raw "trust_bp") (last treaty a b active)
                (λ trust trust_ok. (treaty_ok, a_ok, b_ok, known, trust_ok.1))))))

-- Each domain command that is built from a client's payload has positive 32-bit ids, amounts of at
-- most 100000, a trust of at most 10000 and a kind of treaty that is known.
pub domain_action_command-IsParsed :
    (lower : String → String) (action_type : String) (raw : String → JsonValue)
    → IsParsed IsDomainCommand (domain_action_command lower action_type raw)
unfolding domain_action_command
domain_action_command-IsParsed lower action_type raw =
    let action = lower (strip action_type) in
    let kind = lower (strip (value_text (raw "treaty_kind"))) in
    elim (Bool-cases (action == "queue_supply_transfer")) [
      | inl supply ↦ rw supply (
          goods_command-IsParsed queue_supply_transfer raw "from_army" "to_army"
            (λ a b food horses materiel ok. ok))
      | inr no_supply ↦ elim (Bool-cases (action == "queue_trade_shipment")) [
        | inl trade ↦ rw no_supply (
            rw trade (
              goods_command-IsParsed queue_trade_shipment raw "origin_settlement"
                "destination_settlement" (λ a b food horses materiel ok. ok)))
        | inr no_trade ↦ elim (Bool-cases (action == "request_intel_report")) [
          | inl intel ↦ rw no_supply (rw no_trade (rw intel (intel_command-IsParsed raw)))
          | inr no_intel ↦ elim (Bool-cases (action == "set_treaty_status")) [
            | inl treaty ↦ elim (Bool-cases (is_treaty_kind kind)) [
              | inl known ↦ rw no_supply (
                  rw no_trade (
                    rw no_intel
                      (rw treaty (rw known (treaty_command-IsParsed lower raw kind known)))))
              | inr unknown ↦ rw no_supply (rw no_trade (rw no_intel (rw treaty (rw unknown tt))))
            ]
            | inr other ↦ rw no_supply (rw no_trade (rw no_intel (rw other tt)))
          ]
        ]
      ]
    ]

deploy-IsParsed :
    (i : ℕ) (side : String) (strength : Option ℕ)
    → is_side side ≡ true
    → IsParsed (IsBattleCommand i) (deploy i side strength)
deploy-IsParsed i side none known = tt
deploy-IsParsed i side (some n) known = (refl, known)

-- Each battle command that is built from a request is for the instance of the request, with a side and,
-- for a formation, a formation that the world service knows.
pub battle_action_command-IsParsed :
    (lower : String → String) (request : BattleCommandRequest)
    → IsParsed (IsBattleCommand request.battle_instance_id) (battle_action_command lower request)
unfolding battle_action_command
battle_action_command-IsParsed lower request =
    let action = lower (strip request.action_type) in
    let side = lower (strip (or_default request.side "")) in
    let formation = lower (strip (or_default request.formation "")) in
    elim (Bool-cases (action == "set_formation")) [
      | inl set ↦ elim (Bool-cases (is_side side)) [
        | inr no_side ↦ rw set (rw no_side tt)
        | inl known ↦ elim (Bool-cases (is_formation formation)) [
          | inl good ↦ rw set (rw known (rw good (refl, known, good)))
          | inr bad ↦ rw set (rw known (rw bad tt))
        ]
      ]
      | inr no_set ↦ elim (Bool-cases (action == "deploy_reserve")) [
        | inl reserve ↦ elim (Bool-cases (is_side side)) [
          | inl known ↦ rw no_set (
              rw reserve (
                rw known
                  (deploy-IsParsed request.battle_instance_id side request.reserve_strength known)))
          | inr no_side ↦ rw no_set (rw reserve (rw no_side tt))
        ]
        | inr no_reserve ↦ elim (Bool-cases (action == "force_resolve")) [
          | inl force ↦ rw no_set (rw no_reserve (rw force refl))
          | inr other ↦ rw no_set (rw no_reserve (rw other tt))
        ]
      ]
    ]

field_accepted :
    (low high n : ℕ) (v : JsonValue)
    → v ≡ integer (pos n)
    → low ≤ n
    → n ≤ high
    → payload_int low high v ≡ parsed n
field_accepted low high n v h a b =
    let inside : (ltb n low || ltb high n) ≡ false = ground (arith, a, b) in
    unfold payload_int in rw h (rw inside refl)

-- A supply transfer whose fields are integers within the bounds is taken, and the command has the ids
-- and the amounts of the payload, each in its place.
pub transfer_accepted :
    (lower : String → String) (action_type : String) (raw : String → JsonValue)
    (a b food horses materiel : ℕ)
    → (lower (strip action_type) == "queue_supply_transfer") ≡ true
    → raw "from_army" ≡ integer (pos a)
    → raw "to_army" ≡ integer (pos b)
    → raw "food" ≡ integer (pos food)
    → raw "horses" ≡ integer (pos horses)
    → raw "materiel" ≡ integer (pos materiel)
    → AreGoods a b food horses materiel
    → domain_action_command lower action_type raw
      ≡ parsed (queue_supply_transfer a b food horses materiel)
unfolding domain_action_command goods_command
transfer_accepted lower action_type raw a b food horses materiel action has_a has_b has_food
      has_horses has_materiel (ok_a, ok_b, ok_food, ok_horses, ok_materiel) =
    rw action (
      rw (field_accepted 1 2147483647 a (raw "from_army") has_a ok_a.0 ok_a.1) (
        rw (field_accepted 1 2147483647 b (raw "to_army") has_b ok_b.0 ok_b.1) (
          rw (field_accepted 0 100000 food (raw "food") has_food (omega arith) ok_food) (
            rw (field_accepted 0 100000 horses (raw "horses") has_horses (omega arith) ok_horses) (
              rw
                (field_accepted 0 100000 materiel (raw "materiel") has_materiel (omega arith)
                  ok_materiel)
                refl)))))
