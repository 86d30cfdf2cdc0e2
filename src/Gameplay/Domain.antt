-- ===== src/Gameplay/Domain.antt =====
-- api/routes/gameplay.py: `_domain_action_command`, and what each command for the world service
-- satisfies.
use game_gardens_of_karaxas.Base.{
  ℕ, ◌≤◌, String, ◌≡◌, inl, inr, Bool, true, ◌||◌, Option, none, some, arith, ltb, ◌==◌,
  nat_equality, string_equality, pair_equality, option_equality, if◌then◌else◌, Bool-cases,
}
use game_gardens_of_karaxas.Base.Int.{ℤ, pos, negsuc}
use game_gardens_of_karaxas.Base.Text.{strip}
use game_gardens_of_karaxas.Gameplay.Commands.{
  Parsed, parsed, invalid, and_then, JsonValue, text, numeral, to_int, in_range, payload_int,
  payload_bool,
}

pub data DomainCommand : Type 0 where
  queue_supply_transfer : ℕ → ℕ → ℕ → ℕ → ℕ → DomainCommand
  queue_trade_shipment : ℕ → ℕ → ℕ → ℕ → ℕ → DomainCommand
  request_intel_report : ℕ → ℕ → DomainCommand
  set_treaty_status : ℕ → ℕ → ℕ → String → Bool → ℕ → DomainCommand

abbrev pub is_treaty_kind : String → Bool
is_treaty_kind k = (k == "trade_pact") || (k == "non_aggression") || (k == "military_access")

-- `str(raw.get(key, ""))`: the text of a value that is no text is none of the kinds
abbrev pub value_text : JsonValue → String
value_text (text s) = s
value_text (numeral s _) = s
value_text _ = ""

abbrev pub id_field : (String → JsonValue) → String → Parsed ℕ
id_field raw key = payload_int 1 2147483647 (raw key)

abbrev pub amount_field : (String → JsonValue) → String → Parsed ℕ
amount_field raw key = payload_int 0 100000 (raw key)

-- the two ids and three amounts of a transfer or a shipment
unfoldable pub goods_command :
    (ℕ → ℕ → ℕ → ℕ → ℕ → DomainCommand)
    → (String → JsonValue)
    → String
    → String
    → Parsed DomainCommand
goods_command build raw from_key to_key = and_then (id_field raw from_key) (λ a.
    and_then (id_field raw to_key) (λ b. and_then (amount_field raw "food") (λ food.
      and_then (amount_field raw "horses") (λ horses.
        and_then (amount_field raw "materiel")
          (λ materiel. parsed (build a b food horses materiel))))))

unfoldable pub intel_command : (String → JsonValue) → Parsed DomainCommand
intel_command raw = and_then (id_field raw "informant_id") (λ informant.
    and_then (id_field raw "subject_settlement")
      (λ subject. parsed (request_intel_report informant subject)))

unfoldable pub treaty_command :
    (String → String) → (String → JsonValue) → String → Parsed DomainCommand
treaty_command lower raw kind = and_then (id_field raw "treaty_id") (λ treaty.
    and_then (id_field raw "faction_a") (λ a. and_then (id_field raw "faction_b") (λ b.
      and_then (payload_bool lower (raw "active")) (λ active.
        and_then (payload_int 0 10000 (raw "trust_bp"))
          (λ trust. parsed (set_treaty_status treaty a b kind active trust))))))

unfoldable pub domain_action_command :
    (String → String) → String → (String → JsonValue) → Parsed DomainCommand
domain_action_command lower action_type raw =
    let action = lower (strip action_type) in
    let kind = lower (strip (value_text (raw "treaty_kind"))) in
    if action == "queue_supply_transfer"
    then goods_command queue_supply_transfer raw "from_army" "to_army"
    else if action == "queue_trade_shipment"
    then goods_command queue_trade_shipment raw "origin_settlement" "destination_settlement"
    else if action == "request_intel_report"
    then intel_command raw
    else if action == "set_treaty_status"
    then (if is_treaty_kind kind
        then treaty_command lower raw kind
        else invalid "invalid_domain_action_payload")
    else invalid "invalid_domain_action_type"

abbrev pub IsId : ℕ → Type 0
IsId n = (1 ≤ n) × (n ≤ 2147483647)

abbrev pub IsAmount : ℕ → Type 0
IsAmount n = n ≤ 100000

abbrev pub AreGoods : ℕ → ℕ → ℕ → ℕ → ℕ → Type 0
AreGoods a b food horses materiel =
    IsId a × IsId b × IsAmount food × IsAmount horses × IsAmount materiel

-- ids are positive 32-bit integers, amounts and the trust are within their bounds, a kind is known
abbrev pub IsDomainCommand : DomainCommand → Type 0
IsDomainCommand (queue_supply_transfer a b food horses materiel) = AreGoods a b food horses materiel
IsDomainCommand (queue_trade_shipment a b food horses materiel) = AreGoods a b food horses materiel
IsDomainCommand (request_intel_report informant subject) = IsId informant × IsId subject
IsDomainCommand (set_treaty_status treaty a b kind active trust) =
    IsId treaty × IsId a × IsId b × (is_treaty_kind kind ≡ true) × (trust ≤ 10000)

-- what is parsed satisfies the predicate
abbrev pub IsParsed : {A : Type 0} → (A → Type 0) → Parsed A → Type 0
IsParsed P (parsed a) = P a
IsParsed P (invalid _) = Unit

pub and_then-IsParsed :
    {A B : Type 0} (P : A → Type 0) (Q : B → Type 0) (p : Parsed A) (f : A → Parsed B)
    → IsParsed P p
    → ((a : A) → P a → IsParsed Q (f a))
    → IsParsed Q (and_then p f)
and_then-IsParsed P Q (parsed a) f h k = k a h
and_then-IsParsed P Q (invalid e) f h k = tt

in_range-IsParsed :
    (low high : ℕ) (v : Option ℤ) → IsParsed (λ n. (low ≤ n) × (n ≤ high)) (in_range low high v)
in_range-IsParsed low high none = tt
in_range-IsParsed low high (some (negsuc n)) = tt
in_range-IsParsed low high (some (pos n)) = elim (Bool-cases (ltb n low || ltb high n)) [
  | inl outside ↦ rw outside tt
  | inr inside ↦ rw inside (ground (arith, inside), ground (arith, inside))
]

pub payload_int-IsParsed :
    (low high : ℕ) (v : JsonValue) → IsParsed (λ n. (low ≤ n) × (n ≤ high)) (payload_int low high v)
unfolding payload_int
payload_int-IsParsed low high v = in_range-IsParsed low high (to_int v)
