-- ===== src/EventPipeline/Tests.antt =====
-- The outbox, the keys and the cursors at work, and the theorems at concrete inputs.
use game_gardens_of_karaxas.Base.{
  ◌<◌, ◌≡◌, refl, true, false, none, some, List, [], ◌∷◌, map, arith, ◌==◌, nat_equality,
  string_equality, pair_equality, option_equality, All,
}
use game_gardens_of_karaxas.Base.Int.{pos}
use game_gardens_of_karaxas.Base.Text
use game_gardens_of_karaxas.EventPipeline.Outbox.{
  WorldOutbox, OutboxTable, OutboxRequest, enqueue_outbox_message, is_claimable, lock_row,
  safe_limit, has_row, claim_outbox_batch, outbox_row, mark_outbox_processed,
}
use game_gardens_of_karaxas.EventPipeline.Claims.{
  OutboxOp, enqueue, claim, retry, run_ops, processed_is_final,
}
use game_gardens_of_karaxas.EventPipeline.Disjoint.{claims_disjoint}
use game_gardens_of_karaxas.EventPipeline.Idempotency.{
  KeyTable, reserved, reserve, reserve_idempotency_key, pending_row, IsUnique,
  reserve_idempotency_key-IsUnique,
}

abbrev message : OutboxRequest
message = record {
  topic = " world ";
  payload_json = "{}";
  event_id = none;
  partition_key = "";
  next_attempt_at = none;
}

-- two messages
abbrev table₀ : OutboxTable
table₀ =
    (enqueue_outbox_message 10 message
      (enqueue_outbox_message 10 message (record { rows = []; next_id = 1 })).1).1

claim_test : map (λ (r : WorldOutbox). r.id) (claim_outbox_batch " w " (pos 1) 20 table₀).0 ≡ 1 ∷ []
unfolding claim_outbox_batch enqueue_outbox_message is_claimable lock_row safe_limit
claim_test = refl

abbrev first_row : WorldOutbox
first_row = record {
  id = 1;
  topic = "world";
  partition_key = none;
  event_id = none;
  payload_json = "{}";
  attempt_count = 0;
  next_attempt_at = 10;
  locked_by = none;
  locked_at = none;
  processed_at = none;
  last_error = "";
}

table₀_fresh : All (λ r. r.id < table₀.next_id) table₀.rows
unfolding enqueue_outbox_message
table₀_fresh = omega arith

table₀_row : outbox_row 1 table₀.rows ≡ some first_row
unfolding enqueue_outbox_message Text.strip_or Text.strip_or_none
table₀_row = refl

abbrev later_ops : List OutboxOp
later_ops = retry 1 (pos 5) "late" 40 ∷ claim "w" (pos 9) 50 ∷ enqueue 60 message ∷ []

-- the rows that are not claimed first are released
abbrev busy_ops : List OutboxOp
busy_ops = enqueue 30 message ∷ claim "v" (pos 1) 40 ∷ retry 2 (pos 0) "late" 50 ∷ []

claims_disjoint_example :
    let (first, t') = claim_outbox_batch "w" (pos 1) 20 table₀ in
    All
      (λ (r : WorldOutbox). has_row r.id first ≡ false)
      (claim_outbox_batch "v" (pos 9) 90 (run_ops busy_ops t')).0
unfolding claim_outbox_batch is_claimable safe_limit lock_row enqueue_outbox_message
claims_disjoint_example =
    claims_disjoint "w" "v" (pos 1) (pos 9) 20 90 busy_ops table₀ table₀_fresh refl

processed_is_final_example :
    let t' = run_ops later_ops (mark_outbox_processed 1 30 table₀).1 in
    All (λ (r : WorldOutbox). (r.id == 1) ≡ false) (claim_outbox_batch "w" (pos 9) 90 t').0
processed_is_final_example =
    processed_is_final 1 30 later_ops "w" (pos 9) 90 table₀ first_row table₀_fresh table₀_row

abbrev keys₀ : KeyTable
keys₀ = record { rows = []; next_id = 1 }

reserve_test :
    (reserve "battle" "k1" "h1" keys₀).0 ≡ reserved (pending_row 1 "battle" "k1" "h1") true
unfolding reserve
reserve_test = refl

empty_scope_test : (reserve_idempotency_key (λ s. s) "  " "k1" "{}" keys₀).1 ≡ keys₀
unfolding reserve_idempotency_key Text.strip
empty_scope_test = refl

reserve_idempotency_key-IsUnique_example :
    IsUnique (reserve_idempotency_key (λ s. s) "battle" "k1" "{}" keys₀).1
reserve_idempotency_key-IsUnique_example =
    reserve_idempotency_key-IsUnique (λ s. s) "battle" "k1" "{}" keys₀ (λ scope key. omega arith)

named : Text.is_empty (Text.strip "sync ") ≡ false
unfolding Text.strip
named = refl
