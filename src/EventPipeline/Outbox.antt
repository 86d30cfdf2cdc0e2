-- ===== src/EventPipeline/Outbox.antt =====
-- event_pipeline.py: the event log and the outbox.
use game_gardens_of_karaxas.Base.{
  ℕ, ◌+◌, min, max, String, Bool, ◌&&◌, Option, none, some, List, [], ◌∷◌, ◌++◌, map, leb, ◌==◌,
  nat_equality, string_equality, pair_equality, option_equality, is_none, or_default, first_where,
  select, update_where, any_where, take, micros,
}
use game_gardens_of_karaxas.Base.Int.{ℤ, pos_part}
use game_gardens_of_karaxas.Base.Text.{strip, strip_or, strip_or_none}

pub record WorldEvent : Type 0 where
  pub id : ℕ
  pub stream_key : String
  pub aggregate_type : String
  pub aggregate_id : String
  pub event_type : String
  pub schema_version : ℕ
  pub trace_id : String
  pub payload_json : String
  pub metadata_json : String
  pub tick : Option ℕ
  pub idempotency_key : Option String

pub record WorldOutbox : Type 0 where
  pub id : ℕ
  pub topic : String
  pub partition_key : Option String
  pub event_id : Option ℕ
  pub payload_json : String
  pub attempt_count : ℕ
  pub next_attempt_at : ℕ
  pub locked_by : Option String
  pub locked_at : Option ℕ
  pub processed_at : Option ℕ
  pub last_error : String

pub record EventLog : Type 0 where
  pub events : List WorldEvent
  pub next_event_id : ℕ

pub record OutboxTable : Type 0 where
  pub rows : List WorldOutbox
  pub next_id : ℕ

pub record EventRequest : Type 0 where
  pub stream_key : String
  pub aggregate_type : String
  pub aggregate_id : String
  pub event_type : String
  pub schema_version : ℤ
  pub trace_id : String
  pub payload_json : String
  pub metadata_json : Option String
  pub tick : Option ℕ
  pub idempotency_key : String

unfoldable pub append_world_event : EventRequest → EventLog → WorldEvent × EventLog
append_world_event r log =
    let row : WorldEvent = record {
      id = log.next_event_id;
      stream_key = strip_or r.stream_key "default";
      aggregate_type = strip_or r.aggregate_type "unknown";
      aggregate_id = strip_or r.aggregate_id "unknown";
      event_type = strip_or r.event_type "unknown";
      schema_version = max 1 (pos_part r.schema_version);
      trace_id = strip_or r.trace_id "unknown";
      payload_json = r.payload_json;
      metadata_json = or_default r.metadata_json "{}";
      tick = r.tick;
      idempotency_key = strip_or_none r.idempotency_key;
    } in
    (row, record { events = log.events ++ row ∷ []; next_event_id = log.next_event_id + 1 })

pub record OutboxRequest : Type 0 where
  pub topic : String
  pub payload_json : String
  pub event_id : Option ℕ
  pub partition_key : String
  pub next_attempt_at : Option ℕ

unfoldable pub enqueue_outbox_message : ℕ → OutboxRequest → OutboxTable → WorldOutbox × OutboxTable
enqueue_outbox_message now r t =
    let row : WorldOutbox = record {
      id = t.next_id;
      topic = strip_or r.topic "default";
      partition_key = strip_or_none r.partition_key;
      event_id = r.event_id;
      payload_json = r.payload_json;
      attempt_count = 0;
      next_attempt_at = or_default r.next_attempt_at now;
      locked_by = none;
      locked_at = none;
      processed_at = none;
      last_error = "";
    } in
    (row, record { rows = t.rows ++ row ∷ []; next_id = t.next_id + 1 })

-- the `where` of `claim_outbox_batch`
unfoldable pub is_claimable : ℕ → WorldOutbox → Bool
is_claimable now row =
    is_none row.processed_at && is_none row.locked_at && leb row.next_attempt_at now

unfoldable pub lock_row : ℕ → String → WorldOutbox → WorldOutbox
lock_row now worker row = record row {
  locked_by = some worker;
  locked_at = some now;
  attempt_count = row.attempt_count + 1;
}

-- `max(1, min(limit, 500))`
unfoldable pub safe_limit : ℤ → ℕ
safe_limit limit = max 1 (min (pos_part limit) 500)

abbrev pub has_row : ℕ → List WorldOutbox → Bool
has_row i = any_where (λ (c : WorldOutbox). c.id == i)

unfoldable pub claim_outbox_batch : String → ℤ → ℕ → OutboxTable → List WorldOutbox × OutboxTable
claim_outbox_batch worker_id limit now t =
    let chosen = take (safe_limit limit) (select (is_claimable now) t.rows) in
    let lock = lock_row now (strip_or worker_id "worker") in
    (
      map lock chosen,
      record t { rows = update_where (λ (r : WorldOutbox). has_row r.id chosen) lock t.rows },
    )

abbrev pub outbox_row : ℕ → List WorldOutbox → Option WorldOutbox
outbox_row i = first_where (λ (r : WorldOutbox). r.id == i)

-- `at` is the argument `processed_at`, or the clock
unfoldable pub process_row : ℕ → WorldOutbox → WorldOutbox
process_row at row = record row {
  processed_at = some at;
  locked_at = none;
  locked_by = none;
  last_error = "";
}

unfoldable pub mark_outbox_processed : ℕ → ℕ → OutboxTable → Option WorldOutbox × OutboxTable
mark_outbox_processed outbox_id at t =
    let rows' = update_where (λ (r : WorldOutbox). r.id == outbox_id) (process_row at) t.rows in
    elim (outbox_row outbox_id t.rows) [
      | none ↦ (none, t)
      | some row ↦ (some (process_row at row), record t { rows = rows' })
    ]

unfoldable pub retry_row : ℤ → String → ℕ → WorldOutbox → WorldOutbox
retry_row delay_seconds last_error at row = record row {
  next_attempt_at = at + micros (pos_part delay_seconds);
  locked_at = none;
  locked_by = none;
  last_error = strip last_error;
}

unfoldable pub mark_outbox_retry :
    ℕ → ℤ → String → ℕ → OutboxTable → Option WorldOutbox × OutboxTable
mark_outbox_retry outbox_id delay_seconds last_error at t =
    let retry = retry_row delay_seconds last_error at in
    let rows' = update_where (λ (r : WorldOutbox). r.id == outbox_id) retry t.rows in
    elim (outbox_row outbox_id t.rows) [
      | none ↦ (none, t)
      | some row ↦ (some (retry row), record t { rows = rows' })
    ]
