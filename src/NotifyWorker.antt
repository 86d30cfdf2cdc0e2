-- ===== src/NotifyWorker.antt =====
-- backend/app/services/outbox_notify_worker.py: the worker that listens for notifications of the outbox
-- and wakes the handler. What the connections do is a script: each one fails to open, fails to listen, or
-- answers polls until one raises; where the script ends, the stop event is set. The clock of a signal and
-- the waits are left out. JSON and the tests of digits are the standard library's, and parameters.
use game_gardens_of_karaxas.Base.{
  true, false, ℕ, ◌+◌, String, Bool, Option, none, some, List, [], ◌∷◌, ◌++◌, length, if◌then◌else◌,
}
use game_gardens_of_karaxas.Base.Int.{ℤ}
use game_gardens_of_karaxas.Base.Text.{strip, is_empty, strip_or, strip_or_none}
use game_gardens_of_karaxas.ReleasePolicy.Versions.{text_or}
mod Accounts
mod Tests

-- the value of a field `outbox_id`
pub data IdField : Type 0 where
  int_field : ℤ → IdField
  text_field : String → IdField
  other_field : IdField

-- What `json.loads` reads of a payload. The topic is its `str`, and has no value for null.
pub data PayloadJson : Type 0 where
  object : IdField → Option String → PayloadJson
  number : ℤ → PayloadJson
  other_json : PayloadJson

-- `loads` has no value where `json.loads` raises, `to_int` none where `int` does
pub record PayloadLibrary : Type 0 where
  pub loads : String → Option PayloadJson
  pub is_digits : String → Bool
  pub to_int : String → Option ℤ

abbrev pub Ids : Type 0
Ids = Option ℤ × Option String

abbrev pub digits_id : Option ℤ → Option String → Option Ids
digits_id none topic = none
digits_id (some n) topic = some (some n, topic)

abbrev pub field_ids : PayloadLibrary → IdField → Option String → Option Ids
field_ids lib (int_field n) topic = some (some n, topic)
field_ids lib (text_field t) topic =
    if lib.is_digits (strip t) then digits_id (lib.to_int (strip t)) topic else some (none, topic)
field_ids lib other_field topic = some (none, topic)

abbrev pub topic_of : Option String → Option String
topic_of none = none
topic_of (some t) = strip_or_none t

abbrev pub parsed_ids : PayloadLibrary → String → Option PayloadJson → Option Ids
parsed_ids lib raw none =
    if lib.is_digits raw then digits_id (lib.to_int raw) none else some (none, none)
parsed_ids lib raw (some (object field topic)) = field_ids lib field (topic_of topic)
parsed_ids lib raw (some (number n)) = some (some n, none)
parsed_ids lib raw (some other_json) = some (none, none)

-- no value where `int` raises on digits that it does not read
unfoldable pub parse_outbox_notify_payload : PayloadLibrary → Option String → Option Ids
parse_outbox_notify_payload lib payload =
    let raw = strip (text_or payload "") in
    if is_empty raw then some (none, none) else parsed_ids lib raw (lib.loads raw)

pub data Reason : Type 0 where
  startup : Reason
  heartbeat : Reason
  notify : Reason

pub record OutboxWakeSignal : Type 0 where
  pub reason : Reason
  pub channel : String
  pub payload : Option String
  pub outbox_id : Option ℤ
  pub topic : Option String

-- the statistics; `signals` are the calls of the handler
pub record OutboxNotifyWorker : Type 0 where
  pub channel : String
  pub connection_attempts : ℕ
  pub connection_successes : ℕ
  pub connection_failures : ℕ
  pub notifications_received : ℕ
  pub wake_dispatches : ℕ
  pub wake_handler_failures : ℕ
  pub signals : List OutboxWakeSignal

-- `OutboxNotifyWorker.__init__`
unfoldable pub new_worker : Option String → OutboxNotifyWorker
new_worker channel = record {
  channel = strip_or (text_or channel "") "world_outbox_new";
  connection_attempts = 0;
  connection_successes = 0;
  connection_failures = 0;
  notifications_received = 0;
  wake_dispatches = 0;
  wake_handler_failures = 0;
  signals = [];
}

module _ (lib : PayloadLibrary) (handles : OutboxWakeSignal → Bool) where
  -- `handles` tells whether the handler returns; the Boolean, whether an exception leaves the method
  unfoldable pub dispatch_wake :
      Reason → Option String → OutboxNotifyWorker → OutboxNotifyWorker × Bool
  dispatch_wake reason payload w = elim (parse_outbox_notify_payload lib payload) [
    | none ↦ (w, true)
    | some (outbox_id, topic) ↦
        let signal : OutboxWakeSignal = record {
          reason = reason;
          channel = w.channel;
          payload = payload;
          outbox_id = outbox_id;
          topic = topic;
        } in
        let called = record w { signals = w.signals ++ signal ∷ [] } in
        (
          (if handles signal
              then record called { wake_dispatches = w.wake_dispatches + 1 }
              else record called { wake_handler_failures = w.wake_handler_failures + 1 }),
          false,
        )
  ]

  -- the loop over the payloads of a poll
  unfoldable pub dispatch_all : List String → OutboxNotifyWorker → OutboxNotifyWorker × Bool
  dispatch_all [] w = (w, false)
  dispatch_all (p ∷ payloads) w =
      let (after, raised) = dispatch_wake notify (some p) w in
      elim raised [ true ↦ (after, true) | false ↦ dispatch_all payloads after ]

-- what a poll does
pub data Poll : Type 0 where
  polled : List String → Poll
  poll_raises : Poll

pub data Connection : Type 0 where
  open_raises : Connection
  listen_raises : Connection
  listens : List Poll → Connection

module _ (lib : PayloadLibrary) (handles : OutboxWakeSignal → Bool) where
  -- one round of the inner loop
  unfoldable pub answer_poll : Poll → OutboxNotifyWorker → OutboxNotifyWorker × Bool
  answer_poll poll_raises w = (w, true)
  answer_poll (polled []) w = dispatch_wake lib handles heartbeat none w
  answer_poll (polled (p ∷ payloads)) w =
      dispatch_all lib handles (p ∷ payloads)
        (record w { notifications_received = w.notifications_received + length (p ∷ payloads) })

  -- the inner loop of `run`
  unfoldable pub listen_loop : List Poll → OutboxNotifyWorker → OutboxNotifyWorker × Bool
  listen_loop [] w = (w, false)
  listen_loop (p ∷ polls) w =
      let (after, raised) = answer_poll p w in
      elim raised [ true ↦ (after, true) | false ↦ listen_loop polls after ]

  -- the body of `try` in `run`
  unfoldable pub use_connection : Connection → OutboxNotifyWorker → OutboxNotifyWorker × Bool
  use_connection open_raises w =
      (record w { connection_attempts = w.connection_attempts + 1 }, true)
  use_connection listen_raises w = (
    record w {
      connection_attempts = w.connection_attempts + 1;
      connection_successes = w.connection_successes + 1;
    },
    true,
  )
  use_connection (listens polls) w =
      let opened = record w {
        connection_attempts = w.connection_attempts + 1;
        connection_successes = w.connection_successes + 1;
      } in
      let (started, raised) = dispatch_wake lib handles startup none opened in
      elim raised [ true ↦ (started, true) | false ↦ listen_loop polls started ]

  unfoldable pub run : List Connection → OutboxNotifyWorker → OutboxNotifyWorker
  run [] w = w
  run (c ∷ connections) w =
      let (after, raised) = use_connection c w in
      elim raised [
        | true ↦
            run connections (record after { connection_failures = after.connection_failures + 1 })
        | false ↦ after
      ]
