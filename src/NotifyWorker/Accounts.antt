-- ===== src/NotifyWorker/Accounts.antt =====
-- The statistics of the worker and what it did.
use game_gardens_of_karaxas.Base.{
  ℕ, ◌+◌, ◌≤◌, String, ◌≡◌, inl, inr, Bool, true, false, Option, none, some, List, [], ◌∷◌, arith,
  ◌==◌, nat_equality, string_equality, pair_equality, option_equality, Bool-cases, Option-cases,
  length, count_where, length-append, count_where-append,
}
use game_gardens_of_karaxas.NotifyWorker.{
  PayloadLibrary, parse_outbox_notify_payload, Reason, startup, heartbeat, notify, OutboxWakeSignal,
  OutboxNotifyWorker, dispatch_wake, dispatch_all, Poll, polled, poll_raises, Connection,
  open_raises, listen_raises, listens, answer_poll, listen_loop, use_connection, run,
}

abbrev notify_cost : Reason → ℕ
notify_cost notify = 1
notify_cost _ = 0

abbrev startup_cost : Reason → ℕ
startup_cost startup = 1
startup_cost _ = 0

abbrev pub is_notify : OutboxWakeSignal → Bool
is_notify s = notify_cost s.reason == 1

abbrev pub is_startup : OutboxWakeSignal → Bool
is_startup s = startup_cost s.reason == 1

-- Each call of the handler is counted once, as dispatched or as failed. The calls for notifications, and
-- `n` more, are covered by the notifications received; those at a start, and `m` more, by the connections
-- opened, and these by the attempts.
pub record IsAccounted (n m : ℕ) (w : OutboxNotifyWorker) : Type 0 where
  pub calls : w.wake_dispatches + w.wake_handler_failures ≡ length w.signals
  pub notified : count_where is_notify w.signals + n ≤ w.notifications_received
  pub started : count_where is_startup w.signals + m ≤ w.connection_successes
  pub opened : w.connection_successes ≤ w.connection_attempts

weaker :
    (n m k j : ℕ) (w : OutboxNotifyWorker) → n ≤ k → m ≤ j → IsAccounted k j w → IsAccounted n m w
weaker n m k j w fewer less a = record {
  calls = a.calls;
  notified = omega (arith, a.notified, fewer);
  started = omega (arith, a.started, less);
  opened = a.opened;
}

module _ (lib : PayloadLibrary) (handles : OutboxWakeSignal → Bool) where
  dispatch_wake-IsAccounted :
      (n m : ℕ) (reason : Reason) (payload : Option String) (w : OutboxNotifyWorker)
      → IsAccounted (n + notify_cost reason) (m + startup_cost reason) w
      → IsAccounted n m (dispatch_wake lib handles reason payload w).0
  dispatch_wake-IsAccounted n m reason payload w a =
      elim (Option-cases (parse_outbox_notify_payload lib payload)) [
        | inl raises ↦
            unfold dispatch_wake in
            rw (raises, dispatch_wake)
              (weaker n m (n + notify_cost reason) (m + startup_cost reason) w (omega arith)
                (omega arith) a)
        | inr ((outbox_id, topic), parsed) ↦
            let signal : OutboxWakeSignal = record {
              reason = reason;
              channel = w.channel;
              payload = payload;
              outbox_id = outbox_id;
              topic = topic;
            } in
            let calls = length-append w.signals (signal ∷ []) in
            let notified = count_where-append is_notify w.signals (signal ∷ []) in
            let started = count_where-append is_startup w.signals (signal ∷ []) in
            let one = cost_of reason in
            elim (Bool-cases (handles signal)) [
              | inl works ↦
                  unfold dispatch_wake in
                  rw (parsed, dispatch_wake)
                    (rw works (record {
                      calls = ground (arith, calls, a.calls);
                      notified = ground (arith, notified, a.notified, one.0);
                      started = ground (arith, started, a.started, one.1);
                      opened = a.opened;
                    }))
              | inr fails ↦
                  unfold dispatch_wake in
                  rw (parsed, dispatch_wake)
                    (rw fails (record {
                      calls = ground (arith, calls, a.calls);
                      notified = ground (arith, notified, a.notified, one.0);
                      started = ground (arith, started, a.started, one.1);
                      opened = a.opened;
                    }))
            ]
      ]
    where
      cost_of : (r : Reason) → (notify_cost r ≤ 1) × (startup_cost r ≤ 1)
      cost_of startup = (omega arith, omega arith)
      cost_of heartbeat = (omega arith, omega arith)
      cost_of notify = (omega arith, omega arith)

  -- a step that an exception may end
  through :
      (m : ℕ) (r : OutboxNotifyWorker × Bool)
      (next : OutboxNotifyWorker → OutboxNotifyWorker × Bool)
      → IsAccounted 0 m r.0
      → ((w : OutboxNotifyWorker) → IsAccounted 0 m w → IsAccounted 0 m (next w).0)
      → IsAccounted 0 m
          (elim r.1 as (λ _. OutboxNotifyWorker × Bool) [ true ↦ (r.0, true) | false ↦ next r.0 ]).0
  through m (w, true) next a keeps = a
  through m (w, false) next a keeps = keeps w a

  dispatch_all-IsAccounted :
      (m : ℕ) (payloads : List String) (w : OutboxNotifyWorker)
      → IsAccounted (length payloads) m w
      → IsAccounted 0 m (dispatch_all lib handles payloads w).0
  unfolding dispatch_all
  dispatch_all-IsAccounted m [] w a = a
  dispatch_all-IsAccounted m (p ∷ payloads) w a =
      let step = dispatch_wake lib handles notify (some p) w in
      let left : IsAccounted (length payloads) m step.0 =
        dispatch_wake-IsAccounted (length payloads) m notify (some p) w (
          weaker (length payloads + 1) (m + 0) (length (p ∷ payloads)) m w (omega arith)
            (omega arith) a) in
      elim (Bool-cases step.1) [
        | inl raised ↦
            rw (raised, dispatch_all)
              (weaker 0 m (length payloads) m step.0 (omega arith) (omega arith) left)
        | inr fine ↦ rw (fine, dispatch_all) (dispatch_all-IsAccounted m payloads step.0 left)
      ]

  answer_poll-IsAccounted :
      (p : Poll) (w : OutboxNotifyWorker)
      → IsAccounted 0 0 w
      → IsAccounted 0 0 (answer_poll lib handles p w).0
  unfolding answer_poll
  answer_poll-IsAccounted poll_raises w a = a
  answer_poll-IsAccounted (polled []) w a = dispatch_wake-IsAccounted 0 0 heartbeat none w a
  answer_poll-IsAccounted (polled (p ∷ payloads)) w a =
      let received = record w {
        notifications_received = w.notifications_received + length (p ∷ payloads);
      } in
      dispatch_all-IsAccounted 0 (p ∷ payloads) received (record {
        calls = a.calls;
        notified = omega (arith, a.notified);
        started = a.started;
        opened = a.opened;
      })

  listen_loop-IsAccounted :
      (polls : List Poll) (w : OutboxNotifyWorker)
      → IsAccounted 0 0 w
      → IsAccounted 0 0 (listen_loop lib handles polls w).0
  unfolding listen_loop
  listen_loop-IsAccounted [] w a = a
  listen_loop-IsAccounted (p ∷ polls) w a =
      through 0 (answer_poll lib handles p w) (listen_loop lib handles polls)
        (answer_poll-IsAccounted p w a) (λ after b. listen_loop-IsAccounted polls after b)

  use_connection-IsAccounted :
      (c : Connection) (w : OutboxNotifyWorker)
      → IsAccounted 0 0 w
      → IsAccounted 0 0 (use_connection lib handles c w).0
  unfolding use_connection
  use_connection-IsAccounted open_raises w a = record {
    calls = a.calls;
    notified = a.notified;
    started = a.started;
    opened = omega (arith, a.opened);
  }
  use_connection-IsAccounted listen_raises w a = record {
    calls = a.calls;
    notified = a.notified;
    started = omega (arith, a.started);
    opened = omega (arith, a.opened);
  }
  use_connection-IsAccounted (listens polls) w a =
      let opened = record w {
        connection_attempts = w.connection_attempts + 1;
        connection_successes = w.connection_successes + 1;
      } in
      through 0 (dispatch_wake lib handles startup none opened) (listen_loop lib handles polls)
        (dispatch_wake-IsAccounted 0 0 startup none opened (record {
          calls = a.calls;
          notified = a.notified;
          started = omega (arith, a.started);
          opened = omega (arith, a.opened);
        }))
        (λ after b. listen_loop-IsAccounted polls after b)

  failed-IsAccounted :
      (w : OutboxNotifyWorker)
      → IsAccounted 0 0 w
      → IsAccounted 0 0 (record w { connection_failures = w.connection_failures + 1 })
  failed-IsAccounted w a = record {
    calls = a.calls;
    notified = a.notified;
    started = a.started;
    opened = a.opened;
  }

  -- Whatever the connections and the handler do, the statistics of the worker stay true: the handler's
  -- calls are the dispatched and the failed ones, no more of them are for notifications than were
  -- received, none is at a start without a connection, and no connection opens without an attempt.
  pub run-IsAccounted :
      (connections : List Connection) (w : OutboxNotifyWorker)
      → IsAccounted 0 0 w
      → IsAccounted 0 0 (run lib handles connections w)
  unfolding run
  run-IsAccounted [] w a = a
  run-IsAccounted (c ∷ connections) w a =
      let step = use_connection lib handles c w in
      let left = use_connection-IsAccounted c w a in
      elim (Bool-cases step.1) [
        | inl raised ↦
            rw (raised, run)
              (run-IsAccounted connections
                (record step.0 { connection_failures = step.0.connection_failures + 1 })
                (failed-IsAccounted step.0 left))
        | inr stopped ↦ rw (stopped, run) left
      ]
