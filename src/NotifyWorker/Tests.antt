-- ===== src/NotifyWorker/Tests.antt =====
-- A worker whose first connection breaks.
use game_gardens_of_karaxas.Base.{
  String, ◌≡◌, refl, Bool, true, Option, none, some, List, [], ◌∷◌, arith, ◌==◌, nat_equality,
  string_equality, pair_equality, option_equality, if◌then◌else◌,
}
use game_gardens_of_karaxas.Base.Int.{pos}
use game_gardens_of_karaxas.Base.Text.{strip, strip_or}
use game_gardens_of_karaxas.NotifyWorker.{
  PayloadLibrary, PayloadJson, number, OutboxWakeSignal, new_worker, parse_outbox_notify_payload,
  polled, poll_raises, Connection, open_raises, listens, dispatch_wake, dispatch_all, answer_poll,
  listen_loop, use_connection, run,
}
use game_gardens_of_karaxas.NotifyWorker.Accounts.{IsAccounted, run-IsAccounted}

abbrev loads : String → Option PayloadJson
loads s = if s == "7" then some (number (pos 7)) else none

abbrev lib : PayloadLibrary
lib = record { loads = loads; is_digits = λ s. s == "²"; to_int = λ _. none }

abbrev always : OutboxWakeSignal → Bool
always s = true

abbrev script : List Connection
script =
    open_raises
    ∷ listens (polled ("7" ∷ "?" ∷ []) ∷ poll_raises ∷ [])
    ∷ listens (polled [] ∷ [])
    ∷ []

start-IsAccounted : IsAccounted 0 0 (new_worker none)
unfolding new_worker
start-IsAccounted = record {
  calls = refl;
  notified = omega arith;
  started = omega arith;
  opened = omega arith;
}

run-IsAccounted_example : IsAccounted 0 0 (run lib always script (new_worker none))
run-IsAccounted_example = run-IsAccounted lib always script (new_worker none) start-IsAccounted

worker_runs :
    (let after = run lib always script (new_worker none) in
      (after.wake_dispatches ≡ 5)
      × (after.notifications_received ≡ 2)
      × (after.connection_failures ≡ 2)
      × (after.connection_successes ≡ 2))
unfolding run use_connection listen_loop answer_poll dispatch_all dispatch_wake
    parse_outbox_notify_payload new_worker strip strip_or
worker_runs = (refl, refl, refl, refl)

-- A digit that `int` does not read raises, and the exception drops the connection.
superscript_raises : parse_outbox_notify_payload lib (some "²") ≡ none
unfolding parse_outbox_notify_payload strip
superscript_raises = refl
