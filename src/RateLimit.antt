-- ===== src/RateLimit.antt =====
-- backend/app/services/rate_limit.py: the in-memory limiter of failed requests. A time is a number
-- of microseconds; `request_rate_limit_enabled` and the clock are arguments. The lock makes each
-- method one step, so a method is a function on the state.
pub mod Window
pub mod Lockout
pub mod Invariant
mod Tests
use Prim.Native.Char.{Char, code}
use game_gardens_of_karaxas.Base.{
  micros, ℕ, suc, ◌+◌, ◌-◌, ◌*◌, ◌/◌, max, String, Bool, true, false, Option, none, some, List, [],
  ◌∷◌, ◌++◌, ltb, leb, ◌==◌, nat_equality, string_equality, pair_equality, if◌then◌else◌, length,
  count_where,
}
use game_gardens_of_karaxas.Base.Dict
use game_gardens_of_karaxas.Base.Dict.{Dict}
use game_gardens_of_karaxas.Base.Text.{strip, is_empty}

pub record RateLimitRule : Type 0 where
  pub limit : ℕ
  pub window_seconds : ℕ
  pub lockout_seconds : ℕ

-- `RateLimitRule(limit=max(1, …), …)`, as the four constants of the module are built
unfoldable pub rule_of_settings : ℕ → ℕ → ℕ → RateLimitRule
rule_of_settings attempts window lockout = record {
  limit = max 1 attempts;
  window_seconds = max 1 window;
  lockout_seconds = max 1 lockout;
}

abbrev pub Key : Type 0
Key = String × String

pub record InMemoryRateLimiter : Type 0 where
  pub events : Dict Key (List ℕ)
  pub blocked_until : Dict Key ℕ

abbrev pub new : InMemoryRateLimiter
new = record { events = []; blocked_until = [] }

-- `while entries and entries[0] < cutoff: entries.popleft()`
unfoldable pub drop_before : ℕ → List ℕ → List ℕ
drop_before cutoff [] = []
drop_before cutoff (x ∷ xs) =
    let rest = drop_before cutoff xs in if ltb x cutoff then rest else x ∷ xs

-- what `_prune` does to an entry of `_events` that is there
unfoldable pub prune_entry : Key → List ℕ → InMemoryRateLimiter → InMemoryRateLimiter
prune_entry key [] s = record s { events = Dict.remove key s.events }
prune_entry key (x ∷ xs) s = record s { events = Dict.put key (x ∷ xs) s.events }

unfoldable pub prune : Key → ℕ → ℕ → InMemoryRateLimiter → InMemoryRateLimiter
unfolding prune_entry
prune key now window_seconds s = elim (Dict.get key s.events) [
  | none ↦ s
  | some entries ↦ prune_entry key (drop_before (now - micros window_seconds) entries) s
]

-- the deque of a key, empty where there is none
abbrev pub entries_or_empty : Option (List ℕ) → List ℕ
entries_or_empty none = []
entries_or_empty (some entries) = entries

abbrev pub or_zero : Option ℕ → ℕ
or_zero none = 0
or_zero (some t) = t

-- `max(1, int(ceil(blocked - now)))`
unfoldable pub retry_after : ℕ → ℕ → ℕ
retry_after blocked now = max 1 ((blocked - now + 999999) / 1000000)

-- the end of `check`, after the prune
unfoldable pub check_window :
    Key → ℕ → RateLimitRule → InMemoryRateLimiter → (Bool × ℕ) × InMemoryRateLimiter
check_window key now rule s =
    if leb rule.limit (length (entries_or_empty (Dict.get key s.events)))
    then (
      (false, rule.lockout_seconds),
      record {
        events = Dict.remove key s.events;
        blocked_until = Dict.put key (now + micros rule.lockout_seconds) s.blocked_until;
      },
    )
    else ((true, 0), s)

unfoldable pub check :
    Bool → ℕ → Key → RateLimitRule → InMemoryRateLimiter → (Bool × ℕ) × InMemoryRateLimiter
unfolding check_window
check enabled now key rule s =
    let blocked = or_zero (Dict.get key s.blocked_until) in
    if enabled
    then (if ltb now blocked
        then ((false, retry_after blocked now), s)
        else check_window key now rule (prune key now rule.window_seconds s))
    else ((true, 0), s)

-- the end of `record_failure`, after the prune
unfoldable pub append_failure : Key → ℕ → RateLimitRule → InMemoryRateLimiter → InMemoryRateLimiter
append_failure key now rule s =
    let entries = entries_or_empty (Dict.get key s.events) ++ now ∷ [] in
    if leb rule.limit (length entries)
    then record {
      events = Dict.remove key s.events;
      blocked_until = Dict.put key (now + micros rule.lockout_seconds) s.blocked_until;
    }
    else record s { events = Dict.put key entries s.events }

unfoldable pub record_failure :
    Bool → ℕ → Key → RateLimitRule → InMemoryRateLimiter → InMemoryRateLimiter
unfolding append_failure
record_failure enabled now key rule s =
    if enabled then append_failure key now rule (prune key now rule.window_seconds s) else s

unfoldable pub reset : Key → InMemoryRateLimiter → InMemoryRateLimiter
reset key s = record {
  events = Dict.remove key s.events;
  blocked_until = Dict.remove key s.blocked_until;
}

-- the tracked and the blocked keys
unfoldable pub stats : ℕ → InMemoryRateLimiter → ℕ × ℕ
stats now s = (length s.events, count_where (λ entry. ltb now entry.1) s.blocked_until)

-- the text before the first comma
unfoldable pub before_comma : String → String
before_comma String.[] = String.[]
before_comma (String.◌∷◌ c s) =
    let rest = before_comma s in if code c == b',' then String.[] else String.◌∷◌ c rest

-- `request_ip`, of the `x-forwarded-for` header and of `request.client.host`
unfoldable pub request_ip : String → Option String → String
unfolding before_comma strip
request_ip header host =
    let forwarded = strip header in
    let peer : String = elim host [
      | none ↦ "unknown"
      | some h ↦ if is_empty h then "unknown" else h
    ] in
    if is_empty forwarded then peer else strip (before_comma forwarded)

pub data Admission : Type 0 where
  admitted : Admission
  too_many_requests : ℕ → Admission

-- `ensure_not_rate_limited`: 429 with the seconds to wait, or nothing
unfoldable pub ensure_not_rate_limited :
    Bool → ℕ → Key → RateLimitRule → InMemoryRateLimiter → Admission × InMemoryRateLimiter
unfolding check
ensure_not_rate_limited enabled now key rule s =
    let ((allowed, wait), s') = check enabled now key rule s in
    (if allowed then admitted else too_many_requests wait, s')
