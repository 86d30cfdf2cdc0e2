-- ===== src/RateLimit/Lockout.antt =====
-- Who is locked out, and for how long.
use game_gardens_of_karaxas.Base.{
  micros, ℕ, ◌+◌, ◌-◌, ◌≤◌, ◌<◌, ◌≡◌, refl, true, none, some, List, [], ◌∷◌, ◌++◌, arith,
  nat_equality, string_equality, pair_equality, length, length-append, All, All-append, ◌∙◌, sym,
  Bool, ◌≢◌, false,
}
use mathlib.Core.List.{append-nil, append_assoc}
use game_gardens_of_karaxas.Base.Dict
use game_gardens_of_karaxas.RateLimit.{
  RateLimitRule, Key, InMemoryRateLimiter, drop_before, prune, entries_or_empty, record_failure,
  check, retry_after, reset,
}
use game_gardens_of_karaxas.RateLimit.Window.{
  drop_before-eq_self, blocked_until-prune, entries-prune, answer, length-drop_before-le,
  check-answer, events-prune_ne,
}

-- Failures of one key, recorded in turn.
unfoldable pub record_all : Key → RateLimitRule → List ℕ → InMemoryRateLimiter → InMemoryRateLimiter
record_all key rule [] s = s
record_all key rule (t ∷ ts) s = record_all key rule ts (record_failure true t key rule s)

-- A time that lies in the window which begins at `start`.
abbrev pub InSpan : ℕ → ℕ → ℕ → Type 0
InSpan start window x = (start ≤ x) × (x ≤ start + micros window)

span_kept :
    (start w now : ℕ) (xs : List ℕ)
    → InSpan start w now
    → All (InSpan start w) xs
    → All (λ x. now - micros w ≤ x) xs
span_kept start w now [] h a = tt
span_kept start w now (x ∷ xs) h a = (omega arith, span_kept start w now xs h a.1)

module _ (key : Key) (rule : RateLimitRule) (now : ℕ) (s : InMemoryRateLimiter) where
  -- what the window of the key holds when the failure is recorded
  abbrev pub kept : List ℕ
  kept = drop_before (now - micros rule.window_seconds) (entries_or_empty (Dict.get key s.events))

  pub failure_has_room :
      length kept + 1 < rule.limit
      → (Dict.get key (record_failure true now key rule s).events ≡ some (kept ++ now ∷ []))
        × ((record_failure true now key rule s).blocked_until ≡ s.blocked_until)
  unfolding record_failure
  failure_has_room room =
      let e = entries-prune key now rule.window_seconds s in
      let n = length-append kept (now ∷ []) in
      let p =
        Dict.get-put_self key (kept ++ now ∷ []) (prune key now rule.window_seconds s).events in
      ground (arith, e, n, p, blocked_until-prune key now rule.window_seconds s)

  pub failure_locks :
      rule.limit ≤ length kept + 1
      → (Dict.get key (record_failure true now key rule s).events ≡ none)
        × (Dict.get key (record_failure true now key rule s).blocked_until
            ≡ some (now + micros rule.lockout_seconds))
  unfolding record_failure
  failure_locks full =
      let p = prune key now rule.window_seconds s in
      let until = now + micros rule.lockout_seconds in
      ground (
        arith,
        entries-prune key now rule.window_seconds s,
        length-append kept (now ∷ []),
        Dict.get-remove_self key p.events,
        Dict.get-put_self key until p.blocked_until,
      )

-- With every failure in one window, and fewer than the limit, all are kept and nothing is locked.
record_all-entries :
    (key : Key) (rule : RateLimitRule) (start : ℕ) (ts old : List ℕ) (s : InMemoryRateLimiter)
    → entries_or_empty (Dict.get key s.events) ≡ old
    → All (InSpan start rule.window_seconds) old
    → All (InSpan start rule.window_seconds) ts
    → length old + length ts < rule.limit
    → (entries_or_empty (Dict.get key (record_all key rule ts s).events) ≡ old ++ ts)
      × ((record_all key rule ts s).blocked_until ≡ s.blocked_until)
unfolding record_all
record_all-entries key rule start [] old s e a b room = (e ∙ sym (append-nil old), refl)
record_all-entries key rule start (t ∷ ts) old s e a b room =
    let full = drop_before-eq_self _ old (span_kept start rule.window_seconds t old b.0 a) in
    let k : kept key rule t s ≡ old = rw e full in
    let (put, same) = failure_has_room key rule t s (rw k (omega arith)) in
    let (later, kept_blocked) =
      record_all-entries key rule start ts (old ++ t ∷ []) (record_failure true t key rule s)
        (rw (put, k)) (All-append _ old (t ∷ []) a (b.0, tt)) b.1
        (rw length-append (omega arith)) in
    (later ∙ append_assoc old (t ∷ []) ts, kept_blocked ∙ same)

-- With no record of the key, `limit` failures in one window lock it out: from the last failure on,
-- for the whole lockout time, `check` refuses, and says how many seconds are left.
pub limit_failures_lock :
    (key : Key) (rule : RateLimitRule) (start last t : ℕ) (ts : List ℕ) (s : InMemoryRateLimiter)
    → Dict.get key s.events ≡ none
    → All (InSpan start rule.window_seconds) ts
    → InSpan start rule.window_seconds last
    → length ts + 1 ≡ rule.limit
    → t < last + micros rule.lockout_seconds
    → (check true t key rule (record_failure true last key rule (record_all key rule ts s))).0
      ≡ (false, retry_after (last + micros rule.lockout_seconds) t)
unfolding answer
limit_failures_lock key rule start last t ts s fresh inside now_inside full before =
    let s' = record_all key rule ts s in
    let e = (record_all-entries key rule start ts [] s (rw fresh) tt inside (omega arith)).0 in
    let whole =
      drop_before-eq_self _ ts (span_kept start rule.window_seconds last ts now_inside inside) in
    let k : kept key rule last s' ≡ ts = rw e whole in
    let locked = failure_locks key rule last s' (rw k (omega arith)) in
    rw check-answer (ground (arith, locked.1))

length-record_all :
    (key : Key) (rule : RateLimitRule) (ts : List ℕ) (s : InMemoryRateLimiter)
    → length (entries_or_empty (Dict.get key s.events)) + length ts < rule.limit
    → (length (entries_or_empty (Dict.get key (record_all key rule ts s).events)) < rule.limit)
      × ((record_all key rule ts s).blocked_until ≡ s.blocked_until)
unfolding record_all
length-record_all key rule [] s room = (omega arith, refl)
length-record_all key rule (t ∷ ts) s room =
    let fewer =
      length-drop_before-le (t - micros rule.window_seconds)
        (entries_or_empty (Dict.get key s.events)) in
    let (put, same) = failure_has_room key rule t s (omega arith) in
    let n = length-append (kept key rule t s) (t ∷ []) in
    let (later, kept_blocked) =
      length-record_all key rule ts (record_failure true t key rule s)
        (rw put (rw n (omega arith))) in
    (later, kept_blocked ∙ same)

-- Fewer failures than the limit, recorded at any times for a key that had no record, do not lock
-- it out: `check` admits the key at every time.
pub few_failures_admit :
    (key : Key) (rule : RateLimitRule) (t : ℕ) (ts : List ℕ) (s : InMemoryRateLimiter)
    → Dict.get key s.events ≡ none
    → Dict.get key s.blocked_until ≡ none
    → length ts < rule.limit
    → (check true t key rule (record_all key rule ts s)).0 ≡ (true, 0)
unfolding answer
few_failures_admit key rule t ts s fresh unblocked few =
    let (short, same) = length-record_all key rule ts s (rw fresh (omega arith)) in
    rw check-answer (
      ground (
        arith,
        short,
        same,
        unblocked,
        length-drop_before-le (t - micros rule.window_seconds)
            (entries_or_empty (Dict.get key (record_all key rule ts s).events)),
      ))

-- While a key is locked, `check` refuses it and changes nothing, and the number of seconds that it
-- reports is the time left, rounded up.
pub check_while_locked :
    (key : Key) (rule : RateLimitRule) (now until : ℕ) (s : InMemoryRateLimiter)
    → Dict.get key s.blocked_until ≡ some until
    → now < until
    → let ((allowed, wait), s') = check true now key rule s in
      (allowed ≡ false)
      × (s' ≡ s)
      × (until ≤ now + micros wait)
      × (now + micros wait < until + 1000000)
unfolding check retry_after
check_while_locked key rule now until s e h = ground arith

-- `reset` forgets a key: whatever was recorded of it, the next `check` admits it, if the rule allows
-- any request at all.
pub check-reset :
    (enabled : Bool) (key : Key) (rule : RateLimitRule) (now : ℕ) (s : InMemoryRateLimiter)
    → 0 < rule.limit
    → (check enabled now key rule (reset key s)).0 ≡ (true, 0)
unfolding answer reset drop_before
check-reset enabled key rule now s h =
    rw check-answer
      (ground (arith, Dict.get-remove_self key s.events, Dict.get-remove_self key s.blocked_until))

pub failure_elsewhere :
    (enabled : Bool) (key j : Key) (rule : RateLimitRule) (now : ℕ) (s : InMemoryRateLimiter)
    → key ≢ j
    → let s' = record_failure enabled now key rule s in
      (Dict.get j s'.events ≡ Dict.get j s.events)
      × (Dict.get j s'.blocked_until ≡ Dict.get j s.blocked_until)
unfolding record_failure
failure_elsewhere enabled key j rule now s h =
    let p = prune key now rule.window_seconds s in
    let es = entries_or_empty (Dict.get key p.events) ++ now ∷ [] in
    ground (
      arith,
      events-prune_ne key now rule.window_seconds s j h,
      blocked_until-prune key now rule.window_seconds s,
      Dict.get-remove_ne key j p.events h,
      Dict.get-put_ne key j es p.events h,
      Dict.get-put_ne key j (now + micros rule.lockout_seconds) p.blocked_until h,
    )

-- A failure that is recorded for one key changes the answer of `check` for no other key.
pub failure_is_isolated :
    (enabled : Bool) (key other : Key) (rule rule' : RateLimitRule) (now t : ℕ)
    (s : InMemoryRateLimiter)
    → key ≢ other
    → (check enabled t other rule' (record_failure enabled now key rule s)).0
      ≡ (check enabled t other rule' s).0
failure_is_isolated enabled key other rule rule' now t s h =
    let (ev, bl) = failure_elsewhere enabled key other rule now s h in
    rw check-answer (rw (ev, bl) (sym (check-answer enabled t other rule' s)))
