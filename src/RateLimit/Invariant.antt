-- ===== src/RateLimit/Invariant.antt =====
-- The deques never reach the limit of their bucket's rule, so `check` itself locks nobody out: the
-- lock is always set by `record_failure`.
use game_gardens_of_karaxas.Base.{
  micros, ℕ, ◌+◌, ◌-◌, ◌≤◌, ◌<◌, String, ◌≡◌, ◌≢◌, ◌⊎◌, inl, inr, sym, true, List, [], ◌∷◌, arith,
  ltb, ◌==◌, nat_equality, string_equality, pair_equality, option_equality, Bool-cases, length,
  length-append,
}
use mathlib.Core.Path.{subst}
use native.Mathlib.Nat.{le_refl}
use game_gardens_of_karaxas.Base.Dict
use game_gardens_of_karaxas.RateLimit.{
  RateLimitRule, Key, InMemoryRateLimiter, prune, entries_or_empty, or_zero, check_window, check,
  record_failure, reset, new,
}
use game_gardens_of_karaxas.RateLimit.Window.{
  length-drop_before-le, blocked_until-prune, entries-prune, events-prune_ne,
}
use game_gardens_of_karaxas.RateLimit.Lockout.{
  kept, failure_has_room, failure_locks, failure_elsewhere,
}

abbrev pub held : Key → InMemoryRateLimiter → List ℕ
held key s = entries_or_empty (Dict.get key s.events)

-- Each bucket has one rule, as in the routes that call the limiter.
pub record IsBounded (rules : String → RateLimitRule) (s : InMemoryRateLimiter) : Type 0 where
  pub at : (key : Key) → length (held key s) < (rules key.0).limit

-- what holds at the key of the operation and at all other keys holds at all
by_key : (P : Key → Type 0) (key : Key) → P key → ((j : Key) → key ≢ j → P j) → (j : Key) → P j
by_key P key here there j = elim (Bool-cases (key == j)) [
  | inl e ↦ subst P ((pair_equality.same_iff key j).0 e) here
  | inr n ↦ there j (λ e. cc ((pair_equality.same_iff key j).1 e))
]

-- Below the limit `check` prunes at most.
check_prunes :
    (now : ℕ) (key : Key) (rule : RateLimitRule) (s : InMemoryRateLimiter)
    → length (held key s) < rule.limit
    → ((check true now key rule s).1 ≡ s)
      ⊎ ((check true now key rule s).1 ≡ prune key now rule.window_seconds s)
unfolding check check_window
check_prunes now key rule s h =
    let e = entries-prune key now rule.window_seconds s in
    let fewer = length-drop_before-le (now - micros rule.window_seconds) (held key s) in
    elim (Bool-cases (ltb now (or_zero (Dict.get key s.blocked_until)))) [
      | inl locked ↦ inl (ground arith)
      | inr free ↦ inr (ground (arith, e, fewer))
    ]

prune-held :
    (now w : ℕ) (key j : Key) (s : InMemoryRateLimiter)
    → length (held j (prune key now w s)) ≤ length (held j s)
prune-held now w key j s =
    by_key (λ j. length (held j (prune key now w s)) ≤ length (held j s)) key
      (rw (entries-prune key now w s) (length-drop_before-le (now - micros w) (held key s)))
      (λ j ne. rw (events-prune_ne key now w s j ne) (le_refl _)) j

module _ (rules : String → RateLimitRule) where
  record_failure-held :
      (now : ℕ) (key : Key) (s : InMemoryRateLimiter)
      → length (held key s) < (rules key.0).limit
      → length (held key (record_failure true now key (rules key.0) s)) < (rules key.0).limit
  record_failure-held now key s h =
      let ks = kept key (rules key.0) now s in
      elim (Bool-cases (ltb (length ks + 1) (rules key.0).limit)) [
        | inl room ↦
            rw (failure_has_room key (rules key.0) now s (ground arith)).0
              (rw (length-append ks (now ∷ [])) (ground arith))
        | inr full ↦ rw (failure_locks key (rules key.0) now s (ground arith)).0 (omega (arith, h))
      ]

  -- Recording a failure under the rule of its bucket keeps every deque below its limit.
  pub record_failure-IsBounded :
      (now : ℕ) (key : Key) (s : InMemoryRateLimiter)
      → IsBounded rules s
      → IsBounded rules (record_failure true now key (rules key.0) s)
  record_failure-IsBounded now key s h = record {
    at =
        by_key _ key (record_failure-held now key s (h.at key))
          (λ j ne. rw (failure_elsewhere true key j (rules key.0) now s ne).0 (h.at j));
  }

  -- With the deques below their limits, `check` sets no lock and keeps the deques below the limits.
  pub check-IsBounded :
      (now : ℕ) (key : Key) (s : InMemoryRateLimiter)
      → IsBounded rules s
      → IsBounded rules (check true now key (rules key.0) s).1
        × ((check true now key (rules key.0) s).1.blocked_until ≡ s.blocked_until)
  check-IsBounded now key s h =
      let w = (rules key.0).window_seconds in
      elim (check_prunes now key (rules key.0) s (h.at key)) [
        | inl same ↦ (subst (IsBounded rules) (sym same) h, rw same)
        | inr pruned ↦ (
          subst (IsBounded rules) (sym pruned)
              (record { at = λ j. omega (arith, prune-held now w key j s, h.at j) }),
          rw pruned (blocked_until-prune key now w s),
        )
      ]

  reset-held :
      (key : Key) (s : InMemoryRateLimiter)
      → length (held key s) < (rules key.0).limit
      → length (held key (reset key s)) < (rules key.0).limit
  unfolding reset
  reset-held key s h = rw (Dict.get-remove_self key s.events) (omega (arith, h))

  -- `reset` keeps every deque below its limit.
  pub reset-IsBounded :
      (key : Key) (s : InMemoryRateLimiter) → IsBounded rules s → IsBounded rules (reset key s)
  unfolding reset
  reset-IsBounded key s h = record {
    at =
        by_key _ key (reset-held key s (h.at key))
          (λ j ne. rw (Dict.get-remove_ne key j s.events ne) (h.at j));
  }

-- A call of the limiter, at some time, on some key.
pub data Call : Type 0 where
  check_at failure_at : ℕ → Key → Call
  reset_at : Key → Call

unfoldable pub run_calls :
    (String → RateLimitRule) → List Call → InMemoryRateLimiter → InMemoryRateLimiter
run_calls rules [] s = s
run_calls rules (check_at now key ∷ calls) s =
    run_calls rules calls (check true now key (rules key.0) s).1
run_calls rules (failure_at now key ∷ calls) s =
    run_calls rules calls (record_failure true now key (rules key.0) s)
run_calls rules (reset_at key ∷ calls) s = run_calls rules calls (reset key s)

run_calls-IsBounded :
    (rules : String → RateLimitRule) (calls : List Call) (s : InMemoryRateLimiter)
    → IsBounded rules s
    → IsBounded rules (run_calls rules calls s)
unfolding run_calls
run_calls-IsBounded rules [] s h = h
run_calls-IsBounded rules (check_at now key ∷ calls) s h =
    run_calls-IsBounded rules calls _ (check-IsBounded rules now key s h).0
run_calls-IsBounded rules (failure_at now key ∷ calls) s h =
    run_calls-IsBounded rules calls _ (record_failure-IsBounded rules now key s h)
run_calls-IsBounded rules (reset_at key ∷ calls) s h =
    run_calls-IsBounded rules calls _ (reset-IsBounded rules key s h)

new-IsBounded :
    (rules : String → RateLimitRule)
    → ((bucket : String) → 0 < (rules bucket).limit)
    → IsBounded rules new
unfolding Dict.get
new-IsBounded rules h = record { at = λ key. h key.0 }

-- After any calls on a new limiter, in which every bucket has one rule with a positive limit, each
-- key holds fewer failures than its limit, and a further `check` sets no lock.
pub checks_never_lock :
    (rules : String → RateLimitRule) (calls : List Call) (now : ℕ) (key : Key)
    → ((bucket : String) → 0 < (rules bucket).limit)
    → let s = run_calls rules calls new in
      (length (held key s) < (rules key.0).limit)
      × ((check true now key (rules key.0) s).1.blocked_until ≡ s.blocked_until)
checks_never_lock rules calls now key h =
    let b = run_calls-IsBounded rules calls new (new-IsBounded rules h) in
    (b.at key, (check-IsBounded rules now key _ b).1)
