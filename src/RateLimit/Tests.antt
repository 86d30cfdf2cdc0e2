-- ===== src/RateLimit/Tests.antt =====
-- Runs of the limiter, and the theorems at inputs that meet their hypotheses.
use game_gardens_of_karaxas.Base.{
  micros, ◌<◌, ◌≡◌, ◌≢◌, refl, true, false, none, [], ◌∷◌, arith, nat_equality, string_equality,
  pair_equality, option_equality, length,
}
use game_gardens_of_karaxas.Base.Dict
use game_gardens_of_karaxas.RateLimit.{
  RateLimitRule, Key, InMemoryRateLimiter, new, retry_after, check, record_failure, request_ip,
  drop_before, prune, ensure_not_rate_limited, too_many_requests,
}
use game_gardens_of_karaxas.RateLimit.Lockout.{record_all, limit_failures_lock, few_failures_admit}
use game_gardens_of_karaxas.RateLimit.Invariant.{
  held, check_at, failure_at, reset_at, run_calls, checks_never_lock,
}

abbrev rule : RateLimitRule
rule = record { limit = 3; window_seconds = 60; lockout_seconds = 120 }

abbrev alice : Key
alice = ("auth_account", "acct:alice")

abbrev bob : Key
bob = ("auth_account", "acct:bob")

-- three failures in ten seconds
abbrev locked : InMemoryRateLimiter
locked =
    record_failure true (micros 20) alice rule
      (record_all alice rule (micros 10 ∷ micros 15 ∷ []) new)

locked_test : (check true (micros 21) alice rule locked).0 ≡ (false, 119)
unfolding check record_failure record_all prune drop_before Dict.get Dict.put Dict.remove
    retry_after
locked_test = refl

request_ip_test : request_ip " 10.0.0.1 , 10.0.0.2" none ≡ "10.0.0.1"
unfolding request_ip
request_ip_test = refl

ensure_test : (ensure_not_rate_limited true (micros 21) alice rule locked).0 ≡ too_many_requests 119
unfolding ensure_not_rate_limited record_failure record_all prune drop_before Dict.get Dict.put
    Dict.remove retry_after
ensure_test = refl

limit_failures_lock_example :
    (check true (micros 21) alice rule locked).0 ≡ (false, retry_after (micros 140) (micros 21))
unfolding Dict.get
limit_failures_lock_example =
    limit_failures_lock alice rule (micros 10) (micros 20) (micros 21) (micros 10 ∷ micros 15 ∷ [])
      new refl (omega arith) (omega arith) refl (omega arith)

few_failures_admit_example :
    (check true (micros 21) alice rule (record_all alice rule (micros 10 ∷ micros 15 ∷ []) new)).0
    ≡ (true, 0)
unfolding Dict.get
few_failures_admit_example =
    few_failures_admit alice rule (micros 21) (micros 10 ∷ micros 15 ∷ []) new refl refl
      (omega arith)

alice_not_bob : alice ≢ bob
alice_not_bob e = cc ((pair_equality.same_iff alice bob).1 e)

checks_never_lock_example :
    let s = run_calls (λ _. rule) (failure_at 5 alice ∷ check_at 6 alice ∷ reset_at bob ∷ []) new in
    (length (held alice s) < 3) × ((check true 7 alice rule s).1.blocked_until ≡ s.blocked_until)
checks_never_lock_example =
    checks_never_lock (λ _. rule) (failure_at 5 alice ∷ check_at 6 alice ∷ reset_at bob ∷ []) 7
      alice (λ _. omega arith)
