-- ===== src/RateLimit/Window.antt =====
-- The sliding window of one key: what `_prune` keeps, and what `check` reads of the state.
use game_gardens_of_karaxas.Base.{
  micros, ℕ, ◌-◌, ◌≤◌, ◌≡◌, ◌≢◌, refl, Bool, true, false, List, [], ◌∷◌, arith, ltb, leb,
  nat_equality, string_equality, pair_equality, if◌then◌else◌, length, All, Option-cases, inl, inr,
}
use game_gardens_of_karaxas.Base.Dict
use game_gardens_of_karaxas.RateLimit.{
  RateLimitRule, Key, InMemoryRateLimiter, drop_before, prune_entry, prune, entries_or_empty,
  or_zero, retry_after, check_window, check,
}

pub length-drop_before-le : (c : ℕ) (xs : List ℕ) → length (drop_before c xs) ≤ length xs
unfolding drop_before
length-drop_before-le c [] = omega arith
length-drop_before-le c (x ∷ xs) = ground (arith, length-drop_before-le c xs)

pub drop_before-eq_self : (c : ℕ) (xs : List ℕ) → All (λ x. c ≤ x) xs → drop_before c xs ≡ xs
unfolding drop_before
drop_before-eq_self c [] h = refl
drop_before-eq_self c (x ∷ xs) h = ground arith

module _ (key : Key) (now w : ℕ) (s : InMemoryRateLimiter) where
  pub blocked_until-prune : (prune key now w s).blocked_until ≡ s.blocked_until
  unfolding prune
  blocked_until-prune = ground arith

  entries-prune_entry :
      (xs : List ℕ) → entries_or_empty (Dict.get key (prune_entry key xs s).events) ≡ xs
  unfolding prune_entry
  entries-prune_entry [] = rw Dict.get-remove_self
  entries-prune_entry (x ∷ xs) = rw Dict.get-put_self

  pub entries-prune :
      entries_or_empty (Dict.get key (prune key now w s).events)
      ≡ drop_before (now - micros w) (entries_or_empty (Dict.get key s.events))
  unfolding prune drop_before
  entries-prune = elim (Option-cases (Dict.get key s.events)) [
    | inl e ↦ ground arith
    | inr (xs, e) ↦ ground (arith, entries-prune_entry (drop_before (now - micros w) xs))
  ]

  events-prune_entry_ne :
      (j : Key) (xs : List ℕ)
      → key ≢ j
      → Dict.get j (prune_entry key xs s).events ≡ Dict.get j s.events
  unfolding prune_entry
  events-prune_entry_ne j [] h = Dict.get-remove_ne key j s.events h
  events-prune_entry_ne j (x ∷ xs) h = Dict.get-put_ne key j (x ∷ xs) s.events h

  pub events-prune_ne :
      (j : Key) → key ≢ j → Dict.get j (prune key now w s).events ≡ Dict.get j s.events
  unfolding prune
  events-prune_ne j h = elim (Option-cases (Dict.get key s.events)) [
    | inl e ↦ ground arith
    | inr (xs, e) ↦ ground (arith, events-prune_entry_ne j (drop_before (now - micros w) xs) h)
  ]

-- The answer of `check`, from the two records of the key alone.
unfoldable pub answer : Bool → ℕ → RateLimitRule → ℕ → List ℕ → Bool × ℕ
answer enabled now rule blocked entries =
    if enabled
    then (if ltb now blocked
        then (false, retry_after blocked now)
        else if leb rule.limit (length (drop_before (now - micros rule.window_seconds) entries))
        then (false, rule.lockout_seconds)
        else (true, 0))
    else (true, 0)

pub check-answer :
    (enabled : Bool) (now : ℕ) (key : Key) (rule : RateLimitRule) (s : InMemoryRateLimiter)
    → (check enabled now key rule s).0
      ≡ answer enabled now rule
          (or_zero (Dict.get key s.blocked_until))
          (entries_or_empty (Dict.get key s.events))
unfolding check check_window answer
check-answer enabled now key rule s = ground (arith, entries-prune key now rule.window_seconds s)
