-- ===== src/Base/Rows.antt =====
-- A database table is the list of its rows in the order of insertion. A query is a scan.
use Prim.Native.Nat.{ℕ, suc, ◌+◌, ◌≤◌}
use mathlib.Core.Path.{◌≡◌, refl, subst}
use mathlib.Core.Logic.{inl, inr, ◌↔◌}
use mathlib.Core.Bool.{Bool, true, false, ◌||◌}
use mathlib.Core.Option.{Option, none, some}
use mathlib.Core.List.{List, [], ◌∷◌, ◌++◌}
use native.Mathlib.Omega.{arith}
use package.game_gardens_of_karaxas.Base.Tests.{if◌then◌else◌, Bool-cases}

module _ {ℓ} {A : Type ℓ} where
  abbrev pub length : List A → ℕ
  length [] = 0
  length (_ ∷ xs) = suc (length xs)

  abbrev pub All {κ} : (A → Type κ) → List A → Type κ
  All P [] = Unit
  All P (x ∷ xs) = P x × All P xs

  -- `scalar_one_or_none` and `first`: the first row that matches
  abbrev pub first_where : (A → Bool) → List A → Option A
  first_where p [] = none
  first_where p (x ∷ xs) = if p x then some x else first_where p xs

  -- all rows that match
  abbrev pub select : (A → Bool) → List A → List A
  select p [] = []
  select p (x ∷ xs) = let rest = select p xs in if p x then x ∷ rest else rest

  abbrev pub count_where : (A → Bool) → List A → ℕ
  count_where p [] = 0
  count_where p (x ∷ xs) = let rest = count_where p xs in if p x then suc rest else rest

  -- an assignment to the columns of every row that matches
  abbrev pub update_where : (A → Bool) → (A → A) → List A → List A
  update_where p f [] = []
  update_where p f (x ∷ xs) = (if p x then f x else x) ∷ update_where p f xs

  abbrev pub any_where : (A → Bool) → List A → Bool
  any_where p [] = false
  any_where p (x ∷ xs) = if p x then true else any_where p xs

  abbrev pub take : ℕ → List A → List A
  take ℕ.zero xs = []
  take (ℕ.suc n) [] = []
  take (ℕ.suc n) (x ∷ xs) = x ∷ take n xs

  pub length-append : (xs ys : List A) → length (xs ++ ys) ≡ length xs + length ys
  length-append [] ys = omega arith
  length-append (x ∷ xs) ys = omega (arith, length-append xs ys)

  pub length-take-le : (n : ℕ) (xs : List A) → length (take n xs) ≤ n
  length-take-le ℕ.zero xs = omega arith
  length-take-le (ℕ.suc n) [] = omega arith
  length-take-le (ℕ.suc n) (x ∷ xs) = omega (arith, length-take-le n xs)

  pub count_where-append :
      (p : A → Bool) (xs ys : List A)
      → count_where p (xs ++ ys) ≡ count_where p xs + count_where p ys
  count_where-append p [] ys = omega arith
  count_where-append p (x ∷ xs) ys = ground (arith, count_where-append p xs ys)

  pub length-select : (p : A → Bool) (xs : List A) → length (select p xs) ≡ count_where p xs
  length-select p [] = refl
  length-select p (x ∷ xs) = ground (arith, length-select p xs)

  pub All-append {κ} :
      (Holds : A → Type κ) (old new : List A)
      → All Holds old
      → All Holds new
      → All Holds (old ++ new)
  All-append Holds [] new _ more = more
  All-append Holds (row ∷ old) new (first, others) more =
      (first, All-append Holds old new others more)

  pub first_where_sound :
      (p : A → Bool) (xs : List A) (a : A) → first_where p xs ≡ some a → p a ≡ true
  first_where_sound p [] a h = ground arith
  first_where_sound p (x ∷ xs) a h = ground (arith, first_where_sound p xs a)

  pub All-first_where {κ} :
      (P : A → Type κ) (p : A → Bool) (xs : List A) (a : A)
      → All P xs
      → first_where p xs ≡ some a
      → P a
  All-first_where P p [] a h e = absurd (ground arith)
  All-first_where P p (x ∷ xs) a h e = elim (Bool-cases (p x)) [
    | inl found ↦ subst P (ground arith) h.0
    | inr other ↦ All-first_where P p xs a h.1 (ground arith)
  ]

  -- Rows are updated in place, so the first match stays the first.
  pub first_where-update :
      (p : A → Bool) (f : A → A) (xs : List A) (a : A)
      → ((x : A) → p (f x) ≡ p x)
      → first_where p xs ≡ some a
      → first_where p (update_where p f xs) ≡ some (f a)
  first_where-update p f [] a keep h = ground arith
  first_where-update p f (x ∷ xs) a keep h =
      ground (arith, keep x, first_where-update p f xs a keep)

  no_match_no_update :
      (p : A → Bool) (f : A → A) (xs : List A) → count_where p xs ≡ 0 → update_where p f xs ≡ xs
  no_match_no_update p f [] h = refl
  no_match_no_update p f (x ∷ xs) h = ground (arith, no_match_no_update p f xs)

  -- A write to the one row that matches moves a count by that row alone.
  pub count_where-replace :
      (p q : A → Bool) (a b : A) (xs : List A)
      → first_where p xs ≡ some a
      → count_where p xs ≡ 1
      → count_where q (update_where p (λ _. b) xs) + count_where q (a ∷ [])
        ≡ count_where q xs + count_where q (b ∷ [])
  count_where-replace p q a b [] h u = absurd (omega (arith, u))
  count_where-replace p q a b (x ∷ xs) h u = elim (Bool-cases (p x)) [
    | inl hit ↦
        let same : x ≡ a = ground arith in
        let rest : count_where p xs ≡ 0 = ground arith in
        rw hit (rw (no_match_no_update p (λ _. b) xs rest, same) (ground arith))
    | inr miss ↦ ground (arith, count_where-replace p q a b xs)
  ]

  pub first_where-append :
      (p : A → Bool) (xs ys : List A) (a : A)
      → first_where p xs ≡ some a
      → first_where p (xs ++ ys) ≡ some a
  first_where-append p [] ys a h = ground arith
  first_where-append p (x ∷ xs) ys a h = ground (arith, first_where-append p xs ys a)

  -- a row that is put behind rows that do not match
  pub first_where_last :
      (p : A → Bool) (xs : List A) (a : A)
      → first_where p xs ≡ none
      → p a ≡ true
      → first_where p (xs ++ a ∷ []) ≡ some a
  first_where_last p [] a h e = ground arith
  first_where_last p (x ∷ xs) a h e = ground (arith, first_where_last p xs a)

  pub count_where-select-le :
      (q p : A → Bool) (xs : List A) → count_where q (select p xs) ≤ count_where q xs
  count_where-select-le q p [] = omega arith
  count_where-select-le q p (x ∷ xs) = ground (arith, count_where-select-le q p xs)

  pub count_where-update :
      (q p : A → Bool) (f : A → A) (xs : List A)
      → ((x : A) → q (f x) ≡ q x)
      → count_where q (update_where p f xs) ≡ count_where q xs
  count_where-update q p f [] keep = refl
  count_where-update q p f (x ∷ xs) keep = ground (arith, keep x, count_where-update q p f xs keep)

  pub no_match_count : (p : A → Bool) (xs : List A) → first_where p xs ≡ none → count_where p xs ≡ 0
  no_match_count p [] h = refl
  no_match_count p (x ∷ xs) h = ground (arith, no_match_count p xs)

  pub any_where-first_where :
      (q p : A → Bool) (xs : List A) (a : A)
      → any_where q xs ≡ false
      → first_where p xs ≡ some a
      → q a ≡ false
  any_where-first_where q p [] a h e = absurd (ground arith)
  any_where-first_where q p (x ∷ xs) a h e = ground (arith, any_where-first_where q p xs a)

  pub All-select {κ} :
      (P : A → Type κ) (p : A → Bool) (xs : List A) → All P xs → All P (select p xs)
  All-select P p [] h = tt
  All-select P p (x ∷ xs) (first, others) = elim (Bool-cases (p x)) [
    | inl hit ↦ rw hit (first, All-select P p xs others)
    | inr miss ↦ rw miss (All-select P p xs others)
  ]

  pub All-mono {κ} : (P Q : A → Type κ) (xs : List A) → ((x : A) → P x → Q x) → All P xs → All Q xs
  All-mono P Q [] f h = tt
  All-mono P Q (x ∷ xs) f (first, others) = (f x first, All-mono P Q xs f others)

  pub All-update {κ} :
      (P : A → Type κ) (p : A → Bool) (f : A → A) (xs : List A)
      → ((x : A) → P x → P (f x))
      → All P xs
      → All P (update_where p f xs)
  All-update P p f [] keep h = tt
  All-update P p f (x ∷ xs) keep (first, others) = elim (Bool-cases (p x)) [
    | inl hit ↦ rw hit (keep x first, All-update P p f xs keep others)
    | inr miss ↦ rw miss (first, All-update P p f xs keep others)
  ]

  pub any_where-first_where_found :
      (q p : A → Bool) (xs : List A) (a : A)
      → first_where p xs ≡ some a
      → q a ≡ true
      → any_where q xs ≡ true
  any_where-first_where_found q p [] a h e = absurd (ground arith)
  any_where-first_where_found q p (x ∷ xs) a h e =
      ground (arith, any_where-first_where_found q p xs a)

  pub any_where-append :
      (p : A → Bool) (xs ys : List A) → any_where p (xs ++ ys) ≡ (any_where p xs || any_where p ys)
  any_where-append p [] ys = refl
  any_where-append p (x ∷ xs) ys = ground (arith, any_where-append p xs ys)

  pub first_where-count :
      (p : A → Bool) (xs : List A) → (first_where p xs ≡ none) ↔ (count_where p xs ≡ 0)
  first_where-count p [] = ground arith
  first_where-count p (x ∷ xs) = ground (arith, first_where-count p xs)

  -- a write to some rows, seen at the first row that another test finds
  pub first_where-update_where :
      (p q : A → Bool) (f : A → A) (xs : List A) (a : A)
      → ((x : A) → p (f x) ≡ p x)
      → first_where p xs ≡ some a
      → first_where p (update_where q f xs) ≡ some (if q a then f a else a)
  first_where-update_where p q f [] a keep h = absurd (ground (arith, h))
  first_where-update_where p q f (x ∷ xs) a keep h = elim (Bool-cases (p x)) [
    | inl here ↦
        let same : x ≡ a = ground (arith, h, here) in rw (← same) (ground (arith, here, keep x))
    | inr other ↦ ground (arith, other, keep x, first_where-update_where p q f xs a keep)
  ]
