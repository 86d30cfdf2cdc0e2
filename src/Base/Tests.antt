-- ===== src/Base/Tests.antt =====
-- Boolean tests, the conditional, and equality as an interface that keys of a table implement.
use Prim.Native.Nat.{ℕ, ◌*◌, compare, Ordering}
use Prim.Native.String.{String}
use mathlib.Core.Path.{◌≡◌, refl}
use mathlib.Core.Logic.{◌↔◌, ◌⊎◌, inl, inr}
use mathlib.Core.Bool.{Bool, true, false, ◌&&◌}
use mathlib.Core.Option.{Option, none, some}
use native.Mathlib.Omega.{arith}
use text.Mathlib.Text.{◌==◌ as str_eq}
use text.Mathlib.TextEquality.{eq_iff}

abbrev pub ltb : ℕ → ℕ → Bool
ltb a b = elim (compare a b) [ Ordering.lt ↦ true | _ ↦ false ]

abbrev pub leb : ℕ → ℕ → Bool
leb a b = elim (compare a b) [ Ordering.gt ↦ false | _ ↦ true ]

abbrev pub nat_eq : ℕ → ℕ → Bool
nat_eq a b = elim (compare a b) [ Ordering.eq ↦ true | _ ↦ false ]

pub nat_eq_iff : (a b : ℕ) → (nat_eq a b ≡ true) ↔ (a ≡ b)
nat_eq_iff a b = ground arith

infix 1 if◌then◌else◌
abbrev pub if◌then◌else◌ {ℓ} : {A : Type ℓ} → Bool → A → A → A
if true then x else y = x
if false then x else y = y

-- The keys of the program's tables are compared by an instance of this interface.
pub record Equality {ℓ} (K : Type ℓ) : Type ℓ where
  pub same : K → K → Bool
  pub same_iff : (j k : K) → (same j k ≡ true) ↔ (j ≡ k)

instance abbrev pub string_equality : Equality String
string_equality = record { same_iff = eq_iff; same = str_eq }

instance abbrev pub nat_equality : Equality ℕ
nat_equality = record { same_iff = nat_eq_iff; same = nat_eq }

infix 50 ◌==◌
abbrev pub ◌==◌ {ℓ} : {K : Type ℓ} ⦃keys : Equality K⦄ → K → K → Bool
◌==◌ ⦃keys⦄ j k = keys.same j k

pub string_eq_iff : (a b : String) → (str_eq a b ≡ true) ↔ (a ≡ b)
string_eq_iff = eq_iff

abbrev pub pair_eq {ℓ κ} :
    {A : Type ℓ} {B : Type κ} ⦃e : Equality A⦄ ⦃f : Equality B⦄ → A × B → A × B → Bool
pair_eq ⦃e⦄ ⦃f⦄ p q = e.same p.0 q.0 && f.same p.1 q.1

pub pair_eq_iff {ℓ κ} :
    {A : Type ℓ} {B : Type κ} ⦃e : Equality A⦄ ⦃f : Equality B⦄ (p q : A × B)
    → (pair_eq p q ≡ true) ↔ (p ≡ q)
pair_eq_iff ⦃e⦄ ⦃f⦄ p q = ground (arith, e.same_iff p.0 q.0, f.same_iff p.1 q.1)

instance abbrev pub pair_equality {ℓ κ} :
    {A : Type ℓ} {B : Type κ} ⦃e : Equality A⦄ ⦃f : Equality B⦄ → Equality (A × B)
pair_equality = record { same = pair_eq; same_iff = pair_eq_iff }

abbrev pub option_eq {ℓ} : {A : Type ℓ} ⦃e : Equality A⦄ → Option A → Option A → Bool
option_eq none none = true
option_eq ⦃e⦄ (some a) (some b) = e.same a b
option_eq _ _ = false

pub option_eq_iff {ℓ} :
    {A : Type ℓ} ⦃e : Equality A⦄ (o p : Option A) → (option_eq o p ≡ true) ↔ (o ≡ p)
option_eq_iff none none = ground arith
option_eq_iff none (some b) = ground arith
option_eq_iff (some a) none = ground arith
option_eq_iff ⦃e⦄ (some a) (some b) = ground (arith, e.same_iff a b)

instance abbrev pub option_equality {ℓ} : {A : Type ℓ} ⦃e : Equality A⦄ → Equality (Option A)
option_equality = record { same = option_eq; same_iff = option_eq_iff }

pub Bool-cases : (b : Bool) → (b ≡ true) ⊎ (b ≡ false)
Bool-cases true = inl refl
Bool-cases false = inr refl

pub Option-cases {ℓ} : {A : Type ℓ} (o : Option A) → (o ≡ none) ⊎ ((a : A) × (o ≡ some a))
Option-cases none = inl refl
Option-cases (some a) = inr (a, refl)

-- `x is None`
abbrev pub is_none {ℓ} : {A : Type ℓ} → Option A → Bool
is_none none = true
is_none (some _) = false

-- `x or d`, for an `x` that has no falsy values but `None`
abbrev pub or_default {ℓ} : {A : Type ℓ} → Option A → A → A
or_default none d = d
or_default (some a) _ = a

-- a number of seconds, as a time in microseconds
abbrev pub micros : ℕ → ℕ
micros s = s * 1000000
