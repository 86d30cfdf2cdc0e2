-- ===== src/Base/Decimal.antt =====
-- Python's `str` of a natural number.
use Prim.Native.Nat.{ℕ, ◌/◌, ◌%◌}
use Prim.Native.String.{String, ◌++◌ as concat}
use package.game_gardens_of_karaxas.Base.Tests.{ltb, if◌then◌else◌}
use mathlib.Core.List.{List, [], ◌∷◌}

abbrev pub concat_text : String → String → String
concat_text = concat

-- the text of the digit at a position of the list
abbrev pub digit_at : ℕ → List String → String
digit_at _ [] = "9"
digit_at ℕ.zero (d ∷ _) = d
digit_at (ℕ.suc n) (_ ∷ ds) = digit_at n ds

abbrev pub digit : ℕ → String
digit d = digit_at d ("0" ∷ "1" ∷ "2" ∷ "3" ∷ "4" ∷ "5" ∷ "6" ∷ "7" ∷ "8" ∷ "9" ∷ [])

-- The fuel is the number itself, which is not less than its number of digits.
abbrev pub decimal_on : ℕ → ℕ → String
decimal_on ℕ.zero n = digit (n % 10)
decimal_on (ℕ.suc fuel) n =
    let front = decimal_on fuel (n / 10) in
    if ltb n 10 then digit n else concat front (digit (n % 10))

unfoldable pub decimal : ℕ → String
decimal n = decimal_on n n
