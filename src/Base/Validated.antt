-- ===== src/Base/Validated.antt =====
-- What the checks of a request come to: a value, or the status and the code of an HTTPException.
use game_gardens_of_karaxas.Base.{ℕ, String}

pub data Validated {ℓ} (A : Type ℓ) : Type ℓ where
  accepted : A → Validated A
  denied_with : ℕ → String → Validated A

module _ {ℓ κ} {A : Type ℓ} {B : Type κ} where
  abbrev pub if_accepted : Validated A → (A → Validated B) → Validated B
  if_accepted (accepted a) next = next a
  if_accepted (denied_with status code) next = denied_with status code

  abbrev pub map_checked : (A → B) → Validated A → Validated B
  map_checked f (accepted a) = accepted (f a)
  map_checked f (denied_with status code) = denied_with status code
