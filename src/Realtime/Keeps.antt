-- ===== src/Realtime/Keeps.antt =====
-- The connections of the hub that are left when sockets are dropped.
use game_gardens_of_karaxas.Base.{
  ℕ, ◌≡◌, ◌⊎◌, inl, inr, ◌∙◌, Bool, true, none, nat_equality, string_equality, pair_equality,
  option_equality,
}
use game_gardens_of_karaxas.Base.Dict.{get}
use game_gardens_of_karaxas.Realtime.{RealtimeHub}

-- Each socket has the connection that it had, or has none any more, which may be.
abbrev pub Keeps : (ℕ → Bool) → RealtimeHub → RealtimeHub → Type 0
Keeps may before after =
    (t : ℕ) → (get t after.meta ≡ get t before.meta) ⊎ ((get t after.meta ≡ none) × (may t ≡ true))

pub Keeps-trans :
    (may : ℕ → Bool) (a b c : RealtimeHub) → Keeps may a b → Keeps may b c → Keeps may a c
Keeps-trans may a b c h k t = elim (k t) [
  | inr gone ↦ inr gone
  | inl same ↦ elim (h t) [
    | inl before ↦ inl (same ∙ before)
    | inr (gone, e) ↦ inr (same ∙ gone, e)
  ]
]

pub Keeps-mono :
    (may can : ℕ → Bool) (a b : RealtimeHub)
    → ((t : ℕ) → may t ≡ true → can t ≡ true)
    → Keeps may a b
    → Keeps can a b
Keeps-mono may can a b more h t = elim (h t) [
  | inl same ↦ inl same
  | inr (gone, e) ↦ inr (gone, more t e)
]

-- a socket that is gone stays gone
pub stays_gone :
    (may : ℕ → Bool) (a b : RealtimeHub) (s : ℕ)
    → Keeps may a b
    → get s a.meta ≡ none
    → get s b.meta ≡ none
stays_gone may a b s h gone = elim (h s) [ inl same ↦ same ∙ gone | inr (out, e) ↦ out ]
