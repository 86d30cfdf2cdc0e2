-- ===== src/Auth/Rotation.antt =====
-- The rotation of refresh tokens: what becomes of a token that was used.
use game_gardens_of_karaxas.Base.{
  ℕ, String, ◌≡◌, inl, inr, refl, Bool, true, false, not, ◌&&◌, ◌||◌, none, some, List, [], ◌∷◌,
  arith, ◌==◌, nat_equality, string_equality, pair_equality, option_equality, Bool-cases,
  first_where, count_where, update_where, any_where,
}
use game_gardens_of_karaxas.Models.{UserSession}
use game_gardens_of_karaxas.Auth.Refresh.{has_token, had_token, live_session_of}

-- a row of another session with this token, now or before
abbrev pub shares_token : String → String → UserSession → Bool
shares_token hash session_id s = (has_token hash s || had_token hash s) && not (s.id == session_id)

pub none_live :
    (user now : ℕ) (rows : List UserSession)
    → count_where (live_session_of user) (
        update_where
          (live_session_of user)
          (λ (s : UserSession). record s { revoked_at = some now })
          rows)
      ≡ 0
none_live user now [] = refl
none_live user now (s ∷ rows) = ground (arith, none_live user now rows)

module _ (hash : String) (i : String) (s : UserSession) (named : (s.id == i) ≡ true)
    (new : has_token hash s ≡ false) where
  pub no_holder :
      (rows : List UserSession)
      → any_where (shares_token hash i) rows ≡ false
      → first_where (has_token hash) (update_where (λ (r : UserSession). r.id == i) (λ _. s) rows)
        ≡ none
  no_holder [] alone = refl
  no_holder (r ∷ rows) alone = elim (Bool-cases (r.id == i)) [
    | inl mine ↦ rw mine (rw new (no_holder rows (ground (arith, alone))))
    | inr other ↦ elim (Bool-cases (has_token hash r)) [
      | inl held ↦ absurd (ground (arith, alone, held, other))
      | inr free ↦ rw other (rw free (no_holder rows (ground (arith, alone))))
    ]
  ]

  pub old_holder :
      (rows : List UserSession)
      → any_where (shares_token hash i) rows ≡ false
      → had_token hash s ≡ true
      → any_where (λ (r : UserSession). r.id == i) rows ≡ true
      → first_where (had_token hash) (update_where (λ (r : UserSession). r.id == i) (λ _. s) rows)
        ≡ some s
  old_holder [] alone had there = absurd (ground arith)
  old_holder (r ∷ rows) alone had there = elim (Bool-cases (r.id == i)) [
    | inl mine ↦ rw mine (rw had refl)
    | inr other ↦ elim (Bool-cases (had_token hash r)) [
      | inl held ↦ absurd (ground (arith, alone, held, other))
      | inr free ↦
          rw other
            (rw free (old_holder rows (ground (arith, alone)) had (ground (arith, there, other))))
    ]
  ]
