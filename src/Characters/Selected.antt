-- ===== src/Characters/Selected.antt =====
-- The characters of a user behind a selection.
use game_gardens_of_karaxas.Base.{
  ℕ, ◌≡◌, inl, inr, refl, ap, ◌∙◌, Bool, true, false, ◌&&◌, some, List, [], ◌∷◌, arith, nat_eq_iff,
  ◌==◌, nat_equality, string_equality, pair_equality, option_equality, Bool-cases, select,
  count_where,
}
use game_gardens_of_karaxas.Base.Validated.{accepted}
use game_gardens_of_karaxas.Characters.{
  CharacterRow, row_by_id, apply_selected_character, select_character,
}

abbrev pub is_chosen : ℕ → CharacterRow → Bool
is_chosen user c = (c.user_id == user) && c.is_selected

abbrev pub is_of : ℕ → CharacterRow → Bool
is_of user c = c.user_id == user

count-apply_selected :
    (user id : ℕ) (rows : List CharacterRow)
    → count_where (is_chosen user) (apply_selected_character user id rows)
      ≡ count_where (λ (c : CharacterRow). (c.id == id) && (c.user_id == user)) rows
unfolding apply_selected_character
count-apply_selected user id [] = refl
count-apply_selected user id (c ∷ rows) = ground (arith, count-apply_selected user id rows)

others_keep :
    (user id other : ℕ) (rows : List CharacterRow)
    → (other == user) ≡ false
    → select (is_of other) (apply_selected_character user id rows) ≡ select (is_of other) rows
unfolding apply_selected_character
others_keep user id other [] h = refl
others_keep user id other (c ∷ rows) h = elim (Bool-cases (c.user_id == user)) [
  | inl mine ↦
      let not_his : (c.user_id == other) ≡ false = ground (arith, mine, h) in
      rw (mine, not_his) (others_keep user id other rows h)
  | inr his ↦ rw his (ground (arith, others_keep user id other rows h))
]

same_rows :
    (user id : ℕ) (rows : List CharacterRow) (c : CharacterRow)
    → row_by_id id rows ≡ some c
    → c.user_id ≡ user
    → count_where (λ (d : CharacterRow). d.id == id) rows ≡ 1
    → count_where (λ (d : CharacterRow). (d.id == id) && (d.user_id == user)) rows ≡ 1
same_rows user id [] c h own one = absurd (ground (arith, h))
same_rows user id (d ∷ rows) c h own one = elim (Bool-cases (d.id == id)) [
  | inr other ↦ ground (arith, other, same_rows user id rows c, h, own, one)
  | inl here ↦
      let same : d ≡ c = ground (arith, h, here) in
      let his : d.user_id ≡ user = ap (λ (r : CharacterRow). r.user_id) same ∙ own in
      let rest : count_where (λ (d : CharacterRow). d.id == id) rows ≡ 0 =
        ground (arith, one, here) in
      ground (arith, here, his, none_else rows rest)
]
  where
    none_else :
        (rows : List CharacterRow)
        → count_where (λ (d : CharacterRow). d.id == id) rows ≡ 0
        → count_where (λ (d : CharacterRow). (d.id == id) && (d.user_id == user)) rows ≡ 0
    none_else [] h = refl
    none_else (d ∷ rows) h = ground (arith, h, none_else rows)

pub selected_once :
    (user id : ℕ) (rows : List CharacterRow) (c : CharacterRow)
    → row_by_id id rows ≡ some c
    → c.user_id ≡ user
    → count_where (λ (d : CharacterRow). d.id == id) rows ≡ 1
    → count_where (is_chosen user) (apply_selected_character user id rows) ≡ 1
selected_once user id rows c found own one =
    count-apply_selected user id rows ∙ same_rows user id rows c found own one

-- Selecting a character of one's own leaves exactly one of the user's characters selected, and leaves the
-- characters of every other user as they were. The id is that of one row.
pub select_character_lem :
    (user id other : ℕ) (rows : List CharacterRow) (c : CharacterRow)
    → row_by_id id rows ≡ some c
    → c.user_id ≡ user
    → count_where (λ (d : CharacterRow). d.id == id) rows ≡ 1
    → (other == user) ≡ false
    → (let (answer, after) = select_character user id rows in
        (answer ≡ accepted id)
        × (count_where (is_chosen user) after ≡ 1)
        × (select (is_of other) after ≡ select (is_of other) rows))
select_character_lem user id other rows c found own one else_ =
    let mine : (c.user_id == user) ≡ true = (nat_eq_iff c.user_id user).1 own in
    let out : select_character user id rows ≡ (accepted id, apply_selected_character user id rows) =
      unfold select_character in rw (found, select_character) (rw (mine, select_character) refl) in
    rw out (
      refl,
      count-apply_selected user id rows ∙ same_rows user id rows c found own one,
      others_keep user id other rows else_,
    )
