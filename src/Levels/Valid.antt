-- ===== src/Levels/Valid.antt =====
-- Levels that are valid in a table, and the two writes of the table that keep them so.
use game_gardens_of_karaxas.Base.{
  ℕ, ◌≡◌, Bool, true, not, ◌&&◌, List, [], ◌∷◌, ◌++◌, arith, ltb, ◌==◌, nat_equality,
  string_equality, pair_equality, option_equality, is_none, All, update_where, any_where,
  All-append, All-mono, All-update,
}
use game_gardens_of_karaxas.Levels.{Transition, Level, is_point}
use game_gardens_of_karaxas.Levels.Layers.{is_supported_transition}
use game_gardens_of_karaxas.Levels.Payload.{level_by_id}
use game_gardens_of_karaxas.Levels.Walls.{is_free}

module _ {F : Type 0} where
  abbrev pub exists_in : List (Level F) → ℕ → Bool
  exists_in levels i = not (is_none (level_by_id i levels))

  abbrev pub leads_on : List (Level F) → ℕ → ℕ → Transition → Bool
  leads_on levels width height t =
      ltb t.x width
      && ltb t.y height
      && is_supported_transition t.transition_type
      && exists_in levels t.destination_level_id

  -- A player can stand on the spawn point, walls are inside and not on it, and a transition is inside,
  -- of a known type, and leads to a level of the table.
  pub record IsValid (levels : List (Level F)) (l : Level F) : Type 0 where
    pub spawn_inside : (ltb l.spawn_x l.width && ltb l.spawn_y l.height) ≡ true
    pub walls_inside :
        (x y : ℕ)
        → any_where (is_point x y) l.wall_cells ≡ true
        → is_free l.width l.height l.spawn_x l.spawn_y x y ≡ true
    pub transitions_lead_on : All (λ t. leads_on levels l.width l.height t ≡ true) l.transitions

  -- the levels that exist still exist
  abbrev KeepsIds : List (Level F) → List (Level F) → Type 0
  KeepsIds old new = (i : ℕ) → exists_in old i ≡ true → exists_in new i ≡ true

  leads_still :
      (old new : List (Level F)) (width height : ℕ) (ts : List Transition)
      → KeepsIds old new
      → All (λ t. leads_on old width height t ≡ true) ts
      → All (λ t. leads_on new width height t ≡ true) ts
  leads_still old new width height ts keeps =
      All-mono (λ t. leads_on old width height t ≡ true) (λ t. leads_on new width height t ≡ true)
        ts (λ t h. ground (arith, h, keeps t.destination_level_id))

  still-IsValid :
      (old new : List (Level F)) (l : Level F) → KeepsIds old new → IsValid old l → IsValid new l
  still-IsValid old new l keeps v = record {
    spawn_inside = v.spawn_inside;
    walls_inside = v.walls_inside;
    transitions_lead_on =
        leads_still old new l.width l.height l.transitions keeps v.transitions_lead_on;
  }

  append_keeps : (levels : List (Level F)) (l : Level F) → KeepsIds levels (levels ++ l ∷ [])
  append_keeps [] l i h = absurd (ground (arith, h))
  append_keeps (m ∷ levels) l i h = ground (arith, h, append_keeps levels l i)

  replace_keeps :
      (levels : List (Level F)) (l : Level F)
      → KeepsIds levels (update_where (λ (m : Level F). m.id == l.id) (λ _. l) levels)
  replace_keeps [] l i h = h
  replace_keeps (m ∷ levels) l i h = ground (arith, h, replace_keeps levels l i)

  abbrev pub AllValid : List (Level F) → Type 0
  AllValid levels = All (IsValid levels) levels

  All-still :
      (old new rows : List (Level F))
      → KeepsIds old new
      → All (IsValid old) rows
      → All (IsValid new) rows
  All-still old new rows keeps =
      All-mono (IsValid old) (IsValid new) rows (λ l. still-IsValid old new l keeps)

  pub append-AllValid :
      (levels : List (Level F)) (l : Level F)
      → AllValid levels
      → IsValid levels l
      → AllValid (levels ++ l ∷ [])
  append-AllValid levels l all new =
      let after = levels ++ l ∷ [] in
      let keeps = append_keeps levels l in
      All-append (IsValid after) levels (l ∷ []) (All-still levels after levels keeps all)
        (still-IsValid levels after l keeps new, tt)

  pub replace-AllValid :
      (levels : List (Level F)) (l : Level F)
      → AllValid levels
      → IsValid levels l
      → AllValid (update_where (λ (m : Level F). m.id == l.id) (λ _. l) levels)
  replace-AllValid levels l all new =
      let after = update_where (λ (m : Level F). m.id == l.id) (λ _. l) levels in
      let keeps = replace_keeps levels l in
      All-update (IsValid after) (λ (m : Level F). m.id == l.id) (λ _. l) levels
        (λ _ _. still-IsValid levels after l keeps new) (All-still levels after levels keeps all)
