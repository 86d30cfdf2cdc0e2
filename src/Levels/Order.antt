-- ===== src/Levels/Order.antt =====
-- What `save_level_order` writes.
use mathlib.Core.Path.{subst}
use game_gardens_of_karaxas.Base.{
  ℕ, suc, ◌+◌, ◌≤◌, ◌≡◌, inl, inr, refl, sym, ap, ◌∙◌, Bool, true, false, some, List, [], ◌∷◌, ◌++◌,
  map, arith, ◌==◌, nat_equality, string_equality, pair_equality, option_equality, if◌then◌else◌,
  Bool-cases, is_none, length, All, first_where, count_where, update_where, any_where,
  count_where-append, first_where_sound, All-mono, first_where-update_where,
}
use game_gardens_of_karaxas.Base.Validated.{Validated, accepted, denied_with, map_checked}
use game_gardens_of_karaxas.Levels.{Level}
use game_gardens_of_karaxas.Levels.Requested.{
  firsts, Exists, any_where-by_order, requested_ids-firsts, InOrder, HasOthers, other_ids-InOrder,
}
use game_gardens_of_karaxas.Levels.Payload.{level_by_id}
use game_gardens_of_karaxas.Levels.Save.{
  LevelTable, precedes, insert_level, by_order, requested_ids, other_ids, write_order, ordered_ids,
  save_level_order,
}

-- the index of the first of some ids that is `i`
abbrev pub place_in : ℕ → List ℕ → ℕ
place_in i [] = 0
place_in i (j ∷ ids) = let rest = place_in i ids in if j == i then 0 else suc rest

abbrev pub times : ℕ → List ℕ → ℕ
times i = count_where (λ j. j == i)

abbrev times_in : ℕ → Validated (List ℕ) → ℕ
times_in i (accepted ids) = times i ids
times_in i (denied_with _ _) = 0

times_in_cons :
    (i j : ℕ) (r : Validated (List ℕ))
    → times_in i (map_checked (λ more. j ∷ more) r) ≤ (if j == i then 1 else 0) + times_in i r
times_in_cons i j (accepted ids) = ground arith
times_in_cons i j (denied_with _ _) = ground arith

-- an id that is listed occurs
occurs : (i : ℕ) (ids : List ℕ) → any_where (λ j. j == i) ids ≡ true → 1 ≤ times i ids
occurs i [] h = absurd (ground (arith, h))
occurs i (j ∷ ids) h = ground (arith, occurs i ids)

occurs_not : (i : ℕ) (ids : List ℕ) → any_where (λ j. j == i) ids ≡ false → times i ids ≡ 0
occurs_not i [] h = refl
occurs_not i (j ∷ ids) h = ground (arith, occurs_not i ids)

module _ {F : Type 0} where
  abbrev placed : ℕ → List ℕ → Level F → Level F
  placed index [] l = l
  placed index (i ∷ ids) l =
      placed (index + 1) ids (if l.id == i then record l { order_index = index } else l)

  write_order_at :
      (i index : ℕ) (ids : List ℕ) (levels : List (Level F)) (l : Level F)
      → level_by_id i levels ≡ some l
      → level_by_id i (write_order index ids levels) ≡ some (placed index ids l)
  unfolding write_order
  write_order_at i index [] levels l h = h
  write_order_at i index (j ∷ ids) levels l h =
      write_order_at i (index + 1) ids
        (update_where (λ (l : Level F). l.id == j)
          (λ (l : Level F). record l { order_index = index }) levels)
        (if l.id == j then record l { order_index = index } else l)
        (first_where-update_where (λ (l : Level F). l.id == i) (λ (l : Level F). l.id == j)
          (λ (l : Level F). record l { order_index = index }) levels l (λ _. refl) h)

  placed_never :
      (index : ℕ) (ids : List ℕ) (l : Level F) → times l.id ids ≡ 0 → placed index ids l ≡ l
  placed_never index [] l h = refl
  placed_never index (i ∷ ids) l h = elim (Bool-cases (i == l.id)) [
    | inl here ↦ absurd (ground (arith, h, here))
    | inr other ↦
        let not_here : (l.id == i) ≡ false = ground (arith, other) in
        rw not_here (placed_never (index + 1) ids l (ground (arith, h, other)))
  ]

  placed_once :
      (index : ℕ) (ids : List ℕ) (l : Level F)
      → times l.id ids ≡ 1
      → placed index ids l ≡ record l { order_index = index + place_in l.id ids }
  placed_once index [] l h = absurd (ground (arith, h))
  placed_once index (i ∷ ids) l h = elim (Bool-cases (i == l.id)) [
    | inl here ↦
        let turned : (l.id == i) ≡ true = ground (arith, here) in
        let last : index ≡ index + place_in l.id (i ∷ ids) = ground (arith, here) in
        let later =
          placed_never (index + 1) ids (record l { order_index = index })
            (ground (arith, h, here)) in
        rw turned (later ∙ ap (λ n. record l { order_index = n }) last)
    | inr other ↦
        let turned : (l.id == i) ≡ false = ground (arith, other) in
        let behind : index + 1 + place_in l.id ids ≡ index + place_in l.id (i ∷ ids) =
          ground (arith, other) in
        rw turned (
          placed_once (index + 1) ids l (ground (arith, h, other))
          ∙ ap (λ n. record l { order_index = n }) behind)
  ]

  count_where-insert_level :
      (p : Level F → Bool) (l : Level F) (levels : List (Level F))
      → count_where p (insert_level l levels) ≡ count_where p (l ∷ levels)
  unfolding insert_level
  count_where-insert_level p l [] = refl
  count_where-insert_level p l (m ∷ levels) = elim (Bool-cases (precedes m l)) [
    | inl before ↦ rw before (ground (arith, count_where-insert_level p l levels))
    | inr after ↦ rw after refl
  ]

  count_where-by_order :
      (p : Level F → Bool) (levels : List (Level F))
      → count_where p (by_order levels) ≡ count_where p levels
  unfolding by_order
  count_where-by_order p [] = refl
  count_where-by_order p (l ∷ levels) =
      count_where-insert_level p l (by_order levels) ∙ ground (arith, count_where-by_order p levels)

  requested_once :
      (levels : List (Level F)) (i : ℕ) (seen request : List ℕ)
      → times_in i (requested_ids levels seen request)
        ≤ (if any_where (λ j. j == i) seen then 0 else 1)
  unfolding requested_ids
  requested_once levels i seen [] = omega arith
  requested_once levels i seen (j ∷ request) = elim (Bool-cases (any_where (λ k. k == j) seen)) [
    | inl known ↦ rw known (requested_once levels i seen request)
    | inr new ↦ elim (Bool-cases (is_none (first_where (λ (l : Level F). l.id == j) levels))) [
      | inl missing ↦ rw (new, missing) (omega arith)
      | inr there ↦
          let rest = requested_once levels i (j ∷ seen) request in
          let more = times_in_cons i j (requested_ids levels (j ∷ seen) request) in
          rw (new, there)
            (elim (Bool-cases (j == i)) [
              | inl same ↦
                  let named : j ≡ i = ground (arith, same) in
                  let unseen : any_where (λ k. k == i) seen ≡ false =
                    subst (λ k. any_where (λ m. m == k) seen ≡ false) named new in
                  rw unseen (ground (arith, rest, more, same))
              | inr other ↦ ground (arith, rest, more, other)
            ])
    ]
  ]

  times_other :
      (i : ℕ) (ids : List ℕ) (levels : List (Level F))
      → times i (other_ids ids levels) ≡ (
          if any_where (λ j. j == i) ids
          then 0
          else count_where (λ (l : Level F). l.id == i) levels)
  unfolding other_ids
  times_other i ids [] = ground arith
  times_other i ids (l ∷ levels) = elim (Bool-cases (l.id == i)) [
    | inl same ↦
        let named : l.id ≡ i = ground (arith, same) in
        elim (Bool-cases (any_where (λ j. j == i) ids)) [
          | inl listed ↦
              let here : any_where (λ j. j == l.id) ids ≡ true =
                subst (λ k. any_where (λ j. j == k) ids ≡ true) (sym named) listed in
              rw here (ground (arith, listed, times_other i ids levels))
          | inr unlisted ↦
              let here : any_where (λ j. j == l.id) ids ≡ false =
                subst (λ k. any_where (λ j. j == k) ids ≡ false) (sym named) unlisted in
              rw here (ground (arith, same, unlisted, times_other i ids levels))
        ]
    | inr other ↦ elim (Bool-cases (any_where (λ j. j == l.id) ids)) [
      | inl listed ↦ rw listed (ground (arith, other, times_other i ids levels))
      | inr unlisted ↦ rw unlisted (ground (arith, other, times_other i ids levels))
    ]
  ]

  all_once :
      (i : ℕ) (ids : List ℕ) (levels : List (Level F))
      → times i ids ≤ 1
      → count_where (λ (l : Level F). l.id == i) levels ≡ 1
      → times i (ids ++ other_ids ids (by_order levels)) ≡ 1
  all_once i ids levels few one =
      let total = count_where-append (λ j. j == i) ids (other_ids ids (by_order levels)) in
      let others = times_other i ids (by_order levels) in
      let kept = count_where-by_order (λ (l : Level F). l.id == i) levels in
      elim (Bool-cases (any_where (λ j. j == i) ids)) [
        | inl listed ↦ ground (arith, total, others, listed, few, occurs i ids listed)
        | inr unlisted ↦
            ground (arith, total, others, unlisted, kept, one, occurs_not i ids unlisted)
      ]

  known_in_order :
      (levels : List (Level F)) (request : List ℕ)
      → All (Exists levels) request
      → All (Exists (by_order levels)) request
  known_in_order levels request known =
      All-mono (Exists levels) (Exists (by_order levels)) request
        (λ i h. any_where-by_order (λ (l : Level F). l.id == i) levels ∙ h) known

  -- If every level of the request exists, `save_level_order` numbers the levels without a gap: first those
  -- of the request, each at its first place in it, then exactly the others, by their former order and by
  -- id. Each
  -- level of the table is numbered once, has its place, counted from 1, as its new order, and nothing
  -- else of it changes; the answer is the number of levels that are numbered. The level is any level of
  -- the table, and its id is the level's own.
  pub save_level_order_lem :
      (request : List ℕ) (table : LevelTable F) (i : ℕ) (l : Level F)
      → All (Exists table.levels) request
      → level_by_id i table.levels ≡ some l
      → count_where (λ (m : Level F). m.id == i) table.levels ≡ 1
      → (let (answer, after) = save_level_order request table in
          (rest : List (Level F)) × InOrder rest
          × HasOthers rest request table.levels
          × (let ids = firsts request ++ map (λ (m : Level F). m.id) rest in
              (answer ≡ accepted (length ids))
              × (level_by_id i after.levels ≡ some (record l { order_index = 1 + place_in i ids }))
              × (times i ids ≡ 1)))
  save_level_order_lem request table i l exist found one =
      let requested = firsts request in
      let known =
        requested_ids-firsts (by_order table.levels) request
          (known_in_order table.levels request exist) in
      let (rest, in_order, all_left, others) = other_ids-InOrder request table.levels in
      let ids = requested ++ map (λ (m : Level F). m.id) rest in
      let listed : requested ++ other_ids requested (by_order table.levels) ≡ ids =
        ap (λ more. requested ++ more) others in
      let few : times i requested ≤ 1 =
        ground
          (arith, ap (times_in i) known, requested_once (by_order table.levels) i [] request) in
      let once : times i ids ≡ 1 =
        ap (times i) (sym listed) ∙ all_once i requested table.levels few one in
      let own : l.id ≡ i =
        ground (arith, first_where_sound (λ (m : Level F). m.id == i) table.levels l found) in
      let ordered : ordered_ids request table ≡ accepted ids =
        unfold ordered_ids in rw known (ap accepted listed) in
      let out : save_level_order request table
          ≡ (accepted (length ids), record table { levels = write_order 1 ids table.levels }) =
        unfold save_level_order in rw (ordered, save_level_order) refl in
      let moved : placed 1 ids l ≡ record l { order_index = 1 + place_in i ids } =
        placed_once 1 ids l (subst (λ k. times k ids ≡ 1) (sym own) once)
        ∙ ap (λ k. record l { order_index = 1 + place_in k ids }) own in
      rw out (
        rest,
        in_order,
        (λ p. all_left p ∙ count_where-by_order _ table.levels),
        (refl, write_order_at i 1 ids table.levels l found ∙ ap (λ m. some m) moved, once),
      )
