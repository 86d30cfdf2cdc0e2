-- ===== src/Levels/Requested.antt =====
-- api/routes/levels.py: the order that `save_level_order` gives to the ids, described apart from its
-- loops.
use game_gardens_of_karaxas.Base.{
  ℕ, ◌≤◌, ◌<◌, ◌≡◌, ◌⊎◌, inl, inr, refl, sym, ap, ◌∙◌, Bool, true, false, not, ◌&&◌, List, [], ◌∷◌,
  map, arith, ◌==◌, nat_equality, string_equality, pair_equality, option_equality, Bool-cases,
  is_none, All, first_where, select, count_where, any_where, All-select, All-mono,
}
use mathlib.Core.Path.{subst}
use game_gardens_of_karaxas.Base.Validated.{accepted, map_checked}
use game_gardens_of_karaxas.Levels.{Level}
use game_gardens_of_karaxas.Levels.Save.{precedes, insert_level, by_order, requested_ids, other_ids}

-- each number of a list once, at its first place
unfoldable pub firsts : List ℕ → List ℕ
firsts [] = []
firsts (i ∷ ids) = i ∷ select (λ j. not (j == i)) (firsts ids)

select-select :
    (p q r : ℕ → Bool) (ids : List ℕ)
    → ((j : ℕ) → r j ≡ (p j && q j))
    → select p (select q ids) ≡ select r ids
select-select p q r [] h = refl
select-select p q r (j ∷ ids) h = ground (arith, h j, select-select p q r ids h)

select-always : (p : ℕ → Bool) (ids : List ℕ) → ((j : ℕ) → p j ≡ true) → select p ids ≡ ids
select-always p [] h = refl
select-always p (j ∷ ids) h = rw (h j) (ap (λ more. j ∷ more) (select-always p ids h))

skips :
    (i : ℕ) (seen : List ℕ)
    → any_where (λ k. k == i) seen ≡ true
    → (j : ℕ)
    → not (any_where (λ k. k == j) seen) ≡ (not (any_where (λ k. k == j) seen) && not (j == i))
skips i seen old j = elim (Bool-cases (j == i)) [
  | inr other ↦ ground (arith, other)
  | inl same ↦
      let named : j ≡ i = ground (arith, same) in
      let there : any_where (λ k. k == j) seen ≡ true =
        subst (λ m. any_where (λ k. k == m) seen ≡ true) (sym named) old in
      rw there refl
]

any_where-select-not :
    (i j : ℕ) (ids : List ℕ)
    → (j == i) ≡ false
    → any_where (λ k. k == i) (select (λ k. not (k == j)) ids) ≡ any_where (λ k. k == i) ids
any_where-select-not i j [] other = refl
any_where-select-not i j (k ∷ ids) other = elim (Bool-cases (k == j)) [
  | inl same ↦
      let apart : (k == i) ≡ false = ground (arith, same, other) in
      rw (same, apart) (any_where-select-not i j ids other)
  | inr kept ↦ rw kept (ground (arith, any_where-select-not i j ids other))
]

-- a number is in the list with each once if and only if it is in the list
any_where-firsts :
    (i : ℕ) (ids : List ℕ) → any_where (λ k. k == i) (firsts ids) ≡ any_where (λ k. k == i) ids
unfolding firsts
any_where-firsts i [] = refl
any_where-firsts i (j ∷ ids) = elim (Bool-cases (j == i)) [
  | inl same ↦ rw same refl
  | inr other ↦ rw other (any_where-select-not i j (firsts ids) other ∙ any_where-firsts i ids)
]

module _ {F : Type 0} where
  abbrev pub Exists : List (Level F) → ℕ → Type 0
  Exists levels i = any_where (λ (l : Level F). l.id == i) levels ≡ true

  any_where-insert_level :
      (p : Level F → Bool) (l : Level F) (levels : List (Level F))
      → any_where p (insert_level l levels) ≡ any_where p (l ∷ levels)
  unfolding insert_level
  any_where-insert_level p l [] = refl
  any_where-insert_level p l (m ∷ levels) = elim (Bool-cases (precedes m l)) [
    | inl before ↦ rw before (ground (arith, any_where-insert_level p l levels))
    | inr after ↦ rw after refl
  ]

  pub any_where-by_order :
      (p : Level F → Bool) (levels : List (Level F))
      → any_where p (by_order levels) ≡ any_where p levels
  unfolding by_order
  any_where-by_order p [] = refl
  any_where-by_order p (l ∷ levels) =
      any_where-insert_level p l (by_order levels) ∙ ground (arith, any_where-by_order p levels)

  found_level :
      (i : ℕ) (levels : List (Level F))
      → Exists levels i
      → is_none (first_where (λ (l : Level F). l.id == i) levels) ≡ false
  found_level i [] h = absurd (ground (arith, h))
  found_level i (l ∷ levels) h = elim (Bool-cases (l.id == i)) [
    | inl here ↦ rw here refl
    | inr other ↦ rw other (found_level i levels (ground (arith, h, other)))
  ]

  unseen_firsts :
      (levels : List (Level F)) (seen request : List ℕ)
      → All (Exists levels) request
      → requested_ids levels seen request
        ≡ accepted (select (λ j. not (any_where (λ k. k == j) seen)) (firsts request))
  unfolding requested_ids firsts
  unseen_firsts levels seen [] known = refl
  unseen_firsts levels seen (i ∷ request) (there, others) =
      let new = λ (j : ℕ). not (any_where (λ k. k == j) seen) in
      elim (Bool-cases (any_where (λ k. k == i) seen)) [
        | inl old ↦
            let same : select new (select (λ j. not (j == i)) (firsts request))
                ≡ select new (firsts request) =
              select-select new (λ j. not (j == i)) new (firsts request) (skips i seen old) in
            rw old (unseen_firsts levels seen request others ∙ ap accepted (sym same))
        | inr fresh ↦
            let rest =
              select-select new (λ j. not (j == i)) (λ j. not (any_where (λ k. k == j) (i ∷ seen)))
                (firsts request) (λ j. ground arith) in
            rw (fresh, found_level i levels there)
              (ap (map_checked (λ more. i ∷ more)) (unseen_firsts levels (i ∷ seen) request others)
                ∙ ap (λ more. accepted (i ∷ more)) (sym rest))
      ]

  -- the first loop of `save_level_order`, where all levels of the request exist
  pub requested_ids-firsts :
      (levels : List (Level F)) (request : List ℕ)
      → All (Exists levels) request
      → requested_ids levels [] request ≡ accepted (firsts request)
  requested_ids-firsts levels request known =
      unseen_firsts levels [] request known
      ∙ ap accepted (select-always (λ j. true) (firsts request) (λ j. refl))

  -- the first level does not come behind the second
  abbrev pub Leads : Level F → Level F → Type 0
  Leads l m = (l.order_index < m.order_index) ⊎ ((l.order_index ≡ m.order_index) × (l.id ≤ m.id))

  -- each level leads all that follow it
  abbrev pub InOrder : List (Level F) → Type 0
  InOrder [] = Unit {0}
  InOrder (l ∷ levels) = All (Leads l) levels × InOrder levels

  Leads-trans : (a b c : Level F) → Leads a b → Leads b c → Leads a c
  Leads-trans a b c h k = ground (arith, h, k)

  All-insert_level :
      (P : Level F → Type 0) (l : Level F) (levels : List (Level F))
      → P l
      → All P levels
      → All P (insert_level l levels)
  unfolding insert_level
  All-insert_level P l [] first h = (first, tt)
  All-insert_level P l (m ∷ levels) first h = elim (Bool-cases (precedes m l)) [
    | inl before ↦ rw before (h.0, All-insert_level P l levels first h.1)
    | inr after ↦ rw after (first, h)
  ]

  insert_level-InOrder :
      (l : Level F) (levels : List (Level F)) → InOrder levels → InOrder (insert_level l levels)
  unfolding insert_level
  insert_level-InOrder l [] h = (tt, tt)
  insert_level-InOrder l (m ∷ levels) (first, others) = elim (Bool-cases (precedes m l)) [
    | inl before ↦
        let leads : Leads m l = ground (arith, before) in
        rw before
          (All-insert_level (Leads m) l levels leads first, insert_level-InOrder l levels others)
    | inr after ↦
        let leads : Leads l m = ground (arith, after) in
        rw after (
          (leads, All-mono (Leads m) (Leads l) levels (λ n. Leads-trans l m n leads) first),
          (first, others),
        )
  ]

  by_order-InOrder : (levels : List (Level F)) → InOrder (by_order levels)
  unfolding by_order
  by_order-InOrder [] = tt
  by_order-InOrder (l ∷ levels) = insert_level-InOrder l (by_order levels) (by_order-InOrder levels)

  select-InOrder :
      (p : Level F → Bool) (levels : List (Level F)) → InOrder levels → InOrder (select p levels)
  select-InOrder p [] h = tt
  select-InOrder p (l ∷ levels) (first, others) = elim (Bool-cases (p l)) [
    | inl hit ↦ rw hit (All-select (Leads l) p levels first, select-InOrder p levels others)
    | inr miss ↦ rw miss (select-InOrder p levels others)
  ]

  other_ids-select :
      (ids : List ℕ) (levels : List (Level F))
      → other_ids ids levels
        ≡ map
            (λ (l : Level F). l.id)
            (select (λ (l : Level F). not (any_where (λ j. j == l.id) ids)) levels)
  unfolding other_ids
  other_ids-select ids [] = refl
  other_ids-select ids (l ∷ levels) = ground (arith, other_ids-select ids levels)

  -- the first list has the levels of the second that are not asked for, in any order
  abbrev pub HasOthers : List (Level F) → List ℕ → List (Level F) → Type 0
  HasOthers rest request levels =
      (p : Level F → Bool)
      → count_where p rest
        ≡ count_where (λ (l : Level F). p l && not (any_where (λ j. j == l.id) request)) levels

  count_where-select :
      (p q : Level F → Bool) (request : List ℕ) (levels : List (Level F))
      → ((l : Level F) → q l ≡ not (any_where (λ j. j == l.id) request))
      → count_where p (select q levels)
        ≡ count_where (λ (l : Level F). p l && not (any_where (λ j. j == l.id) request)) levels
  count_where-select p q request [] h = refl
  count_where-select p q request (l ∷ levels) h =
      ground (arith, h l, count_where-select p q request levels h)

  -- the second loop of `save_level_order`: the levels that are left, in order
  pub other_ids-InOrder :
      (request : List ℕ) (levels : List (Level F))
      → (rest : List (Level F)) × InOrder rest
        × HasOthers rest request (by_order levels)
        × (other_ids (firsts request) (by_order levels) ≡ map (λ (l : Level F). l.id) rest)
  other_ids-InOrder request levels =
      let left = λ (l : Level F). not (any_where (λ j. j == l.id) (firsts request)) in
      (
        select left (by_order levels),
        select-InOrder _ (by_order levels) (by_order-InOrder levels),
        (λ p.
            count_where-select p left request (by_order levels)
              (λ l. ap not (any_where-firsts l.id request))),
        other_ids-select (firsts request) (by_order levels),
      )
