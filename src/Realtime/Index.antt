-- ===== src/Realtime/Index.antt =====
-- The tables of sockets by channel, user and zone, and the table of connections that they index.
use game_gardens_of_karaxas.Base.{
  ℕ, ◌≡◌, inl, inr, refl, sym, ap, ◌∙◌, Bool, true, false, not, ◌&&◌, ◌||◌, Option, none, some,
  List, [], ◌∷◌, ◌++◌, arith, nat_eq_iff, ◌==◌, nat_equality, string_equality, pair_equality,
  option_equality, if◌then◌else◌, Bool-cases, or_default, length,
}
use mathlib.Core.Path.{subst}
use game_gardens_of_karaxas.Base.Dict.{
  Dict, get, put, remove, get-put, get-remove, get-put_self, get-remove_self,
}
use game_gardens_of_karaxas.Realtime.{
  ConnectionMeta, contains, bucket, set_add, set_discard, index_add, index_discard, discard_from,
}

contains-append :
    (s t : ℕ) (set : List ℕ) → contains s (set ++ t ∷ []) ≡ (contains s set || (t == s))
contains-append s t [] = ground arith
contains-append s t (u ∷ set) = ground (arith, contains-append s t set)

contains-set_add :
    (s t : ℕ) (set : List ℕ) → contains s (set_add t set) ≡ (contains s set || (t == s))
unfolding set_add
contains-set_add s t set = elim (Bool-cases (contains t set)) [
  | inr new ↦ rw new (contains-append s t set)
  | inl old ↦ rw old (elim (Bool-cases (t == s)) [
    | inr other ↦ ground (arith, other)
    | inl same ↦
        let named : t ≡ s = ground (arith, same) in
        let there : contains s set ≡ true = subst (λ u. contains u set ≡ true) named old in
        ground (arith, same, there)
  ])
]

contains-set_discard :
    (s t : ℕ) (set : List ℕ) → contains s (set_discard t set) ≡ (contains s set && not (t == s))
unfolding set_discard
contains-set_discard s t [] = ground arith
contains-set_discard s t (u ∷ set) = ground (arith, contains-set_discard s t set)

pub contains-index_add :
    (key : Option ℕ) (s t k : ℕ) (index : Dict ℕ (List ℕ))
    → contains s (bucket k (index_add key t index))
      ≡ (contains s (bucket k index) || ((key == some k) && (t == s)))
contains-index_add none s t k index = unfold index_add in ground arith
contains-index_add (some j) s t k index =
    unfold index_add in
    elim (Bool-cases (j == k)) [
      | inr other ↦ ground (arith, other, get-put j k (set_add t (bucket j index)) index)
      | inl same ↦
          let named : j ≡ k = ground (arith, same) in
          let there : bucket k (put j (set_add t (bucket j index)) index)
              ≡ set_add t (bucket k index) =
            rw named
              (ap (λ o. or_default o []) (get-put_self k (set_add t (bucket k index)) index)) in
          rw there (ground (arith, same, contains-set_add s t (bucket k index)))
    ]

empty_set : (set : List ℕ) → (length set == 0) ≡ true → set ≡ []
empty_set [] h = refl
empty_set (t ∷ set) h = absurd (ground (arith, h))

bucket-discard_from :
    (j t k : ℕ) (found : Option (List ℕ)) (index : Dict ℕ (List ℕ))
    → get j index ≡ found
    → bucket k (discard_from j t found index)
      ≡ (if j == k then set_discard t (bucket k index) else bucket k index)
bucket-discard_from j t k none index h = elim (Bool-cases (j == k)) [
  | inr other ↦ rw other refl
  | inl same ↦
      let named : j ≡ k = ground (arith, same) in
      let empty : bucket k index ≡ [] =
        ap (λ o. or_default o []) (subst (λ i. get i index ≡ none) named h) in
      rw same (empty ∙ rw empty (unfold set_discard in refl))
]
bucket-discard_from j t k (some set) index h = elim (Bool-cases (length (set_discard t set) == 0)) [
  | inl nothing ↦ rw nothing (ap (λ o. or_default o []) (get-remove j k index) ∙ removed nothing)
  | inr rest ↦ rw rest (ap (λ o. or_default o []) (get-put j k (set_discard t set) index) ∙ kept)
]
  where
    there : (j == k) ≡ true → bucket k index ≡ set
    there same =
        let named : j ≡ k = ground (arith, same) in
        ap (λ o. or_default o []) (subst (λ i. get i index ≡ some set) named h)

    removed :
        (length (set_discard t set) == 0) ≡ true
        → or_default (if j == k then none else get k index) []
          ≡ (if j == k then set_discard t (bucket k index) else bucket k index)
    removed nothing = elim (Bool-cases (j == k)) [
      | inr other ↦ rw other refl
      | inl same ↦ rw same (rw (there same) (sym (empty_set (set_discard t set) nothing)))
    ]

    kept :
        or_default (if j == k then some (set_discard t set) else get k index) []
        ≡ (if j == k then set_discard t (bucket k index) else bucket k index)
    kept = elim (Bool-cases (j == k)) [
      | inr other ↦ rw other refl
      | inl same ↦ rw same (ap (set_discard t) (sym (there same)))
    ]

pub contains-index_discard :
    (key : Option ℕ) (s t k : ℕ) (index : Dict ℕ (List ℕ))
    → contains s (bucket k (index_discard key t index))
      ≡ (contains s (bucket k index) && not ((key == some k) && (t == s)))
contains-index_discard none s t k index = unfold index_discard in ground arith
contains-index_discard (some j) s t k index =
    unfold index_discard in
    ap (contains s) (bucket-discard_from j t k (get j index) index refl)
    ∙ elim (Bool-cases (j == k)) [
      | inr other ↦ rw other (ground arith)
      | inl same ↦ rw same (ground (arith, contains-set_discard s t (bucket k index)))
    ]

-- the key of a connection in one of the tables
abbrev pub keyed : (ConnectionMeta → Option ℕ) → ℕ → Option ConnectionMeta → Bool
keyed key k none = false
keyed key k (some m) = key m == some k

-- The table holds a socket under a key if and only if the connection of the socket has the key.
abbrev pub Indexes : (ConnectionMeta → Option ℕ) → Dict ℕ (List ℕ) → Dict ℕ ConnectionMeta → Type 0
Indexes key index metas = (k s : ℕ) → contains s (bucket k index) ≡ keyed key k (get s metas)

module _ (key : ConnectionMeta → Option ℕ) (index : Dict ℕ (List ℕ)) (metas : Dict ℕ ConnectionMeta)
    (t : ℕ) where
  pub Indexes-add :
      (m : ConnectionMeta)
      → get t metas ≡ none
      → Indexes key index metas
      → Indexes key (index_add (key m) t index) (put t m metas)
  Indexes-add m new h k s = elim (Bool-cases (t == s)) [
    | inl same ↦
        let named : t ≡ s = ground (arith, same) in
        let own : (t == t) ≡ true = (nat_eq_iff t t).1 refl in
        let before : contains t (bucket k index) ≡ false = h k t ∙ ap (keyed key k) new in
        let at_t : contains t (bucket k (index_add (key m) t index)) ≡ key m == some k =
          ground (arith, own, before, contains-index_add (key m) t t k index) in
        subst
          (λ u.
            contains u (bucket k (index_add (key m) t index)) ≡ keyed key k (get u (put t m metas)))
          named (at_t ∙ ap (keyed key k) (sym (get-put_self t m metas)))
    | inr other ↦
        let elsewhere : get s (put t m metas) ≡ get s metas = get-put t s m metas ∙ rw other refl in
        let at_s : contains s (bucket k (index_add (key m) t index)) ≡ contains s (bucket k index) =
          ground (arith, other, contains-index_add (key m) s t k index) in
        at_s ∙ h k s ∙ ap (keyed key k) (sym elsewhere)
  ]

  pub Indexes-discard :
      (m : ConnectionMeta)
      → get t metas ≡ some m
      → Indexes key index metas
      → Indexes key (index_discard (key m) t index) (remove t metas)
  Indexes-discard m known h k s = elim (Bool-cases (t == s)) [
    | inl same ↦
        let named : t ≡ s = ground (arith, same) in
        let own : (t == t) ≡ true = (nat_eq_iff t t).1 refl in
        let before : contains t (bucket k index) ≡ (key m == some k) =
          h k t ∙ ap (keyed key k) known in
        let at_t : contains t (bucket k (index_discard (key m) t index)) ≡ false =
          ground (arith, own, before, contains-index_discard (key m) t t k index) in
        subst
          (λ u.
            contains u (bucket k (index_discard (key m) t index))
            ≡ keyed key k (get u (remove t metas)))
          named (at_t ∙ ap (keyed key k) (sym (get-remove_self t metas)))
    | inr other ↦
        let elsewhere : get s (remove t metas) ≡ get s metas =
          get-remove t s metas ∙ rw other refl in
        let at_s : contains s (bucket k (index_discard (key m) t index))
            ≡ contains s (bucket k index) =
          ground (arith, other, contains-index_discard (key m) s t k index) in
        at_s ∙ h k s ∙ ap (keyed key k) (sym elsewhere)
  ]

  pub Indexes-move :
      (m n : ConnectionMeta)
      → get t metas ≡ some m
      → Indexes key index metas
      → Indexes key (index_add (key n) t (index_discard (key m) t index)) (put t n metas)
  Indexes-move m n known h k s = elim (Bool-cases (t == s)) [
    | inl same ↦
        let named : t ≡ s = ground (arith, same) in
        let own : (t == t) ≡ true = (nat_eq_iff t t).1 refl in
        let before : contains t (bucket k index) ≡ (key m == some k) =
          h k t ∙ ap (keyed key k) known in
        let at_t : contains t (bucket k (index_add (key n) t (index_discard (key m) t index)))
            ≡ key n == some k =
          ground (
            arith,
            own,
            before,
            contains-index_add (key n) t t k (index_discard (key m) t index),
            contains-index_discard (key m) t t k index,
          ) in
        subst
          (λ u.
            contains u (bucket k (index_add (key n) t (index_discard (key m) t index)))
            ≡ keyed key k (get u (put t n metas)))
          named (at_t ∙ ap (keyed key k) (sym (get-put_self t n metas)))
    | inr other ↦
        let elsewhere : get s (put t n metas) ≡ get s metas = get-put t s n metas ∙ rw other refl in
        let at_s : contains s (bucket k (index_add (key n) t (index_discard (key m) t index)))
            ≡ contains s (bucket k index) =
          ground (
            arith,
            other,
            contains-index_add (key n) s t k (index_discard (key m) t index),
            contains-index_discard (key m) s t k index,
          ) in
        at_s ∙ h k s ∙ ap (keyed key k) (sym elsewhere)
  ]

  pub Indexes-keep :
      (m n : ConnectionMeta)
      → get t metas ≡ some m
      → key n ≡ key m
      → Indexes key index metas
      → Indexes key index (put t n metas)
  Indexes-keep m n known same_as h k s = elim (Bool-cases (t == s)) [
    | inl same ↦
        let named : t ≡ s = ground (arith, same) in
        let own : (t == t) ≡ true = (nat_eq_iff t t).1 refl in
        let before : contains t (bucket k index) ≡ (key m == some k) =
          h k t ∙ ap (keyed key k) known in
        let same_key : (key n == some k) ≡ (key m == some k) = rw same_as refl in
        let at_t : contains t (bucket k index) ≡ key n == some k =
          ground (arith, own, before, same_key) in
        subst (λ u. contains u (bucket k index) ≡ keyed key k (get u (put t n metas))) named
          (at_t ∙ ap (keyed key k) (sym (get-put_self t n metas)))
    | inr other ↦
        let elsewhere : get s (put t n metas) ≡ get s metas = get-put t s n metas ∙ rw other refl in
        let at_s : contains s (bucket k index) ≡ contains s (bucket k index) =
          ground (arith, other, other) in
        at_s ∙ h k s ∙ ap (keyed key k) (sym elsewhere)
  ]
