-- ===== src/EventPipeline/Idempotency.antt =====
-- event_pipeline.py: `reserve_idempotency_key`, `finalize_idempotency_key`.
use game_gardens_of_karaxas.Base.{
  ℕ, ◌+◌, ◌≤◌, String, ◌≡◌, ◌≢◌, inl, inr, refl, Bool, true, false, ◌&&◌, Option, none, some, List,
  [], ◌∷◌, ◌++◌, arith, string_eq_iff, ◌==◌, nat_equality, string_equality, pair_equality,
  option_equality, if◌then◌else◌, Bool-cases, Option-cases, first_where, count_where, update_where,
  count_where-append,
}
use game_gardens_of_karaxas.Base.Text.{strip, is_empty}

pub record WorldCommandIdempotency : Type 0 where
  pub id : ℕ
  pub scope : String
  pub idempotency_key : String
  pub request_hash : String
  pub status : String
  pub event_id : Option ℕ
  pub response_json : Option String

pub record KeyTable : Type 0 where
  pub rows : List WorldCommandIdempotency
  pub next_id : ℕ

pub data KeyError : Type 0 where
  empty_scope empty_key empty_status key_conflict : KeyError

pub data Reservation : Type 0 where
  refused : KeyError → Reservation
  reserved : WorldCommandIdempotency → Bool → Reservation

-- the `where` of the query
abbrev pub has_key : String → String → WorldCommandIdempotency → Bool
has_key scope key row = (row.scope == scope) && (row.idempotency_key == key)

abbrev pub pending_row : ℕ → String → String → String → WorldCommandIdempotency
pending_row i scope key hash = record {
  id = i;
  scope = scope;
  idempotency_key = key;
  request_hash = hash;
  status = "pending";
  event_id = none;
  response_json = none;
}

-- `reserve_idempotency_key`, behind the normalization; `hash` is that of the request's payload
unfoldable pub reserve : String → String → String → KeyTable → Reservation × KeyTable
reserve scope key hash t = elim (first_where (has_key scope key) t.rows) [
  | some row ↦ (if row.request_hash == hash then reserved row false else refused key_conflict, t)
  | none ↦
      let row = pending_row t.next_id scope key hash in
      (reserved row true, record { rows = t.rows ++ row ∷ []; next_id = t.next_id + 1 })
]

unfoldable pub reserve_idempotency_key :
    (String → String) → String → String → String → KeyTable → Reservation × KeyTable
reserve_idempotency_key stable_json_hash scope key payload t =
    if is_empty (strip scope)
    then (refused empty_scope, t)
    else if is_empty (strip key)
    then (refused empty_key, t)
    else reserve (strip scope) (strip key) (stable_json_hash payload) t

-- the columns that `finalize_idempotency_key` sets
unfoldable pub finalize_idempotency_key :
    ℕ → String → Option String → Option ℕ → KeyTable → Option KeyError × KeyTable
finalize_idempotency_key row_id status response event t =
    if is_empty (strip status) then (some empty_status, t) else (
      none,
      record t {
        rows =
            update_where (λ (r : WorldCommandIdempotency). r.id == row_id)
              (λ (r : WorldCommandIdempotency). record r {
                status = strip status;
                response_json = response;
                event_id = event;
              })
              t.rows;
      },
    )

-- No scope and key have two rows: the unique constraint of the table.
abbrev pub IsUnique : KeyTable → Type 0
IsUnique t = (scope key : String) → count_where (has_key scope key) t.rows ≤ 1

first_where-append_one :
    (p : WorldCommandIdempotency → Bool) (rows : List WorldCommandIdempotency)
    (row : WorldCommandIdempotency)
    → first_where p rows ≡ none
    → p row ≡ true
    → first_where p (rows ++ row ∷ []) ≡ some row
first_where-append_one p [] row h q = rw q
first_where-append_one p (x ∷ rows) row h q = ground (arith, first_where-append_one p rows row)

has_key-pending_row :
    (i : ℕ) (scope key hash : String) → has_key scope key (pending_row i scope key hash) ≡ true
has_key-pending_row i scope key hash =
    rw ((string_eq_iff scope scope).1 refl) (rw ((string_eq_iff key key).1 refl))

-- The reservation is idempotent: what a reservation has found or made, a second one with the same
-- payload finds again, as a row that it has not created, and it changes nothing.
pub reserve_again :
    (scope key hash : String) (t : KeyTable) {row : WorldCommandIdempotency} {created : Bool}
    → (reserve scope key hash t).0 ≡ reserved row created
    → let t' = (reserve scope key hash t).1 in reserve scope key hash t' ≡ (reserved row false, t')
unfolding reserve
reserve_again scope key hash t {row} {created} h =
    elim (Option-cases (first_where (has_key scope key) t.rows)) [
      | inr (old, found) ↦ ground arith
      | inl fresh ↦
          let new = pending_row t.next_id scope key hash in
          ground (
            arith,
            first_where-append_one (has_key scope key) t.rows new fresh
                (has_key-pending_row t.next_id scope key hash),
            string_eq_iff hash hash,
          )
    ]

-- A key that is reserved with one payload refuses every payload of another hash, and keeps its row.
pub reserve_conflict :
    (scope key hash hash' : String) (t : KeyTable) {row : WorldCommandIdempotency} {created : Bool}
    → (reserve scope key hash t).0 ≡ reserved row created
    → hash ≢ hash'
    → let t' = (reserve scope key hash t).1 in
      reserve scope key hash' t' ≡ (refused key_conflict, t')
unfolding reserve
reserve_conflict scope key hash hash' t {row} {created} h ne =
    elim (Option-cases (first_where (has_key scope key) t.rows)) [
      | inr (old, found) ↦
          ground (arith, string_eq_iff old.request_hash hash, string_eq_iff old.request_hash hash')
      | inl fresh ↦
          let new = pending_row t.next_id scope key hash in
          ground (
            arith,
            first_where-append_one (has_key scope key) t.rows new fresh
                (has_key-pending_row t.next_id scope key hash),
            string_eq_iff hash hash',
          )
    ]

none_counted :
    (p : WorldCommandIdempotency → Bool) (rows : List WorldCommandIdempotency)
    → first_where p rows ≡ none
    → count_where p rows ≡ 0
none_counted p [] h = refl
none_counted p (x ∷ rows) h = ground (arith, none_counted p rows)

same_key :
    (i : ℕ) (scope key hash s k : String)
    → has_key s k (pending_row i scope key hash) ≡ true
    → (scope ≡ s) × (key ≡ k)
same_key i scope key hash s k h = ground (arith, string_eq_iff scope s, string_eq_iff key k)

new_row-IsUnique :
    (t : KeyTable) (scope key hash : String)
    → IsUnique t
    → first_where (has_key scope key) t.rows ≡ none
    → IsUnique (record {
      rows = t.rows ++ pending_row t.next_id scope key hash ∷ [];
      next_id = t.next_id + 1;
    })
new_row-IsUnique t scope key hash h fresh s k =
    let new = pending_row t.next_id scope key hash in
    let sum = count_where-append (has_key s k) t.rows (new ∷ []) in
    elim (Bool-cases (has_key s k new)) [
      | inr other ↦ rw sum (rw other (omega (arith, h s k)))
      | inl same ↦
          let (es, ek) = same_key t.next_id scope key hash s k same in
          let none_yet : count_where (has_key s k) t.rows ≡ 0 =
            rw (← es, ← ek) (none_counted (has_key scope key) t.rows fresh) in
          rw sum (rw same (omega (arith, none_yet)))
    ]

reserve-IsUnique :
    (t : KeyTable) (scope key hash : String) → IsUnique t → IsUnique (reserve scope key hash t).1
unfolding reserve
reserve-IsUnique t scope key hash h s k =
    elim (Option-cases (first_where (has_key scope key) t.rows)) [
      | inl fresh ↦ rw (fresh, reserve) (new_row-IsUnique t scope key hash h fresh s k)
      | inr (old, found) ↦ rw (found, reserve) (h s k)
    ]

-- A reservation keeps the scope and the key of a row unique.
pub reserve_idempotency_key-IsUnique :
    (hash_of : String → String) (scope key payload : String) (t : KeyTable)
    → IsUnique t
    → IsUnique (reserve_idempotency_key hash_of scope key payload t).1
unfolding reserve_idempotency_key
reserve_idempotency_key-IsUnique hash_of scope key payload t h s k =
    elim (Bool-cases (is_empty (strip scope))) [
      | inl e ↦ rw e (h s k)
      | inr _ ↦ elim (Bool-cases (is_empty (strip key))) [
        | inl e ↦ ground (arith, h s k)
        | inr _ ↦
            ground
              (arith, h s k, reserve-IsUnique t (strip scope) (strip key) (hash_of payload) h s k)
      ]
    ]
