-- ===== src/EventPipeline/Claims.antt =====
-- Who gets a row of the outbox, and when it is given out no more.
use game_gardens_of_karaxas.Base.{
  ℕ, zero, suc, ◌≤◌, String, ◌≡◌, inl, inr, refl, Bool, true, false, none, List, [], ◌∷◌, map,
  arith, nat_equality, string_equality, pair_equality, option_equality, Bool-cases, length, All,
  select, update_where, take, length-take-le, some, ◌==◌, ◌<◌, is_none, first_where_sound,
  All-first_where, All-append, Option-cases,
}
use game_gardens_of_karaxas.Base.Text.{strip_or}
use game_gardens_of_karaxas.Base.Int.{ℤ}
use game_gardens_of_karaxas.EventPipeline.Outbox.{
  WorldOutbox, OutboxTable, is_claimable, lock_row, safe_limit, has_row, claim_outbox_batch,
  enqueue_outbox_message, process_row, mark_outbox_processed, OutboxRequest, outbox_row,
  mark_outbox_retry, retry_row,
}

All-map {ℓ} :
    {A B : Type ℓ} (P : B → Type 0) (f : A → B) (xs : List A)
    → All (λ x. P (f x)) xs
    → All P (map f xs)
All-map P f [] h = tt
All-map P f (x ∷ xs) h = (h.0, All-map P f xs h.1)

pub All-take {ℓ} :
    {A : Type ℓ} (P : A → Type 0) (n : ℕ) (xs : List A) → All P xs → All P (take n xs)
All-take P zero xs h = tt
All-take P (suc n) [] h = tt
All-take P (suc n) (x ∷ xs) h = (h.0, All-take P n xs h.1)

pub All-select {ℓ} :
    {A : Type ℓ} (P : A → Type 0) (p : A → Bool) (xs : List A)
    → All (λ x. (p x ≡ true) → P x) xs
    → All P (select p xs)
All-select P p [] h = tt
All-select P p (x ∷ xs) h = elim (Bool-cases (p x)) [
  | inl hit ↦ rw hit (h.0 hit, All-select P p xs h.1)
  | inr miss ↦ rw miss (All-select P p xs h.1)
]

All-always {ℓ} : {A : Type ℓ} (P : A → Type 0) (xs : List A) → ((x : A) → P x) → All P xs
All-always P [] h = tt
All-always P (x ∷ xs) h = (h x, All-always P xs h)

pub All-mono {ℓ} :
    {A : Type ℓ} (P Q : A → Type 0) (xs : List A) → ((x : A) → P x → Q x) → All P xs → All Q xs
All-mono P Q [] f h = tt
All-mono P Q (x ∷ xs) f h = (f x h.0, All-mono P Q xs f h.1)

length-map {ℓ} : {A B : Type ℓ} (f : A → B) (xs : List A) → length (map f xs) ≡ length xs
length-map f [] = refl
length-map f (x ∷ xs) = omega (arith, length-map f xs)

-- A property of every claimable row holds of every row that a claim returns, if a lock keeps it.
pub returned :
    (P : WorldOutbox → Type 0) (worker : String) (limit : ℤ) (now : ℕ) (t : OutboxTable)
    → ((at : ℕ) (w : String) (r : WorldOutbox) → P r → P (lock_row at w r))
    → All (λ r. (is_claimable now r ≡ true) → P r) t.rows
    → All P (claim_outbox_batch worker limit now t).0
unfolding claim_outbox_batch
returned P worker limit now t keep h =
    let lock = lock_row now (strip_or worker "worker") in
    let picked = All-take P (safe_limit limit) _ (All-select P (is_claimable now) t.rows h) in
    All-map P lock _
      (All-mono P (λ r. P (lock r)) _ (λ r. keep now (strip_or worker "worker") r) picked)

abbrev pub IsClaimed : String → ℕ → WorldOutbox → Type 0
IsClaimed worker now r =
    (r.processed_at ≡ none)
    × (r.locked_by ≡ some (strip_or worker "worker"))
    × (r.locked_at ≡ some now)
    × (1 ≤ r.attempt_count)
    × (r.next_attempt_at ≤ now)

IsClaimed-lock :
    (worker : String) (now : ℕ) (r : WorldOutbox)
    → is_claimable now r ≡ true
    → IsClaimed worker now (lock_row now (strip_or worker "worker") r)
unfolding is_claimable lock_row
IsClaimed-lock worker now r h = ground arith

-- Every row that a claim returns is unprocessed and due, and is now locked by the worker, at the time
-- of the claim and with one more attempt; and there are at most max(1, min(limit, 500)) of them.
pub claim_locks :
    (worker : String) (limit : ℤ) (now : ℕ) (t : OutboxTable)
    → All (IsClaimed worker now) (claim_outbox_batch worker limit now t).0
      × (length (claim_outbox_batch worker limit now t).0 ≤ safe_limit limit)
unfolding claim_outbox_batch
claim_locks worker limit now t =
    let lock = lock_row now (strip_or worker "worker") in
    let due = select (is_claimable now) t.rows in
    (
      All-map (IsClaimed worker now) lock _ (
          All-take _ (safe_limit limit) due (
            All-select _ (is_claimable now) t.rows
              (All-always _ t.rows (IsClaimed-lock worker now)))),
      rw length-map (length-take-le (safe_limit limit) due),
    )

-- What the callers of the outbox do.
pub data OutboxOp : Type 0 where
  enqueue : ℕ → OutboxRequest → OutboxOp
  claim : String → ℤ → ℕ → OutboxOp
  processed : ℕ → ℕ → OutboxOp
  retry : ℕ → ℤ → String → ℕ → OutboxOp

unfoldable pub run_op : OutboxOp → OutboxTable → OutboxTable
run_op (enqueue now r) t = (enqueue_outbox_message now r t).1
run_op (claim worker limit now) t = (claim_outbox_batch worker limit now t).1
run_op (processed i at) t = (mark_outbox_processed i at t).1
run_op (retry i delay e at) t = (mark_outbox_retry i delay e at t).1

unfoldable pub run_ops : List OutboxOp → OutboxTable → OutboxTable
run_ops [] t = t
run_ops (op ∷ ops) t = run_ops ops (run_op op t)

abbrev IsDoneRow : ℕ → WorldOutbox → Type 0
IsDoneRow i r = (r.id == i) ≡ true → is_none r.processed_at ≡ false

-- the id was given out, and its row is processed
record IsDone (i : ℕ) (t : OutboxTable) : Type 0 where
  rows : All (IsDoneRow i) t.rows
  given_out : i < t.next_id

done_update :
    (i : ℕ) (p : WorldOutbox → Bool) (f : WorldOutbox → WorldOutbox) (rows : List WorldOutbox)
    → ((r : WorldOutbox) → IsDoneRow i r → IsDoneRow i (f r))
    → All (IsDoneRow i) rows
    → All (IsDoneRow i) (update_where p f rows)
done_update i p f [] keep h = tt
done_update i p f (r ∷ rows) keep h = (
  elim (Bool-cases (p r)) [ inl hit ↦ rw hit (keep r h.0) | inr miss ↦ rw miss h.0 ],
  done_update i p f rows keep h.1,
)

run_op-IsDone : (i : ℕ) (op : OutboxOp) (t : OutboxTable) → IsDone i t → IsDone i (run_op op t)
unfolding run_op enqueue_outbox_message claim_outbox_batch mark_outbox_processed mark_outbox_retry
    lock_row process_row retry_row
run_op-IsDone i (enqueue now r) t h = record {
  rows = All-append _ t.rows _ h.rows (λ e. absurd (ground (arith, h.given_out)), tt);
  given_out = omega (arith, h.given_out);
}
run_op-IsDone i (claim worker limit now) t h = record {
  rows =
      done_update i (λ r. has_row r.id (take (safe_limit limit) (select (is_claimable now) t.rows)))
        (lock_row now (strip_or worker "worker")) t.rows (λ r d. d) h.rows;
  given_out = h.given_out;
}
run_op-IsDone i (processed k at) t h = elim (Option-cases (outbox_row k t.rows)) [
  | inl missing ↦ rw (missing, run_op, mark_outbox_processed) h
  | inr (row, found) ↦
      rw (found, run_op, mark_outbox_processed)
        (record {
          rows = done_update i (λ r. r.id == k) (process_row at) t.rows (λ r d e. refl) h.rows;
          given_out = h.given_out;
        })
]
run_op-IsDone i (retry k delay e at) t h = elim (Option-cases (outbox_row k t.rows)) [
  | inl missing ↦ rw (missing, run_op, mark_outbox_retry) h
  | inr (row, found) ↦
      rw (found, run_op, mark_outbox_retry)
        (record {
          rows = done_update i (λ r. r.id == k) (retry_row delay e at) t.rows (λ r d. d) h.rows;
          given_out = h.given_out;
        })
]

run_ops-IsDone :
    (i : ℕ) (ops : List OutboxOp) (t : OutboxTable) → IsDone i t → IsDone i (run_ops ops t)
unfolding run_ops
run_ops-IsDone i [] t h = h
run_ops-IsDone i (op ∷ ops) t h = run_ops-IsDone i ops (run_op op t) (run_op-IsDone i op t h)

processed_rows :
    (i at : ℕ) (rows : List WorldOutbox)
    → All (IsDoneRow i) (update_where (λ (r : WorldOutbox). r.id == i) (process_row at) rows)
unfolding process_row
processed_rows i at [] = tt
processed_rows i at (r ∷ rows) = (λ e. ground arith, processed_rows i at rows)

processed-IsDone :
    (i at : ℕ) (t : OutboxTable) {row : WorldOutbox}
    → All (λ r. r.id < t.next_id) t.rows
    → outbox_row i t.rows ≡ some row
    → IsDone i (mark_outbox_processed i at t).1
unfolding mark_outbox_processed
processed-IsDone i at t {row} fresh found =
    let is_i = first_where_sound (λ (r : WorldOutbox). r.id == i) t.rows row found in
    let below = All-first_where (λ r. r.id < t.next_id) (λ r. r.id == i) t.rows row fresh found in
    rw (found, mark_outbox_processed)
      (record { rows = processed_rows i at t.rows; given_out = ground arith })

not_done_not_id :
    (now i : ℕ) (r : WorldOutbox) → IsDoneRow i r → is_claimable now r ≡ true → (r.id == i) ≡ false
unfolding is_claimable
not_done_not_id now i r d due = elim (Bool-cases (r.id == i)) [
  | inl same ↦ absurd (ground (arith, d same))
  | inr other ↦ other
]

-- A message that is marked as processed is final: whatever is enqueued, claimed, processed or retried
-- afterwards, its own retry included, no claim returns it again.
pub processed_is_final :
    (i at : ℕ) (ops : List OutboxOp) (worker : String) (limit : ℤ) (now : ℕ) (t : OutboxTable)
    (row : WorldOutbox)
    → All (λ r. r.id < t.next_id) t.rows
    → outbox_row i t.rows ≡ some row
    → let t' = run_ops ops (mark_outbox_processed i at t).1 in
      All (λ (r : WorldOutbox). (r.id == i) ≡ false) (claim_outbox_batch worker limit now t').0
processed_is_final i at ops worker limit now t row fresh found =
    let t' = run_ops ops (mark_outbox_processed i at t).1 in
    let h = run_ops-IsDone i ops _ (processed-IsDone i at t fresh found) in
    returned (λ r. (r.id == i) ≡ false) worker limit now t' (unfold lock_row in λ a w r d. d)
      (All-mono (IsDoneRow i) (λ r. (is_claimable now r ≡ true) → (r.id == i) ≡ false) t'.rows
        (λ r d due. not_done_not_id now i r d due) h.rows)
