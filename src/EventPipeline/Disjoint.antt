-- ===== src/EventPipeline/Disjoint.antt =====
-- event_pipeline.py: two claims of the outbox, and what happens between them.
use game_gardens_of_karaxas.Base.{
  ℕ, String, ◌≡◌, inl, inr, refl, sym, ap, ◌∙◌, Bool, true, false, ◌&&◌, List, [], ◌∷◌, map, arith,
  nat_equality, string_equality, pair_equality, option_equality, Bool-cases, Option-cases, All,
  select, update_where, any_where, take, ◌==◌, ◌<◌, is_none, All-append,
}
use game_gardens_of_karaxas.Base.Text.{strip_or}
use game_gardens_of_karaxas.Base.Int.{ℤ}
use game_gardens_of_karaxas.EventPipeline.Outbox.{
  WorldOutbox, OutboxTable, is_claimable, lock_row, safe_limit, has_row, claim_outbox_batch,
  enqueue_outbox_message, process_row, mark_outbox_processed, outbox_row, mark_outbox_retry,
  retry_row,
}
use game_gardens_of_karaxas.EventPipeline.Claims.{
  All-take, All-select, All-mono, returned, OutboxOp, enqueue, claim, processed, retry, run_op,
  run_ops,
}

-- the operation puts a row of some rows back
abbrev pub releases : List WorldOutbox → OutboxOp → Bool
releases rows (enqueue _ _) = false
releases rows (claim _ _ _) = false
releases rows (processed _ _) = false
releases rows (retry i _ _ _) = has_row i rows

-- a row with the id of a claimed one is locked or processed
abbrev IsHeldRow : List WorldOutbox → WorldOutbox → Type 0
IsHeldRow claimed r =
    has_row r.id claimed ≡ true → (is_none r.processed_at && is_none r.locked_at) ≡ false

record IsHeld (claimed : List WorldOutbox) (t : OutboxTable) : Type 0 where
  rows : All (IsHeldRow claimed) t.rows
  given_out : All (λ r. r.id < t.next_id) claimed

below_has_row :
    (n : ℕ) (claimed : List WorldOutbox) → All (λ r. r.id < n) claimed → has_row n claimed ≡ false
below_has_row n [] h = refl
below_has_row n (r ∷ claimed) (first, others) =
    ground (arith, first, below_has_row n claimed others)

held_update :
    (claimed : List WorldOutbox) (p : WorldOutbox → Bool) (f : WorldOutbox → WorldOutbox)
    (rows : List WorldOutbox)
    → ((r : WorldOutbox) → p r ≡ true → IsHeldRow claimed r → IsHeldRow claimed (f r))
    → All (IsHeldRow claimed) rows
    → All (IsHeldRow claimed) (update_where p f rows)
held_update claimed p f [] keep h = tt
held_update claimed p f (r ∷ rows) keep h = (
  elim (Bool-cases (p r)) [ inl hit ↦ rw hit (keep r hit h.0) | inr miss ↦ rw miss h.0 ],
  held_update claimed p f rows keep h.1,
)

run_op-IsHeld :
    (claimed : List WorldOutbox) (op : OutboxOp) (t : OutboxTable)
    → releases claimed op ≡ false
    → IsHeld claimed t
    → IsHeld claimed (run_op op t)
unfolding run_op enqueue_outbox_message claim_outbox_batch mark_outbox_processed mark_outbox_retry
    lock_row process_row retry_row
run_op-IsHeld claimed (enqueue now r) t quiet h =
    let new = below_has_row t.next_id claimed h.given_out in
    record {
      rows = All-append _ t.rows _ h.rows (λ e. absurd (ground (arith, new, e)), tt);
      given_out =
          All-mono (λ r. r.id < t.next_id) _ claimed (λ r le. omega (arith, le)) h.given_out;
    }
run_op-IsHeld claimed (claim worker limit now) t quiet h = record {
  rows =
      held_update claimed
        (λ r. has_row r.id (take (safe_limit limit) (select (is_claimable now) t.rows)))
        (lock_row now (strip_or worker "worker")) t.rows (λ r hit d e. ground arith) h.rows;
  given_out = h.given_out;
}
run_op-IsHeld claimed (processed k at) t quiet h = elim (Option-cases (outbox_row k t.rows)) [
  | inl missing ↦ rw (missing, run_op, mark_outbox_processed) h
  | inr (row, found) ↦
      rw (found, run_op, mark_outbox_processed)
        (record {
          rows =
              held_update claimed (λ r. r.id == k) (process_row at) t.rows (λ r hit d e. refl)
                h.rows;
          given_out = h.given_out;
        })
]
run_op-IsHeld claimed (retry k delay error at) t quiet h =
    elim (Option-cases (outbox_row k t.rows)) [
      | inl missing ↦ rw (missing, run_op, mark_outbox_retry) h
      | inr (row, found) ↦
          rw (found, run_op, mark_outbox_retry)
            (record {
              rows =
                  held_update claimed (λ r. r.id == k) (retry_row delay error at) t.rows
                    (λ r hit d e.
                      let named : r.id ≡ k = ground (arith, hit) in
                      absurd (ground (arith, quiet, ap (λ i. has_row i claimed) named, e)))
                    h.rows;
              given_out = h.given_out;
            })
    ]

run_ops-IsHeld :
    (claimed : List WorldOutbox) (ops : List OutboxOp) (t : OutboxTable)
    → any_where (releases claimed) ops ≡ false
    → IsHeld claimed t
    → IsHeld claimed (run_ops ops t)
unfolding run_ops
run_ops-IsHeld claimed [] t quiet h = h
run_ops-IsHeld claimed (op ∷ ops) t quiet h =
    run_ops-IsHeld claimed ops (run_op op t) (ground (arith, quiet))
      (run_op-IsHeld claimed op t (ground (arith, quiet)) h)

-- the rows that a claim has locked are held
locked_rows :
    (chosen : List WorldOutbox) (worker : String) (now : ℕ) (rows : List WorldOutbox)
    → All
        (IsHeldRow chosen)
        (update_where (λ (r : WorldOutbox). has_row r.id chosen) (lock_row now worker) rows)
unfolding lock_row
locked_rows chosen worker now [] = tt
locked_rows chosen worker now (r ∷ rows) = (
  elim (Bool-cases (has_row r.id chosen)) [
    | inl hit ↦ λ e. ground arith
    | inr miss ↦ λ e. absurd (ground arith)
  ],
  locked_rows chosen worker now rows,
)

has_row-map_lock :
    (i now : ℕ) (worker : String) (rows : List WorldOutbox)
    → has_row i (map (lock_row now worker) rows) ≡ has_row i rows
unfolding lock_row
has_row-map_lock i now worker [] = refl
has_row-map_lock i now worker (r ∷ rows) = rw (has_row-map_lock i now worker rows)

below_map_lock :
    (n now : ℕ) (worker : String) (rows : List WorldOutbox)
    → All (λ r. r.id < n) rows
    → All (λ r. r.id < n) (map (lock_row now worker) rows)
unfolding lock_row
below_map_lock n now worker [] h = tt
below_map_lock n now worker (r ∷ rows) (first, others) =
    (first, below_map_lock n now worker rows others)

claim-IsHeld :
    (w : String) (limit : ℤ) (now : ℕ) (t : OutboxTable)
    → All (λ r. r.id < t.next_id) t.rows
    → IsHeld (claim_outbox_batch w limit now t).0 (claim_outbox_batch w limit now t).1
unfolding claim_outbox_batch
claim-IsHeld w limit now t fresh =
    let chosen = take (safe_limit limit) (select (is_claimable now) t.rows) in
    let worker = strip_or w "worker" in
    let below =
      All-take (λ r. r.id < t.next_id) (safe_limit limit) (select (is_claimable now) t.rows)
        (All-select (λ r. r.id < t.next_id) (is_claimable now) t.rows
          (All-mono (λ r. r.id < t.next_id) _ t.rows (λ r h due. h) fresh)) in
    record {
      rows =
          All-mono (IsHeldRow chosen) _ _
            (λ r h e. h (sym (has_row-map_lock r.id now worker chosen) ∙ e))
            (locked_rows chosen worker now t.rows);
      given_out = below_map_lock t.next_id now worker chosen below;
    }

held_not_claimable :
    (claimed : List WorldOutbox) (now : ℕ) (r : WorldOutbox)
    → IsHeldRow claimed r
    → is_claimable now r ≡ true
    → has_row r.id claimed ≡ false
unfolding is_claimable
held_not_claimable claimed now r h due = elim (Bool-cases (has_row r.id claimed)) [
  | inl there ↦ absurd (ground (arith, h there, due))
  | inr gone ↦ gone
]

-- Two claims, of any workers at any times, share no row, whatever is enqueued, claimed, marked as
-- processed or retried between them, as long as no row of the first claim is retried. The ids of the
-- table's rows have been given out.
pub claims_disjoint :
    (w w' : String) (limit limit' : ℤ) (now later : ℕ) (ops : List OutboxOp) (t : OutboxTable)
    → All (λ r. r.id < t.next_id) t.rows
    → any_where (releases (claim_outbox_batch w limit now t).0) ops ≡ false
    → let (first, t') = claim_outbox_batch w limit now t in
      All
        (λ (r : WorldOutbox). has_row r.id first ≡ false)
        (claim_outbox_batch w' limit' later (run_ops ops t')).0
claims_disjoint w w' limit limit' now later ops t fresh quiet =
    let first = (claim_outbox_batch w limit now t).0 in
    let between = run_ops ops (claim_outbox_batch w limit now t).1 in
    let held =
      run_ops-IsHeld first ops (claim_outbox_batch w limit now t).1 quiet
        (claim-IsHeld w limit now t fresh) in
    returned (λ r. has_row r.id first ≡ false) w' limit' later between
      (unfold lock_row in λ at v r h. h)
      (All-mono (IsHeldRow first) _ between.rows (held_not_claimable first later) held.rows)
