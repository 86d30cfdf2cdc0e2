-- ===== src/WsTicket/Use.antt =====
-- A ticket opens one connection: the round trip from its issue to its use, and no second use.
use game_gardens_of_karaxas.Base.{
  ℕ, ◌+◌, max, String, ◌≡◌, inl, inr, refl, sym, ap, ◌∙◌, Bool, true, false, ◌||◌, Option, none,
  some, List, [], ◌∷◌, ◌++◌, arith, leb, string_eq_iff, ◌==◌, nat_equality, string_equality,
  pair_equality, option_equality, if◌then◌else◌, Bool-cases, Option-cases, update_where,
  first_where_sound, micros, first_where_last,
}
use Prim.Native.Char.{code}
use game_gardens_of_karaxas.Base.Text.{strip, is_empty}
use game_gardens_of_karaxas.WsTicket.{
  WsConnectionTicket, ticket_text, split_dot, issue_ws_ticket, opened, ticket_error, ticket_by_id,
  consume_row, consume_parts, consume_ws_ticket,
}

abbrev pub has_dot : String → Bool
has_dot String.[] = false
has_dot (String.◌∷◌ c s) = if code c == b'.' then true else has_dot s

split_dot-ticket_text :
    (ticket_id secret : String)
    → has_dot ticket_id ≡ false
    → split_dot (ticket_text ticket_id secret) ≡ some (ticket_id, secret)
unfolding split_dot ticket_text
split_dot-ticket_text String.[] secret h = refl
split_dot-ticket_text (String.◌∷◌ c s) secret h = elim (Bool-cases (code c == b'.')) [
  | inl hit ↦ absurd (ground (arith, hit, h))
  | inr miss ↦
      let rest = split_dot-ticket_text s secret (ground (arith, miss, h)) in rw miss (rw rest refl)
]

-- A ticket that is issued and presented before it expires opens a connection for its user and session.
-- The id is new, and the generated id and secret are not empty, have no space at the ends and, the id,
-- no dot.
pub issue_consume :
    (hash : String → String) (ticket_id secret : String) (issued now user : ℕ) (session : String)
    (ttl : ℕ) (rows : List WsConnectionTicket)
    → is_empty ticket_id ≡ false
    → is_empty secret ≡ false
    → has_dot ticket_id ≡ false
    → strip (ticket_text ticket_id secret) ≡ ticket_text ticket_id secret
    → ticket_by_id ticket_id rows ≡ none
    → leb (issued + micros (max 10 ttl)) now ≡ false
    → (let (text, _, rows') = issue_ws_ticket hash ticket_id secret issued user session ttl rows in
        (consume_ws_ticket hash now text rows').0 ≡ opened user session)
unfolding issue_ws_ticket
issue_consume hash ticket_id secret issued now user session ttl rows id_given secret_given no_dot
      plain fresh early =
    let row : WsConnectionTicket = record {
      id = ticket_id;
      user_id = user;
      session_id = session;
      secret_hash = hash secret;
      expires_at = issued + micros (max 10 ttl);
      consumed_at = none;
    } in
    let named : (ticket_id == ticket_id) ≡ true = (string_eq_iff ticket_id ticket_id).1 refl in
    let found : ticket_by_id ticket_id (rows ++ row ∷ []) ≡ some row =
      first_where_last (λ (t : WsConnectionTicket). t.id == ticket_id) rows row fresh named in
    let hashed : (hash secret == hash secret) ≡ true =
      (string_eq_iff (hash secret) (hash secret)).1 refl in
    let opens : (consume_row hash secret now row (rows ++ row ∷ [])).0 ≡ opened user session =
      unfold consume_row in rw (early, hashed, consume_row) refl in
    unfold consume_ws_ticket consume_parts in
    rw (plain, split_dot-ticket_text ticket_id secret no_dot, consume_ws_ticket, consume_parts)
      (rw (id_given, secret_given) (rw found opens))

ticket_replaced :
    (i : String) (b : WsConnectionTicket) (rows : List WsConnectionTicket) (a : WsConnectionTicket)
    → ticket_by_id i rows ≡ some a
    → (b.id == i) ≡ true
    → ticket_by_id i (update_where (λ (t : WsConnectionTicket). t.id == i) (λ _. b) rows) ≡ some b
ticket_replaced i b [] a h e = ground arith
ticket_replaced i b (r ∷ rows) a h e = ground (arith, ticket_replaced i b rows a)

used_row :
    (hash : String → String) (secret : String) (now : ℕ) (row : WsConnectionTicket)
    (rows : List WsConnectionTicket) (user : ℕ) (session : String)
    → (consume_row hash secret now row rows).0 ≡ opened user session
    → (consume_row hash secret now row rows).1
      ≡ update_where
          (λ (t : WsConnectionTicket). t.id == row.id)
          (λ _. record row { consumed_at = some now })
          rows
unfolding consume_row
used_row hash secret now row rows user session h = ground (arith, h)

parts_used_once :
    (hash : String → String) (now later : ℕ) (parts : Option (String × String))
    (rows : List WsConnectionTicket) (user : ℕ) (session : String)
    → (consume_parts hash now parts rows).0 ≡ opened user session
    → (let after = (consume_parts hash now parts rows).1 in
        consume_parts hash later parts after ≡ (ticket_error "ticket_consumed", after))
parts_used_once hash now later none rows user session h =
    absurd (unfold consume_parts in ground (arith, h))
parts_used_once hash now later (some (i, secret)) rows user session h =
    elim (Bool-cases (is_empty i || is_empty secret)) [
      | inl bad ↦
          let failed : (consume_parts hash now (some (i, secret)) rows).0
              ≡ ticket_error "invalid_ticket" =
            unfold consume_parts in rw (bad, consume_parts) refl in
          absurd (ground (arith, h, failed))
      | inr fine ↦ elim (Option-cases (ticket_by_id i rows)) [
        | inl nobody ↦
            let failed : (consume_parts hash now (some (i, secret)) rows).0
                ≡ ticket_error "invalid_ticket" =
              unfold consume_parts in rw (fine, nobody, consume_parts) refl in
            absurd (ground (arith, h, failed))
        | inr (row, found) ↦
            let used : WsConnectionTicket = record row { consumed_at = some now } in
            let step : consume_parts hash now (some (i, secret)) rows
                ≡ consume_row hash secret now row rows =
              unfold consume_parts in rw (fine, found, consume_parts) refl in
            let its_id : row.id ≡ i =
              (string_eq_iff row.id i).0
                (first_where_sound (λ (t : WsConnectionTicket). t.id == i) rows row found) in
            let written =
              used_row hash secret now row rows user session (ap (λ r. r.0) (sym step) ∙ h) in
            let rows' = update_where (λ (t : WsConnectionTicket). t.id == i) (λ _. used) rows in
            let stored : (consume_parts hash now (some (i, secret)) rows).1 ≡ rows' =
              ap (λ r. r.1) step
              ∙ (written
                  ∙ ap (λ k. update_where (λ (t : WsConnectionTicket). t.id == k) (λ _. used) rows)
                      its_id) in
            let found' : ticket_by_id i rows' ≡ some used =
              ticket_replaced i used rows row found ((string_eq_iff row.id i).1 its_id) in
            let again : consume_parts hash later (some (i, secret)) rows'
                ≡ (ticket_error "ticket_consumed", rows') =
              unfold consume_parts consume_row in rw (fine, found', consume_parts) refl in
            rw stored again
      ]
    ]

-- A text that has opened a connection opens none again, at any time: it is refused as consumed, and the
-- table stays as it is.
pub consumed_once :
    (hash : String → String) (now later : ℕ) (raw : String) (rows : List WsConnectionTicket)
    (user : ℕ) (session : String)
    → (consume_ws_ticket hash now raw rows).0 ≡ opened user session
    → (let after = (consume_ws_ticket hash now raw rows).1 in
        consume_ws_ticket hash later raw after ≡ (ticket_error "ticket_consumed", after))
consumed_once hash now later raw rows user session h =
    unfold consume_ws_ticket in
    parts_used_once hash now later (split_dot (strip raw)) rows user session h
