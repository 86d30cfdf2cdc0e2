-- ===== src/WsTicket.antt =====
-- backend/app/services/ws_ticket.py: tickets that open a websocket once. The id and the secret are
-- generated by the standard library, and `hash` is hash_token of core/security.py (SHA-256); they are
-- arguments.
use game_gardens_of_karaxas.Base.{
  ℕ, zero, suc, ◌+◌, ◌-◌, ◌*◌, ◌/◌, ◌%◌, ◌≤◌, ◌<◌, min, max, String, ◌≡◌, ◌≢◌, ◌↔◌, ◌⊎◌, inl, inr,
  refl, sym, ap, ◌∙◌, Bool, true, false, not, ◌&&◌, ◌||◌, Option, none, some, List, [], ◌∷◌, ◌++◌,
  map, arith, ltb, leb, nat_eq_iff, string_eq_iff, Equality, ◌==◌, nat_equality, string_equality,
  pair_equality, option_equality, if◌then◌else◌, Bool-cases, Option-cases, is_none, or_default,
  length, All, first_where, select, count_where, update_where, any_where, take, length-append,
  length-take-le, count_where-append, length-select, All-append, first_where_sound, All-first_where,
  first_where-update, count_where-replace, micros, first_where-append, first_where_last,
  count_where-select-le, count_where-update, no_match_count, any_where-first_where, All-select,
  All-mono, All-update,
}
use Prim.Native.Char.{Char, code}
use Prim.Native.String.{char_at}
use game_gardens_of_karaxas.Base.Text.{strip, is_empty}
mod Use
mod Tests

pub record WsConnectionTicket : Type 0 where
  pub id : String
  pub user_id : ℕ
  pub session_id : String
  pub secret_hash : String
  pub expires_at : ℕ
  pub consumed_at : Option ℕ

abbrev pub dot : Char
dot = char_at "." 0

-- `f"{ticket_id}.{secret}"`
unfoldable pub ticket_text : String → String → String
ticket_text String.[] secret = String.◌∷◌ dot secret
ticket_text (String.◌∷◌ c s) secret = String.◌∷◌ c (ticket_text s secret)

abbrev pub with_char : Char → Option (String × String) → Option (String × String)
with_char c none = none
with_char c (some (front, back)) = some (String.◌∷◌ c front, back)

-- `token.split(".", 1)`, where there is a dot
unfoldable pub split_dot : String → Option (String × String)
split_dot String.[] = none
split_dot (String.◌∷◌ c s) =
    let rest = split_dot s in if code c == b'.' then some (String.[], s) else with_char c rest

-- the text for the client, the expiry and the table
unfoldable pub issue_ws_ticket :
    (String → String)
    → String
    → String
    → ℕ
    → ℕ
    → String
    → ℕ
    → List WsConnectionTicket
    → String × ℕ × List WsConnectionTicket
issue_ws_ticket hash ticket_id secret now user session ttl rows =
    let expiry = now + micros (max 10 ttl) in
    (
      ticket_text ticket_id secret,
      expiry,
      rows
          ++ record {
            id = ticket_id;
            user_id = user;
            session_id = session;
            secret_hash = hash secret;
            expires_at = expiry;
            consumed_at = none;
          }
            ∷ [],
    )

pub data TicketResult : Type 0 where
  opened : ℕ → String → TicketResult
  -- the message of the `WsTicketError`
  ticket_error : String → TicketResult

abbrev pub ticket_by_id : String → List WsConnectionTicket → Option WsConnectionTicket
ticket_by_id i = first_where (λ (t : WsConnectionTicket). t.id == i)

-- `consume_ws_ticket` with the row that is found
unfoldable pub consume_row :
    (String → String)
    → String
    → ℕ
    → WsConnectionTicket
    → List WsConnectionTicket
    → TicketResult × List WsConnectionTicket
consume_row hash secret now row rows =
    if not (is_none row.consumed_at)
    then (ticket_error "ticket_consumed", rows)
    else if leb row.expires_at now
    then (ticket_error "ticket_expired", rows)
    else if not (row.secret_hash == hash secret)
    then (ticket_error "invalid_ticket", rows)
    else (
      opened row.user_id row.session_id,
      update_where (λ (t : WsConnectionTicket). t.id == row.id)
          (λ _. record row { consumed_at = some now }) rows,
    )

-- `consume_ws_ticket` with the parts of the text
unfoldable pub consume_parts :
    (String → String)
    → ℕ
    → Option (String × String)
    → List WsConnectionTicket
    → TicketResult × List WsConnectionTicket
consume_parts hash now none rows = (ticket_error "invalid_ticket", rows)
consume_parts hash now (some (ticket_id, secret)) rows =
    let found : TicketResult × List WsConnectionTicket = elim (ticket_by_id ticket_id rows) [
      | none ↦ (ticket_error "invalid_ticket", rows)
      | some row ↦ consume_row hash secret now row rows
    ] in
    if is_empty ticket_id || is_empty secret then (ticket_error "invalid_ticket", rows) else found

unfoldable pub consume_ws_ticket :
    (String → String)
    → ℕ
    → String
    → List WsConnectionTicket
    → TicketResult × List WsConnectionTicket
consume_ws_ticket hash now raw rows = consume_parts hash now (split_dot (strip raw)) rows

abbrev pub is_stale : ℕ → WsConnectionTicket → Bool
is_stale now t = ltb t.expires_at now || not (is_none t.consumed_at)

-- the number of rows that are deleted, and the rows that are left
unfoldable pub purge_expired_ws_tickets : ℕ → List WsConnectionTicket → ℕ × List WsConnectionTicket
purge_expired_ws_tickets now rows = (
  count_where (is_stale now) rows,
  select (λ (t : WsConnectionTicket). not (is_stale now t)) rows,
)
