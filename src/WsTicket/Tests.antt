-- ===== src/WsTicket/Tests.antt =====
-- Runs of the websocket tickets at concrete inputs; the hash is the identity.
use game_gardens_of_karaxas.Base.{
  ◌≡◌, refl, none, [], ◌∷◌, nat_equality, string_equality, pair_equality, option_equality, micros,
}
use game_gardens_of_karaxas.Base.Text.{strip, lstrip, rstrip, is_space}
use game_gardens_of_karaxas.WsTicket.{
  WsConnectionTicket, ticket_text, split_dot, issue_ws_ticket, opened, ticket_error, consume_row,
  consume_parts, consume_ws_ticket, purge_expired_ws_tickets,
}
use game_gardens_of_karaxas.WsTicket.Use.{issue_consume, consumed_once}

abbrev ticket : WsConnectionTicket
ticket = record {
  id = "ab";
  user_id = 1;
  session_id = "s";
  secret_hash = "cd";
  expires_at = micros 45;
  consumed_at = none;
}

issue_consume_example :
    (let (text, _, rows) = issue_ws_ticket (λ s. s) "ab" "cd" 0 1 "s" 45 [] in
      (consume_ws_ticket (λ s. s) (micros 44) text rows).0 ≡ opened 1 "s")
unfolding strip lstrip rstrip is_space ticket_text
issue_consume_example =
    issue_consume (λ s. s) "ab" "cd" 0 (micros 44) 1 "s" 45 [] refl refl refl refl refl refl

opens_once : (consume_ws_ticket (λ s. s) 7 "ab.cd" (ticket ∷ [])).0 ≡ opened 1 "s"
unfolding consume_ws_ticket consume_parts consume_row split_dot strip lstrip rstrip is_space
opens_once = refl

consumed_once_example :
    (let after = (consume_ws_ticket (λ s. s) 7 "ab.cd" (ticket ∷ [])).1 in
      consume_ws_ticket (λ s. s) 8 "ab.cd" after ≡ (ticket_error "ticket_consumed", after))
consumed_once_example = consumed_once (λ s. s) 7 8 "ab.cd" (ticket ∷ []) 1 "s" opens_once

purged : purge_expired_ws_tickets (micros 46) (ticket ∷ []) ≡ (1, [])
unfolding purge_expired_ws_tickets
purged = refl
