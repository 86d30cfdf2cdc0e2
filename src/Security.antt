-- ===== src/Security.antt =====
-- backend/app/services/security_events.py: the append-only log of security events, and its counts; and
-- backend/app/services/admin_audit.py, the log of what admins do.
-- The JSON text of a detail is the list of its fields here.
use game_gardens_of_karaxas.Base.{
  ℕ, ◌+◌, min, max, String, ◌||◌, Option, List, [], ◌∷◌, ◌++◌, ◌==◌, nat_equality, string_equality,
  pair_equality, option_equality, length, select, count_where, take,
}
use game_gardens_of_karaxas.Base.Text.{strip, strip_or, strip_or_none}
use game_gardens_of_karaxas.ReleasePolicy.Versions.{text_or}

pub data Detail : Type 0 where
  fields : List (String × String) → Detail
  plain : String → Detail

abbrev pub detail_text : Detail → Detail
detail_text (fields f) = fields f
detail_text (plain s) = plain (strip s)

pub record SecurityEvent : Type 0 where
  pub id : ℕ
  pub actor_user_id : Option ℕ
  pub session_id : Option String
  pub event_type : String
  pub severity : String
  pub ip_address : Option String
  pub detail : Detail

pub record EventArguments : Type 0 where
  pub event_type : String
  pub severity : String
  pub actor_user_id : Option ℕ
  pub session_id : Option String
  pub ip_address : Option String
  pub detail : Detail

-- `lower` is `str.lower`; the id of the row is the length of the log and one, since no row is deleted
unfoldable pub write_security_event :
    (String → String) → EventArguments → List SecurityEvent → List SecurityEvent
write_security_event lower e log =
    log
    ++ record {
      id = length log + 1;
      actor_user_id = e.actor_user_id;
      session_id = strip_or_none (text_or e.session_id "");
      event_type = strip_or e.event_type "unknown";
      severity = strip_or (lower (strip e.severity)) "info";
      ip_address = strip_or_none (text_or e.ip_address "");
      detail = detail_text e.detail;
    }
      ∷ []

abbrev pub reverse_onto : List SecurityEvent → List SecurityEvent → List SecurityEvent
reverse_onto [] done = done
reverse_onto (e ∷ es) done = reverse_onto es (e ∷ done)

-- the newest events first; `event_type` is the filter, empty for none
unfoldable pub list_security_events : ℕ → Option String → List SecurityEvent → List SecurityEvent
list_security_events limit event_type log =
    let wanted = strip (text_or event_type "") in
    take (max 1 (min limit 1000)) (
      reverse_onto (select (λ (e : SecurityEvent). (wanted == "") || (e.event_type == wanted)) log)
        [])

-- the counts of all, the critical and the warning events
unfoldable pub security_event_stats : List SecurityEvent → ℕ × ℕ × ℕ
security_event_stats log = (
  length log,
  count_where (λ (e : SecurityEvent). e.severity == "critical") log,
  count_where (λ (e : SecurityEvent). e.severity == "warning") log,
)

pub record AdminActionAudit : Type 0 where
  pub id : ℕ
  pub actor : String
  pub action : String
  pub target_type : String
  pub target_id : Option String
  pub summary : String

-- the arguments in the order of the function
unfoldable pub write_admin_audit :
    String
    → String
    → String
    → Option String
    → String
    → List AdminActionAudit
    → List AdminActionAudit
write_admin_audit actor action target_type target_id summary log =
    log
    ++ record {
      id = length log + 1;
      actor = strip_or actor "system";
      action = strip_or action "unknown";
      target_type = strip_or target_type "unknown";
      target_id = strip_or_none (text_or target_id "");
      summary = strip summary;
    }
      ∷ []
