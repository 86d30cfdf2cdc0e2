-- ===== src/AuthContext/Guards.antt =====
-- backend/app/api/deps.py: the guards of the routes for admins and for operators. `ops_api_token` is the
-- one of the settings.
use game_gardens_of_karaxas.Base.{
  String, Bool, false, not, ◌&&◌, Option, none, some, ◌==◌, nat_equality, string_equality,
  pair_equality, option_equality, if◌then◌else◌,
}
use game_gardens_of_karaxas.Base.Text.{is_empty}
use game_gardens_of_karaxas.Base.Validated.{Validated, accepted, denied_with}
use game_gardens_of_karaxas.Models.{User}

unfoldable pub require_admin_context : User → Validated User
require_admin_context user =
    if user.is_admin then accepted user else denied_with 403 "admin_required"

abbrev sent_token : String → Option String → Bool
sent_token ops_api_token none = false
sent_token ops_api_token (some token) = not (is_empty token) && (token == ops_api_token)

unfoldable pub require_ops_token : String → Option String → Validated (Unit {0})
require_ops_token ops_api_token token =
    if sent_token ops_api_token token then accepted tt else denied_with 401 "unauthorized"
