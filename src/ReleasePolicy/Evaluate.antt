-- ===== src/ReleasePolicy/Evaluate.antt =====
-- release_policy.py: `evaluate_version`, the decision on the versions that a client has.
use game_gardens_of_karaxas.Base.{
  ℕ, String, Bool, false, not, ◌&&◌, ◌||◌, Option, none, some, leb, ◌==◌, nat_equality,
  string_equality, pair_equality, option_equality,
}
use game_gardens_of_karaxas.Base.Text.{strip_or_none}
use game_gardens_of_karaxas.ReleasePolicy.Versions.{
  VersionLibrary, text_or, safe_version, normalize_content_key, ReleasePolicy,
}

pub record VersionDecision : Type 0 where
  pub client_version : String
  pub latest_version : String
  pub min_supported_version : String
  pub client_content_version_key : String
  pub latest_content_version_key : String
  pub min_supported_content_version_key : String
  pub update_feed_url : Option String
  pub enforce_after : Option ℕ
  pub update_available : Bool
  pub content_update_available : Bool
  pub force_update : Bool

-- `enforce_after is not None and now >= enforce_after`
abbrev pub is_enforced : ℕ → Option ℕ → Bool
is_enforced now none = false
is_enforced now (some after) = leb after now

-- `==` of two versions: neither is before the other
abbrev pub same_version : {Version : Type 0} → VersionLibrary Version → Version → Version → Bool
same_version lib a b = not (lib.before a b) && not (lib.before b a)

unfoldable pub evaluate_version :
    {Version : Type 0}
    → VersionLibrary Version
    → ℕ
    → ReleasePolicy
    → Option String
    → Option String
    → VersionDecision
evaluate_version lib now policy client_version client_content_version_key =
    let client_text = text_or client_version "0.0.0" in
    let client_key = normalize_content_key client_content_version_key in
    let latest = safe_version lib policy.latest_version in
    let minimum = safe_version lib policy.min_supported_version in
    let client = safe_version lib client_text in
    let latest_key = normalize_content_key (some policy.latest_content_version_key) in
    let min_key = normalize_content_key (some policy.min_supported_content_version_key) in
    let build_update =
      lib.before client latest && (same_version lib latest minimum || lib.before client minimum) in
    let content_update = not (client_key == latest_key) in
    let behind = lib.before client minimum || not (client_key == min_key) in
    record {
      client_version = client_text;
      latest_version = policy.latest_version;
      min_supported_version = policy.min_supported_version;
      client_content_version_key = client_key;
      latest_content_version_key = latest_key;
      min_supported_content_version_key = min_key;
      update_feed_url = strip_or_none (text_or policy.update_feed_url "");
      enforce_after = policy.enforce_after;
      update_available = build_update || content_update;
      content_update_available = content_update;
      force_update = behind && is_enforced now policy.enforce_after;
    }
