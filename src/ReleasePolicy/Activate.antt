-- ===== src/ReleasePolicy/Activate.antt =====
-- release_policy.py: `activate_release` and `activate_content_release`. `grace` is the setting
-- `version_grace_minutes_default`.
use game_gardens_of_karaxas.Base.{
  ℕ, ◌+◌, ◌*◌, String, Bool, not, ◌||◌, Option, none, some, [], ◌∷◌, ◌++◌, ◌==◌, nat_equality,
  string_equality, pair_equality, option_equality, if◌then◌else◌, or_default, micros,
}
use game_gardens_of_karaxas.Base.Text.{strip, strip_or_none}
use game_gardens_of_karaxas.ReleasePolicy.Versions.{
  VersionLibrary, text_or, safe_version, normalize_content_key, next_logical_build_version,
  ReleasePolicy, ReleaseRecord, ReleaseTables, resolve_active_content_version_key,
  ensure_release_policy,
}

pub record Activation : Type 0 where
  pub latest_version : String
  pub min_supported_version : Option String
  pub latest_content_version_key : Option String
  pub min_supported_content_version_key : Option String
  pub update_feed_url : Option String
  pub build_release_notes : String
  pub user_facing_notes : String
  pub grace_minutes : Option ℕ
  pub updated_by : String
  pub allow_version_regression : Bool

pub data ActivationResult : Type 0 where
  released : ReleasePolicy → ActivationResult
  -- the `ValueError` of `_validate_release_activation_versions`
  version_regression : ActivationResult
  -- several content versions are active
  ambiguous_content : ActivationResult

unfoldable pub validate_release_activation_versions :
    {Version : Type 0} → VersionLibrary Version → String → String → Bool → Bool
validate_release_activation_versions lib current requested allow =
    allow || not (lib.before (safe_version lib requested) (safe_version lib current))

abbrev pub deadline : ℕ → ℕ → Option ℕ → ℕ
deadline grace now minutes = now + micros (60 * or_default minutes grace)

-- `key`, or the other key where it is unknown
abbrev pub key_or : Option String → String → String
key_or raw other = let key = normalize_content_key raw in if key == "unknown" then other else key

abbrev pub activated : ℕ → ℕ → Activation → String → ReleasePolicy
activated grace now request active =
    let latest_key = key_or request.latest_content_version_key active in
    record {
      latest_version = request.latest_version;
      min_supported_version = text_or request.min_supported_version request.latest_version;
      latest_content_version_key = latest_key;
      min_supported_content_version_key =
          key_or request.min_supported_content_version_key latest_key;
      update_feed_url = strip_or_none (text_or request.update_feed_url "");
      enforce_after = some (deadline grace now request.grace_minutes);
      updated_by = request.updated_by;
    }

abbrev pub record_of : String → String → ReleasePolicy → ReleaseRecord
record_of build_notes user_notes policy = record {
  build_version = policy.latest_version;
  min_supported_version = policy.min_supported_version;
  content_version_key = policy.latest_content_version_key;
  min_supported_content_version_key = policy.min_supported_content_version_key;
  update_feed_url = policy.update_feed_url;
  build_release_notes = strip build_notes;
  user_facing_notes = strip user_notes;
  activated_by = policy.updated_by;
  enforce_after = policy.enforce_after;
}

-- the policy and its record are written
abbrev pub publish :
    String → String → ReleasePolicy → ReleaseTables → ActivationResult × ReleaseTables
publish build_notes user_notes policy db = (
  released policy,
  record db {
    policy = some policy;
    records = db.records ++ record_of build_notes user_notes policy ∷ [];
  },
)

-- `ensure_release_policy` has a key for the active content when it returns, so the second lookup has
-- one too; its value matters only where the request names no key.
unfoldable pub activate_release :
    {Version : Type 0}
    → VersionLibrary Version
    → ℕ
    → ℕ
    → Activation
    → ReleaseTables
    → ActivationResult × ReleaseTables
activate_release lib grace now request db = elim (ensure_release_policy db) [
  | none ↦ (ambiguous_content, db)
  | some (policy, ensured) ↦
      let active = or_default (resolve_active_content_version_key db.contents) "" in
      if validate_release_activation_versions lib policy.latest_version request.latest_version
        request.allow_version_regression
      then publish request.build_release_notes request.user_facing_notes
          (activated grace now request active) ensured
      else (version_regression, ensured)
]

unfoldable pub content_released :
    {Version : Type 0}
    → VersionLibrary Version
    → ℕ
    → ℕ
    → String
    → String
    → Option ℕ
    → ReleasePolicy
    → ReleasePolicy
content_released lib grace now key updated_by minutes policy =
    let next_build = next_logical_build_version lib policy.latest_version in
    let content_key = normalize_content_key (some key) in
    record policy {
      latest_version = next_build;
      min_supported_version = text_or (some policy.min_supported_version) next_build;
      latest_content_version_key = content_key;
      min_supported_content_version_key = content_key;
      enforce_after = some (deadline grace now minutes);
      updated_by = updated_by;
    }

unfoldable pub activate_content_release :
    {Version : Type 0}
    → VersionLibrary Version
    → ℕ
    → ℕ
    → String
    → String
    → String
    → Option ℕ
    → ReleaseTables
    → ActivationResult × ReleaseTables
activate_content_release lib grace now key user_notes updated_by minutes db =
    elim (ensure_release_policy db) [
      | none ↦ (ambiguous_content, db)
      | some (policy, ensured) ↦
          publish "" user_notes (content_released lib grace now key updated_by minutes policy)
            ensured
    ]
