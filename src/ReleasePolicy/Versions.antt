-- ===== src/ReleasePolicy/Versions.antt =====
-- release_policy.py: versions, content keys and the rows of the release tables. `packaging.version` is
-- not part of the repository: its versions, its parser, its order and `Version.release` are a
-- parameter.
use game_gardens_of_karaxas.Base.{
  ℕ, ◌+◌, String, ◌≡◌, Bool, false, Option, none, some, List, [], ◌∷◌, ◌==◌, nat_equality,
  string_equality, pair_equality, option_equality, if◌then◌else◌, or_default, select,
}
use game_gardens_of_karaxas.Base.Text.{is_empty, strip_or}
use game_gardens_of_karaxas.Base.Decimal.{decimal, concat_text}

-- `packaging.version`; `parse` has no value where it raises `InvalidVersion`
pub record VersionLibrary (Version : Type 0) : Type 0 where
  pub parse : String → Option Version
  pub zero_version : Version
  pub before : Version → Version → Bool
  pub release : Version → List ℕ

-- What the code relies on: `<` is the strict part of a total order.
pub record IsOrdered {Version : Type 0} (lib : VersionLibrary Version) : Type 0 where
  pub before_irrefl : (v : Version) → lib.before v v ≡ false
  pub before_trans :
      (u v w : Version) → lib.before v u ≡ false → lib.before w v ≡ false → lib.before w u ≡ false

-- `raw or d`
abbrev pub text_or : Option String → String → String
text_or none d = d
text_or (some s) d = if is_empty s then d else s

-- `Version("0.0.0")` is `zero_version`.
unfoldable pub safe_version : {Version : Type 0} → VersionLibrary Version → String → Version
safe_version lib raw = or_default (lib.parse (text_or (some raw) "0.0.0")) lib.zero_version

unfoldable pub normalize_content_key : Option String → String
normalize_content_key raw = strip_or (text_or raw "") "unknown"

abbrev pub part_at : ℕ → List ℕ → ℕ
part_at _ [] = 0
part_at ℕ.zero (n ∷ _) = n
part_at (ℕ.suc i) (_ ∷ ns) = part_at i ns

unfoldable pub next_logical_build_version :
    {Version : Type 0} → VersionLibrary Version → String → String
next_logical_build_version lib raw =
    let parts = lib.release (safe_version lib raw) in
    concat_text (decimal (part_at 0 parts)) (
      concat_text "."
        (concat_text (decimal (part_at 1 parts)) (concat_text "." (decimal (part_at 2 parts + 1)))))

pub record ContentVersion : Type 0 where
  pub id : ℕ
  pub version_key : String
  pub state : String
  pub activated_at : Option ℕ

pub record ReleasePolicy : Type 0 where
  pub latest_version : String
  pub min_supported_version : String
  pub latest_content_version_key : String
  pub min_supported_content_version_key : String
  pub update_feed_url : Option String
  pub enforce_after : Option ℕ
  pub updated_by : String

pub record ReleaseRecord : Type 0 where
  pub build_version : String
  pub min_supported_version : String
  pub content_version_key : String
  pub min_supported_content_version_key : String
  pub update_feed_url : Option String
  pub build_release_notes : String
  pub user_facing_notes : String
  pub activated_by : String
  pub enforce_after : Option ℕ

-- the policy is the row with id 1
pub record ReleaseTables : Type 0 where
  pub policy : Option ReleasePolicy
  pub records : List ReleaseRecord
  pub contents : List ContentVersion

-- `scalar_one_or_none` of the active keys: no value where there are several, and the code raises. So
-- the order of the query has no effect.
abbrev pub one_key : List ContentVersion → Option String
one_key [] = some "cv_bootstrap_v1"
one_key (c ∷ []) = some (
    if is_empty c.version_key
    then "cv_bootstrap_v1"
    else normalize_content_key (some c.version_key))
one_key (_ ∷ _ ∷ _) = none

unfoldable pub resolve_active_content_version_key : List ContentVersion → Option String
resolve_active_content_version_key contents =
    one_key (select (λ (c : ContentVersion). c.state == "active") contents)

abbrev pub bootstrap_policy : String → ReleasePolicy
bootstrap_policy key = record {
  latest_version = "0.0.0";
  min_supported_version = "0.0.0";
  latest_content_version_key = key;
  min_supported_content_version_key = key;
  update_feed_url = none;
  enforce_after = none;
  updated_by = "bootstrap";
}

-- `key` where the normalized text is unknown
abbrev pub known_key : String → String → String
known_key current key = if normalize_content_key (some current) == "unknown" then key else current

-- `ensure_release_policy` behind the lookup of the active content
abbrev pub ensured_policy : String → Option ReleasePolicy → ReleasePolicy
ensured_policy key none = bootstrap_policy key
ensured_policy key (some policy) = record policy {
  latest_content_version_key = known_key policy.latest_content_version_key key;
  min_supported_content_version_key = known_key policy.min_supported_content_version_key key;
}

-- The row that the code returns is the row of the table. No value: the lookup raised.
unfoldable pub ensure_release_policy : ReleaseTables → Option (ReleasePolicy × ReleaseTables)
ensure_release_policy db = elim (resolve_active_content_version_key db.contents) [
  | none ↦ none
  | some key ↦
      let policy = ensured_policy key db.policy in some (policy, record db { policy = some policy })
]
