-- ===== src/ReleasePolicy/Monotone.antt =====
-- The latest version of the policy over a sequence of activations.
use game_gardens_of_karaxas.Base.{
  ℕ, String, ◌≡◌, inl, inr, refl, sym, false, Option, none, some, List, [], ◌∷◌, nat_equality,
  string_equality, pair_equality, option_equality, Bool-cases, Option-cases, All, ◌==◌, true,
  string_eq_iff, arith,
}
use game_gardens_of_karaxas.Base.Text.{is_empty}
use game_gardens_of_karaxas.ReleasePolicy.Activate.{content_released}
use game_gardens_of_karaxas.ReleasePolicy.Evaluate.{evaluate_version, same_version}
use game_gardens_of_karaxas.ReleasePolicy.Versions.{
  next_logical_build_version, normalize_content_key, VersionLibrary, IsOrdered, safe_version,
  ReleasePolicy, ReleaseTables, resolve_active_content_version_key, ensured_policy,
  ensure_release_policy,
}
use game_gardens_of_karaxas.ReleasePolicy.Activate.{
  Activation, validate_release_activation_versions, activate_release,
}

-- the version that the policy of the tables names as the latest
abbrev pub latest_of : ReleaseTables → String
latest_of db = elim db.policy [ none ↦ "0.0.0" | some p ↦ p.latest_version ]

-- a sequence of activations
abbrev pub activate_all :
    {Version : Type 0}
    → VersionLibrary Version
    → ℕ
    → List (ℕ × Activation)
    → ReleaseTables
    → ReleaseTables
activate_all lib grace [] db = db
activate_all lib grace ((now, request) ∷ rest) db =
    activate_all lib grace rest (activate_release lib grace now request db).1

ensured_latest :
    (key : String) (stored : Option ReleasePolicy)
    → (ensured_policy key stored).latest_version
      ≡ elim stored [ none ↦ "0.0.0" | some p ↦ p.latest_version ]
ensured_latest key none = refl
ensured_latest key (some p) = refl

pub ensure_on :
    (db : ReleaseTables) (key : String)
    → resolve_active_content_version_key db.contents ≡ some key
    → ensure_release_policy db
      ≡ some
          (ensured_policy key db.policy, record db { policy = some (ensured_policy key db.policy) })
unfolding ensure_release_policy
ensure_on db key h = rw (h, ensure_release_policy) refl

pub ensure_fails :
    (db : ReleaseTables)
    → resolve_active_content_version_key db.contents ≡ none
    → ensure_release_policy db ≡ none
unfolding ensure_release_policy
ensure_fails db h = rw (h, ensure_release_policy) refl

-- No activation of the list asks for a regression.
abbrev pub KeepsOrder : ℕ × Activation → Type 0
KeepsOrder (_, request) = request.allow_version_regression ≡ false

-- Behind a content-only release, a client on the build that was the latest before and on the new
-- content key is offered no update and is not forced to one, at any time. The build is not below the
-- minimum, which a content release keeps, and the next logical build is not that minimum.
pub content_release_is_quiet :
    {Version : Type 0} (lib : VersionLibrary Version) (grace released_at now : ℕ) (key who : String)
    (minutes : Option ℕ) (policy : ReleasePolicy)
    → is_empty policy.latest_version ≡ false
    → is_empty policy.min_supported_version ≡ false
    → lib.before
        (safe_version lib policy.latest_version)
        (safe_version lib policy.min_supported_version)
      ≡ false
    → same_version lib
        (safe_version lib (next_logical_build_version lib policy.latest_version))
        (safe_version lib policy.min_supported_version)
      ≡ false
    → (let after = content_released lib grace released_at key who minutes policy in
        let v =
          evaluate_version lib now after
            (some policy.latest_version)
            (some after.latest_content_version_key) in
        (v.update_available ≡ false) × (v.force_update ≡ false))
unfolding evaluate_version content_released
content_release_is_quiet lib grace released_at now key who minutes policy full full_min above
      apart =
    let shown = normalize_content_key (some (normalize_content_key (some key))) in
    let same : (shown == shown) ≡ true = (string_eq_iff shown shown).1 refl in
    rw full (rw full_min (ground (arith, above, apart, same)))

-- the latest version of the second tables is not before that of the first
abbrev pub NotOlder :
    {Version : Type 0} → VersionLibrary Version → ReleaseTables → ReleaseTables → Type 0
NotOlder lib old new =
    lib.before (safe_version lib (latest_of new)) (safe_version lib (latest_of old)) ≡ false

module _ {Version : Type 0} (lib : VersionLibrary Version) (order : IsOrdered lib) where
  activation-NotOlder :
      (grace now : ℕ) (request : Activation) (db : ReleaseTables)
      → request.allow_version_regression ≡ false
      → NotOlder lib db (activate_release lib grace now request db).1
  unfolding activate_release validate_release_activation_versions
  activation-NotOlder grace now request db strict =
      elim (Option-cases (resolve_active_content_version_key db.contents)) [
        | inl many ↦
            rw (ensure_fails db many, activate_release)
              (order.before_irrefl (safe_version lib (latest_of db)))
        | inr (key, found) ↦
            let older =
              lib.before (safe_version lib request.latest_version)
                (safe_version lib (ensured_policy key db.policy).latest_version) in
            elim (Bool-cases older) [
              | inl refused ↦
                  rw (ensure_on db key found, strict, refused, activate_release)
                    (rw (ensured_latest key db.policy)
                      (order.before_irrefl (safe_version lib (latest_of db))))
              | inr fine ↦
                  rw (ensure_on db key found, strict, fine, activate_release)
                    (rw (sym (ensured_latest key db.policy)) fine)
            ]
      ]

  -- Activations that do not allow a regression never make the latest version older, over any sequence of
  -- them and from any tables, refused ones and failures included. The order of versions is total.
  pub activations-NotOlder :
      (grace : ℕ) (requests : List (ℕ × Activation)) (db : ReleaseTables)
      → All KeepsOrder requests
      → NotOlder lib db (activate_all lib grace requests db)
  activations-NotOlder grace [] db h = order.before_irrefl (safe_version lib (latest_of db))
  activations-NotOlder grace ((now, request) ∷ rest) db (strict, others) =
      let next = (activate_release lib grace now request db).1 in
      order.before_trans (safe_version lib (latest_of db)) (safe_version lib (latest_of next))
        (safe_version lib (latest_of (activate_all lib grace rest next)))
        (activation-NotOlder grace now request db strict)
        (activations-NotOlder grace rest next others)
