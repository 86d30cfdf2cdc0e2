-- ===== src/Auth/Stopped.antt =====
-- What is left of a registration that the version of the client stops.
use game_gardens_of_karaxas.Base.{
  ℕ, String, ◌≡◌, refl, true, false, none, some, string_eq_iff, ◌==◌, nat_equality, string_equality,
  pair_equality, option_equality, first_where_last,
}
use mathlib.Core.Path.{subst}
use game_gardens_of_karaxas.Models.{User}
use game_gardens_of_karaxas.RateLimit.{admitted}
use game_gardens_of_karaxas.ReleasePolicy.Versions.{
  ReleasePolicy, ReleaseTables, ensure_release_policy, text_or,
}
use game_gardens_of_karaxas.ReleasePolicy.Evaluate.{evaluate_version}
use game_gardens_of_karaxas.AuthContext.{requires_latest_build}
use game_gardens_of_karaxas.Auth.{Env, Site, Fresh, denied, check_limits, contract_mismatch}
use game_gardens_of_karaxas.Auth.Login.{user_by_email}
use game_gardens_of_karaxas.Auth.Register.{
  RegisterRequest, new_user, add_user, register_versions, register_committed, register_account,
  register,
}

-- A client that registers with an old build is turned away with 426, and is registered nevertheless: the
-- account is there, and who tries again with the right build is told that the email is taken. The
-- registration passes the limiter, is for a new email and has the server's contract, if any; the second
-- one passes the limiter too.
pub stopped_registration_keeps_account :
    {Version : Type 0} (env : Env Version) (now later : ℕ) (fresh fresh' : Fresh) (ip ip' : String)
    (request again : RegisterRequest) (site : Site) (policy : ReleasePolicy)
    (releases : ReleaseTables)
    → (check_limits env now ip (env.lower request.email) site.limiter).0 ≡ admitted
    → user_by_email (env.lower request.email) site.server.accounts.users ≡ none
    → contract_mismatch env.contract request.client_content_contract ≡ false
    → ensure_release_policy site.server.releases ≡ some (policy, releases)
    → requires_latest_build env.lib (
        evaluate_version env.lib now policy
          (some (text_or request.client_version "0.0.0"))
          request.client_content_version_key)
      ≡ true
    → again.email ≡ request.email
    → (check_limits env later ip'
        (env.lower request.email)
        (register env now fresh ip request site).1.limiter).0
      ≡ admitted
    → (let (answer, after) = register env now fresh ip request site in
        (answer ≡ denied 426 "latest_build_required")
        × (user_by_email (env.lower request.email) after.server.accounts.users
            ≡ some (new_user env site.next_user_id request))
        × ((register env later fresh' ip' again after).0 ≡ denied 409 "email_conflict"))
stopped_registration_keeps_account env now later fresh fresh' ip ip' request again site policy
      releases through unused agrees ensured old same_email through_again =
    let user = new_user env site.next_user_id request in
    let limits = check_limits env now ip (env.lower request.email) site.limiter in
    let left = add_user user (record site { limiter = limits.1 }) in
    let after = record left { server = record left.server { releases = releases } } in
    let out : register env now fresh ip request site ≡ (denied 426 "latest_build_required", after) =
      unfold register in
      rw (through, register)
        (rw unused (
          unfold register_account in
          rw (agrees, register_account)
            (unfold register_committed in
              rw (ensured, register_committed)
                (unfold register_versions in rw (old, register_versions) refl)))) in
    let own : (env.lower request.email == env.lower request.email) ≡ true =
      (string_eq_iff (env.lower request.email) (env.lower request.email)).1 refl in
    let there : user_by_email (env.lower request.email) after.server.accounts.users ≡ some user =
      first_where_last (λ (u : User). u.email == env.lower request.email) site.server.accounts.users
        user unused own in
    let limited =
      subst (λ r. (check_limits env later ip' (env.lower request.email) r.1.limiter).0 ≡ admitted)
        out through_again in
    let limited_again : (check_limits env later ip' (env.lower again.email) after.limiter).0
        ≡ admitted =
      rw same_email limited in
    let there_again : user_by_email (env.lower again.email) after.server.accounts.users
        ≡ some user =
      rw same_email there in
    let told : (register env later fresh' ip' again after).0 ≡ denied 409 "email_conflict" =
      unfold register in
      rw (limited_again, register) (rw there_again (unfold register_account in refl)) in
    rw out (refl, there, told)
