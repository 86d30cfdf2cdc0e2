-- ===== src/Auth/Entry.antt =====
-- What a successful login leaves.
use game_gardens_of_karaxas.Base.{
  ℕ, String, ◌≡◌, ◌⊎◌, inl, inr, refl, sym, ap, ◌∙◌, true, false, Option, none, some, [], ◌∷◌, ◌++◌,
  arith, nat_equality, string_equality, pair_equality, option_equality, Bool-cases, Option-cases,
}
use mathlib.Core.Path.{subst}
use game_gardens_of_karaxas.Models.{User}
use game_gardens_of_karaxas.RateLimit.{admitted, too_many_requests, Admission}
use game_gardens_of_karaxas.ReleasePolicy.Versions.{ReleasePolicy, ensure_release_policy}
use game_gardens_of_karaxas.ReleasePolicy.Evaluate.{VersionDecision, evaluate_version}
use game_gardens_of_karaxas.AuthContext.{requires_latest_build, Server}
use game_gardens_of_karaxas.Auth.{
  Env, Site, Fresh, failed, check_limits, passes_mfa, opened_session, enter, contract_mismatch,
}
use game_gardens_of_karaxas.Auth.Login.{
  LoginRequest, user_by_email, login_versions, login_admitted, login_user, login,
}
use game_gardens_of_karaxas.Auth.Reuse.{sessions_of, has_entered}

Admission-cases : (a : Admission) → (a ≡ admitted) ⊎ ((wait : ℕ) × (a ≡ too_many_requests wait))
Admission-cases admitted = inl refl
Admission-cases (too_many_requests wait) = inr (wait, refl)

module _ {Version : Type 0} (env : Env Version) (now : ℕ) (fresh : Fresh) (ip : String)
    (request : LoginRequest) where
  abbrev pub decision_of : ReleasePolicy → VersionDecision
  decision_of policy =
      evaluate_version env.lib now policy (some request.client_version)
        (some request.client_content_version_key)

  -- What holds behind a successful login: the password and the second factor of the user are right, the
  -- versions pass, and the one change of the accounts is the new session.
  pub record HasEntered (site : Site) (after : Site) : Type 0 where
    pub user : User
    pub policy : ReleasePolicy
    pub known : user_by_email (env.lower request.email) site.server.accounts.users ≡ some user
    pub password_right : env.verify_password request.password user.password_hash ≡ true
    pub factor_right : passes_mfa env user request.otp_code ≡ true
    pub ensured : ensure_release_policy site.server.releases ≡ some (policy, after.server.releases)
    pub build_passes : requires_latest_build env.lib (decision_of policy) ≡ false
    pub contract_passes : contract_mismatch env.contract request.client_content_contract ≡ false
    pub not_forced : (decision_of policy).force_update ≡ false
    pub accounts : after.server.accounts ≡ record site.server.accounts {
      sessions =
          sessions_of site
          ++ opened_session env now fresh user request.client_version
              request.client_content_version_key
            ∷ [];
    }

  versions_entered :
      (user : User) (policy : ReleasePolicy) (site : Site)
      → has_entered (login_versions env now fresh ip request user (decision_of policy) site).0
        ≡ true
      → (requires_latest_build env.lib (decision_of policy) ≡ false)
        × (contract_mismatch env.contract request.client_content_contract ≡ false)
        × ((decision_of policy).force_update ≡ false)
        × ((login_versions env now fresh ip request user (decision_of policy) site).1.server
            ≡ record site.server {
              accounts = record site.server.accounts {
                sessions =
                    sessions_of site
                    ++ opened_session env now fresh user request.client_version
                        request.client_content_version_key
                      ∷ [];
              };
            })
  versions_entered user policy site h =
      let v = decision_of policy in
      elim (Bool-cases (requires_latest_build env.lib v)) [
        | inl old ↦ absurd (unfold login_versions in ground (arith, h, old))
        | inr build ↦
            elim (Bool-cases (contract_mismatch env.contract request.client_content_contract)) [
              | inl bad ↦ absurd (unfold login_versions in ground (arith, h, build, bad))
              | inr contract ↦ elim (Bool-cases v.force_update) [
                | inl forced ↦
                    absurd (unfold login_versions in ground (arith, h, build, contract, forced))
                | inr free ↦ (
                  build,
                  contract,
                  free,
                  unfold login_versions enter in rw (build, contract, free, login_versions) refl,
                )
              ]
            ]
      ]

  admitted_entered :
      (user : User) (site : Site)
      → user_by_email (env.lower request.email) site.server.accounts.users ≡ some user
      → env.verify_password request.password user.password_hash ≡ true
      → passes_mfa env user request.otp_code ≡ true
      → has_entered (login_admitted env now fresh ip request user site).0 ≡ true
      → HasEntered site (login_admitted env now fresh ip request user site).1
  admitted_entered user site known password factor h =
      elim (Option-cases (ensure_release_policy site.server.releases)) [
        | inl nothing ↦
            let out : login_admitted env now fresh ip request user site ≡ (failed, site) =
              unfold login_admitted in rw (nothing, login_admitted) refl in
            absurd (ground (arith, ap (λ r. has_entered r.0) out, h))
        | inr ((policy, releases), found) ↦
            let there = record site { server = record site.server { releases = releases } } in
            let next : login_admitted env now fresh ip request user site
                ≡ login_versions env now fresh ip request user (decision_of policy) there =
              unfold login_admitted in rw (found, login_admitted) refl in
            let (build, contract, free, written) =
              versions_entered user policy there (ap (λ r. has_entered r.0) (sym next) ∙ h) in
            let server = ap (λ r. r.1.server) next ∙ written in
            record {
              user = user;
              policy = policy;
              known = known;
              password_right = password;
              factor_right = factor;
              ensured = found ∙ ap (λ (s : Server). some (policy, s.releases)) (sym server);
              build_passes = build;
              contract_passes = contract;
              not_forced = free;
              accounts = ap (λ (s : Server). s.accounts) server;
            }
      ]

  user_entered :
      (found : Option User) (site : Site)
      → user_by_email (env.lower request.email) site.server.accounts.users ≡ found
      → has_entered (login_user env now fresh ip request found site).0 ≡ true
      → HasEntered site (login_user env now fresh ip request found site).1
  user_entered none site known h = absurd (unfold login_user in ground (arith, h))
  user_entered (some user) site known h =
      elim (Bool-cases (env.verify_password request.password user.password_hash)) [
        | inr wrong ↦
            let out : has_entered (login_user env now fresh ip request (some user) site).0 ≡ false =
              unfold login_user in rw (wrong, login_user) refl in
            absurd (ground (arith, out, h))
        | inl right ↦ elim (Bool-cases (passes_mfa env user request.otp_code)) [
          | inr no_factor ↦
              let out : has_entered (login_user env now fresh ip request (some user) site).0
                  ≡ false =
                unfold login_user in rw (right, no_factor, login_user) refl in
              absurd (ground (arith, out, h))
          | inl factor ↦
              let next : login_user env now fresh ip request (some user) site
                  ≡ login_admitted env now fresh ip request user site =
                unfold login_user in rw (right, factor, login_user) refl in
              subst (λ r. HasEntered site r.1) (sym next)
                (admitted_entered user site known right factor
                  (ap (λ r. has_entered r.0) (sym next) ∙ h))
        ]
      ]

  -- Only the accounts and the releases of the site before count.
  same_server :
      (site other after : Site)
      → site.server ≡ other.server
      → HasEntered site after
      → HasEntered other after
  same_server site other after same e = record {
    user = e.user;
    policy = e.policy;
    known =
        subst
          (λ (s : Server). user_by_email (env.lower request.email) s.accounts.users ≡ some e.user)
          same e.known;
    password_right = e.password_right;
    factor_right = e.factor_right;
    ensured =
        subst
          (λ (s : Server).
            ensure_release_policy s.releases ≡ some (e.policy, after.server.releases))
          same e.ensured;
    build_passes = e.build_passes;
    contract_passes = e.contract_passes;
    not_forced = e.not_forced;
    accounts =
        subst
          (λ (s : Server). after.server.accounts ≡ record s.accounts {
            sessions =
                s.accounts.sessions
                ++ opened_session env now fresh e.user request.client_version
                    request.client_content_version_key
                  ∷ [];
          })
          same e.accounts;
  }

  pub login_entered :
      (site : Site)
      → has_entered (login env now fresh ip request site).0 ≡ true
      → HasEntered site (login env now fresh ip request site).1
  login_entered site h =
      let email = env.lower request.email in
      let limits = check_limits env now ip email site.limiter in
      let checked = record site { limiter = limits.1 } in
      let found = user_by_email email site.server.accounts.users in
      elim (Admission-cases limits.0) [
        | inl through ↦
            let next : login env now fresh ip request site
                ≡ login_user env now fresh ip request found checked =
              unfold login in rw (through, login) refl in
            subst (λ r. HasEntered site r.1) (sym next)
              (same_server checked site (login_user env now fresh ip request found checked).1 refl
                (user_entered found checked refl (ap (λ r. has_entered r.0) (sym next) ∙ h)))
        | inr (wait, blocked) ↦
            let out : has_entered (login env now fresh ip request site).0 ≡ false =
              unfold login in rw (blocked, login) refl in
            absurd (ground (arith, out, h))
      ]
