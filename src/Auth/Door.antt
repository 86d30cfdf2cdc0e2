-- ===== src/Auth/Door.antt =====
-- The first request behind a login.
use game_gardens_of_karaxas.Base.{
  ℕ, ◌+◌, ◌<◌, String, ◌≡◌, inl, inr, refl, sym, ap, ◌∙◌, true, false, Option, none, some, arith,
  leb, nat_eq_iff, string_eq_iff, ◌==◌, nat_equality, string_equality, pair_equality,
  option_equality, Bool-cases, Option-cases, first_where_last,
}
use mathlib.Core.Path.{subst}
use game_gardens_of_karaxas.Models.{User, UserSession, user_by_id}
use game_gardens_of_karaxas.ReleasePolicy.Monotone.{ensure_on, ensure_fails}
use game_gardens_of_karaxas.ReleasePolicy.Versions.{
  ReleasePolicy, ReleaseTables, ensured_policy, ensure_release_policy,
  resolve_active_content_version_key, known_key, normalize_content_key,
}
use game_gardens_of_karaxas.ReleasePolicy.Evaluate.{VersionDecision, evaluate_version}
use game_gardens_of_karaxas.AuthContext.{
  requires_latest_build, Server, Request, TokenPayload, decode_access_token, token_ids, authorized,
  session_by_id, live, check_session, seen, admit, check_versions, get_auth_context,
}
use game_gardens_of_karaxas.AuthContext.Admission.{reaches_versions}
use game_gardens_of_karaxas.Auth.{Env, Site, Fresh, opened_session, refresh_ttl}
use game_gardens_of_karaxas.Auth.Login.{LoginRequest, user_by_email, login}
use game_gardens_of_karaxas.Auth.Reuse.{sessions_of, has_entered}
use game_gardens_of_karaxas.Auth.Entry.{decision_of, login_entered}

known_key_self : (key : String) → known_key key key ≡ key
known_key_self key = elim (Bool-cases (normalize_content_key (some key) == "unknown")) [
  | inl unknown ↦ rw unknown refl
  | inr known ↦ rw known refl
]

known_key_twice :
    (current key : String) → known_key (known_key current key) key ≡ known_key current key
known_key_twice current key =
    elim (Bool-cases (normalize_content_key (some current) == "unknown")) [
      | inl unknown ↦ rw unknown (known_key_self key)
      | inr known ↦ rw known (rw known refl)
    ]

ensured_policy_twice :
    (key : String) (stored : Option ReleasePolicy)
    → ensured_policy key (some (ensured_policy key stored)) ≡ ensured_policy key stored
ensured_policy_twice key none = rw (known_key_self key) refl
ensured_policy_twice key (some p) = ground (
  arith,
  known_key_twice p.latest_content_version_key key,
  known_key_twice p.min_supported_content_version_key key,
)

-- The policy that `ensure_release_policy` writes is the one that it returns the next time.
pub ensure_twice :
    (db : ReleaseTables) (policy : ReleasePolicy) (db' : ReleaseTables)
    → ensure_release_policy db ≡ some (policy, db')
    → ensure_release_policy db' ≡ some (policy, db')
ensure_twice db policy db' h =
    elim (Option-cases (resolve_active_content_version_key db.contents)) [
      | inl many ↦ absurd (ground (arith, h, ensure_fails db many))
      | inr (key, found) ↦
          let first = ensured_policy key db.policy in
          let after : ReleaseTables = record db { policy = some first } in
          let same : some (first, after) ≡ some (policy, db') = sym (ensure_on db key found) ∙ h in
          let p_eq : first ≡ policy = ground (arith, same) in
          let db_eq : after ≡ db' = ground (arith, same) in
          let again : ensure_release_policy after ≡ some (first, after) =
            ensure_on after key found ∙ rw (ensured_policy_twice key db.policy) refl in
          subst (λ d. ensure_release_policy d ≡ some (policy, d)) db_eq
            (subst (λ q. ensure_release_policy after ≡ some (q, after)) p_eq again)
    ]

ttl_positive : {Version : Type 0} (env : Env Version) (user : User) → 0 < refresh_ttl env user
unfolding refresh_ttl
ttl_positive env user = elim (Bool-cases user.is_admin) [
  | inl admin ↦ rw admin (omega arith)
  | inr plain ↦ rw plain (omega arith)
]

opened_live :
    {Version : Type 0} (env : Env Version) (now : ℕ) (fresh : Fresh) (user : User)
    (version key : String)
    → check_session now user.id (some (opened_session env now fresh user version key)) (some user)
      ≡ live (opened_session env now fresh user version key) user
unfolding check_session opened_session
opened_live env now fresh user version key =
    let own : (user.id == user.id) ≡ true = (nat_eq_iff user.id user.id).1 refl in
    let open_still : leb (now + refresh_ttl env user) now ≡ false =
      ground (arith, ttl_positive env user) in
    rw (own, open_still, check_session) refl

-- The checks of the versions behind a request without headers, where the versions of the session pass.
versions_admit :
    {Version : Type 0} (env : Env Version) (now : ℕ) (next : Request) (user : User)
    (s : UserSession) (server : Server) (policy : ReleasePolicy) (releases : ReleaseTables)
    (version key : String)
    → s.client_version ≡ version
    → s.client_content_version_key ≡ key
    → next.client_version ≡ none
    → next.client_content_version ≡ none
    → next.client_content_contract ≡ none
    → ensure_release_policy server.releases ≡ some (policy, releases)
    → (let v = evaluate_version env.lib now policy (some version) (some key) in
        requires_latest_build env.lib v ≡ false
        → v.force_update ≡ false
        → (check_versions env.lib env.contract now next user s server).0
          ≡ authorized user (seen now next s) v)
unfolding check_versions admit game_gardens_of_karaxas.Base.Text.strip
versions_admit env now next user s server policy releases version key has_version has_key no_version
      no_key no_contract ensured build free =
    rw
      (
        ensured, check_versions, no_version, no_key, has_version, has_key, build, no_contract, free,
        admit,
      )
      refl

-- A user who has logged in with the right password and second factor is admitted at his next request:
-- it is answered for that user and the session that the login has opened. It is made at the time of the
-- login, with a token of the session and no further headers; the id of the session is new, and ids of
-- users are unique.
pub login_admits :
    {Version : Type 0} (env : Env Version) (now : ℕ) (fresh : Fresh) (ip : String)
    (request : LoginRequest) (decode : String → Option TokenPayload) (next : Request) (site : Site)
    → has_entered (login env now fresh ip request site).0 ≡ true
    → session_by_id fresh.session_id site.server.accounts ≡ none
    → ((u : User)
        → user_by_email (env.lower request.email) site.server.accounts.users ≡ some u
        → (user_by_id u.id site.server.accounts.users ≡ some u)
          × (decode_access_token decode next.credentials ≡ token_ids fresh.session_id u.id))
    → (env.lower next.scheme == "bearer") ≡ true
    → next.client_version ≡ none
    → next.client_content_version ≡ none
    → next.client_content_contract ≡ none
    → (u : User) × (s : UserSession) × (v : VersionDecision) × (user_by_email
          (env.lower request.email)
          site.server.accounts.users
        ≡ some u)
      × (env.verify_password request.password u.password_hash ≡ true)
      × (s.id ≡ fresh.session_id)
      × ((get_auth_context env.lib env.lower decode env.contract now
            (some next)
            (login env now fresh ip request site).1.server).0
          ≡ authorized u s v)
login_admits env now fresh ip request decode next site h unused ids scheme no_version no_key
      no_contract =
    let e = login_entered env now fresh ip request site h in
    let after = (login env now fresh ip request site).1 in
    let s =
      opened_session env now fresh e.user request.client_version
        request.client_content_version_key in
    let (by_id, token) = ids e.user e.known in
    let v = decision_of env now fresh ip request e.policy in
    let named : (s.id == fresh.session_id) ≡ true =
      unfold opened_session in (string_eq_iff fresh.session_id fresh.session_id).1 refl in
    let found : session_by_id fresh.session_id after.server.accounts ≡ some s = rw e.accounts (
      first_where_last (λ (r : UserSession). r.id == fresh.session_id) (sessions_of site) s unused
        named) in
    let user_found : user_by_id e.user.id after.server.accounts.users ≡ some e.user =
      rw e.accounts by_id in
    let checked : check_session now e.user.id (session_by_id fresh.session_id after.server.accounts)
          (user_by_id e.user.id after.server.accounts.users)
        ≡ live s e.user =
      rw (found, user_found)
        (opened_live env now fresh e.user request.client_version
          request.client_content_version_key) in
    let reach =
      reaches_versions env.lib env.contract now next env.lower decode after.server fresh.session_id
        e.user.id s e.user scheme token checked (unfold opened_session in refl) in
    (
      e.user,
      seen now next s,
      v,
      e.known,
      e.password_right,
      (unfold opened_session in refl),
      ap (λ r. r.0) reach
          ∙ versions_admit env now next e.user s after.server e.policy after.server.releases
              request.client_version request.client_content_version_key
              (unfold opened_session in refl) (unfold opened_session in refl) no_version no_key
              no_contract
              (ensure_twice site.server.releases e.policy after.server.releases e.ensured)
              e.build_passes e.not_forced,
    )
