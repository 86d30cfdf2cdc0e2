-- ===== src/Auth/Reuse.antt =====
-- The rotation of a refresh token, and the use of one that was rotated away.
use game_gardens_of_karaxas.Base.{
  ℕ, String, ◌≡◌, inl, inr, refl, sym, ap, ◌∙◌, Bool, true, false, not, ◌||◌, Option, none, some,
  List, [], ◌∷◌, arith, leb, string_eq_iff, ◌==◌, nat_equality, string_equality, pair_equality,
  option_equality, Bool-cases, Option-cases, is_none, first_where, count_where, any_where,
  first_where_sound, any_where-first_where_found,
}
use mathlib.Core.Path.{subst}
use game_gardens_of_karaxas.Models.{User, UserSession, user_by_id}
use game_gardens_of_karaxas.SessionDrain.Enforce.{
  SessionDrainDecision, enforce_session_drain, replace_session,
}
use game_gardens_of_karaxas.SessionDrain.Logout.{is_forced, no_logout_no_change}
use game_gardens_of_karaxas.ReleasePolicy.Versions.{ensure_release_policy}
use game_gardens_of_karaxas.ReleasePolicy.Evaluate.{VersionDecision, evaluate_version}
use game_gardens_of_karaxas.AuthContext.{requires_latest_build, logged_out}
use game_gardens_of_karaxas.Auth.{
  Env, Site, AuthAnswer, entered, reuse_detected, failed, contract_mismatch,
}
use game_gardens_of_karaxas.Auth.Refresh.{
  RefreshRequest, has_token, had_token, live_session_of, revoke_all_user_sessions, rotated,
  refresh_versions, refresh_drained, drained, refresh_session, refresh_unknown, refresh,
}
use game_gardens_of_karaxas.Auth.Rotation.{shares_token, none_live, no_holder, old_holder}

abbrev pub sessions_of : Site → List UserSession
sessions_of site = site.server.accounts.sessions

-- the sessions behind a refresh that has rotated the token of a session
abbrev pub Rotates :
    {Version : Type 0}
    → Env Version
    → ℕ
    → String
    → RefreshRequest
    → UserSession
    → Site
    → Site
    → Type 0
Rotates env now new_refresh request s site after =
    (user : User) × (sessions_of after
      ≡ replace_session (rotated env now new_refresh request user s) (sessions_of site))

abbrev pub has_entered : AuthAnswer → Bool
has_entered (entered _ _ _ _) = true
has_entered _ = false

logged_out_forced : (d : Option SessionDrainDecision) → logged_out d ≡ is_forced d
logged_out_forced none = refl
logged_out_forced (some d) = refl

module _ {Version : Type 0} (env : Env Version) (now : ℕ) (new_refresh ip : String)
    (request : RefreshRequest) where
  versions_rotate :
      (user : User) (s : UserSession) (version : VersionDecision) (site : Site)
      → has_entered (refresh_versions env now new_refresh ip request user s version site).0 ≡ true
      → sessions_of (refresh_versions env now new_refresh ip request user s version site).1
        ≡ replace_session (rotated env now new_refresh request user s) (sessions_of site)
  versions_rotate user s version site h =
      elim (Bool-cases (requires_latest_build env.lib version)) [
        | inl old ↦ absurd (unfold refresh_versions in ground (arith, h, old))
        | inr build ↦
            elim (Bool-cases (contract_mismatch env.contract request.client_content_contract)) [
              | inl bad ↦ absurd (unfold refresh_versions in ground (arith, h, build, bad))
              | inr contract ↦ elim (Bool-cases version.force_update) [
                | inl forced ↦
                    absurd (unfold refresh_versions in ground (arith, h, build, contract, forced))
                | inr free ↦
                    unfold refresh_versions in rw (build, contract, free, refresh_versions) refl
              ]
            ]
      ]

  quiet_rotate :
      (drain : Option SessionDrainDecision) (user : User) (s : UserSession) (site : Site)
      → logged_out drain ≡ false
      → has_entered (refresh_drained env now new_refresh ip request user (drain, s, site)).0 ≡ true
      → Rotates env now new_refresh request s site
          (refresh_drained env now new_refresh ip request user (drain, s, site)).1
  quiet_rotate drain user s site quiet h =
      elim (Option-cases (ensure_release_policy site.server.releases)) [
        | inl none_found ↦
            let end : refresh_drained env now new_refresh ip request user (drain, s, site)
                ≡ (failed, site) =
              unfold refresh_drained in rw (quiet, none_found, refresh_drained) refl in
            absurd (ground (arith, ap (λ r. has_entered r.0) end, h))
        | inr ((policy, releases), found) ↦
            let version =
              evaluate_version env.lib now policy (some request.client_version)
                (some request.client_content_version_key) in
            let there = record site { server = record site.server { releases = releases } } in
            let next : refresh_drained env now new_refresh ip request user (drain, s, site)
                ≡ refresh_versions env now new_refresh ip request user s version there =
              unfold refresh_drained in rw (quiet, found, refresh_drained) refl in
            (
              user,
              ap (λ r. sessions_of r.1) next
                  ∙ versions_rotate user s version there (ap (λ r. has_entered r.0) (sym next) ∙ h),
            )
      ]

  drained_rotate :
      (user : User) (s : UserSession) (site : Site)
      → has_entered
          (refresh_drained env now new_refresh ip request user (drained now s user site)).0
        ≡ true
      → Rotates env now new_refresh request s site
          (refresh_drained env now new_refresh ip request user (drained now s user site)).1
  drained_rotate user s site h =
      let drain = (enforce_session_drain now s user site.server.accounts).0 in
      elim (Bool-cases (is_forced drain)) [
        | inl forced ↦
            let out : has_entered
                  (refresh_drained env now new_refresh ip request user (drained now s user site)).0
                ≡ false =
              unfold refresh_drained in
              rw (logged_out_forced drain ∙ forced, refresh_drained) refl in
            absurd (ground (arith, out, h))
        | inr quiet ↦
            let (same_s, same_db) = no_logout_no_change now s user site.server.accounts quiet in
            let still : drained now s user site ≡ (drain, s, site) = rw (same_s, same_db) refl in
            subst
              (λ d.
                Rotates env now new_refresh request s site
                  (refresh_drained env now new_refresh ip request user d).1)
              (sym still)
              (quiet_rotate drain user s site (logged_out_forced drain ∙ quiet) (
                subst
                  (λ d.
                    has_entered (refresh_drained env now new_refresh ip request user d).0 ≡ true)
                  still h))
      ]

  session_rotate :
      (s : UserSession) (site : Site)
      → has_entered (refresh_session env now new_refresh ip request s site).0 ≡ true
      → Rotates env now new_refresh request s site
          (refresh_session env now new_refresh ip request s site).1
  session_rotate s site h = elim (Bool-cases (not (is_none s.revoked_at) || leb s.expires_at now)) [
    | inl gone ↦
        let out : has_entered (refresh_session env now new_refresh ip request s site).0 ≡ false =
          unfold refresh_session in rw (gone, refresh_session) refl in
        absurd (ground (arith, out, h))
    | inr lives ↦ elim (Option-cases (user_by_id s.user_id site.server.accounts.users)) [
      | inl nobody ↦
          let out : has_entered (refresh_session env now new_refresh ip request s site).0 ≡ false =
            unfold refresh_session in rw (lives, nobody, refresh_session) refl in
          absurd (ground (arith, out, h))
      | inr (user, found) ↦
          let next : refresh_session env now new_refresh ip request s site
              ≡ refresh_drained env now new_refresh ip request user (drained now s user site) =
            unfold refresh_session in rw (lives, found, refresh_session) refl in
          subst (λ r. Rotates env now new_refresh request s site r.1) (sym next)
            (drained_rotate user s site (ap (λ r. has_entered r.0) (sym next) ∙ h))
    ]
  ]

-- a second use of the token, in tables where only a former holder has it
reuse_step :
    {Version : Type 0} (env : Env Version) (later : ℕ) (other_refresh ip : String)
    (again : RefreshRequest) (site : Site) (t : UserSession)
    → first_where (has_token (env.hash_token again.refresh_token)) (sessions_of site) ≡ none
    → first_where (had_token (env.hash_token again.refresh_token)) (sessions_of site) ≡ some t
    → (let (answer, end) = refresh env later other_refresh ip again site in
        (answer ≡ reuse_detected (count_where (live_session_of t.user_id) (sessions_of site)))
        × (count_where (live_session_of t.user_id) (sessions_of end) ≡ 0))
unfolding refresh
reuse_step env later other_refresh ip again site t free held =
    unfold refresh_unknown revoke_all_user_sessions in
    rw (free, refresh) (rw held (refl, none_live t.user_id later (sessions_of site)))

-- The first list has the sessions of the second, of the same users and with the same tokens, now and
-- before, and then others, none of which has the token; all else may differ.
abbrev pub KeepsTokens : String → List UserSession → List UserSession → Type 0
KeepsTokens hash [] [] = Unit {0}
KeepsTokens hash [] (r ∷ rows) = ⊥
KeepsTokens hash (s ∷ ss) [] = (has_token hash s ≡ false) × KeepsTokens hash ss []
KeepsTokens hash (s ∷ ss) (r ∷ rows) =
    (s.id ≡ r.id)
    × (s.user_id ≡ r.user_id)
    × (s.refresh_token_hash ≡ r.refresh_token_hash)
    × (s.previous_refresh_token_hash ≡ r.previous_refresh_token_hash)
    × KeepsTokens hash ss rows

still_free :
    (hash : String) (ss rows : List UserSession)
    → KeepsTokens hash ss rows
    → first_where (has_token hash) rows ≡ none
    → first_where (has_token hash) ss ≡ none
still_free hash [] [] h free = refl
still_free hash [] (r ∷ rows) h free = absurd h
still_free hash (s ∷ ss) [] (new, rest) free = rw new (still_free hash ss [] rest free)
still_free hash (s ∷ ss) (r ∷ rows) (_, _, now, _, rest) free =
    let same : has_token hash s ≡ has_token hash r = rw now refl in
    elim (Bool-cases (has_token hash r)) [
      | inl held ↦ absurd (ground (arith, free, held))
      | inr not_held ↦
          rw (same ∙ not_held) (still_free hash ss rows rest (ground (arith, free, not_held)))
    ]

still_held :
    (hash : String) (ss rows : List UserSession) (t : UserSession)
    → KeepsTokens hash ss rows
    → first_where (had_token hash) rows ≡ some t
    → (s : UserSession) × (first_where (had_token hash) ss ≡ some s) × (s.user_id ≡ t.user_id)
still_held hash [] [] t h found = absurd (ground (arith, found))
still_held hash [] (r ∷ rows) t h found = absurd h
still_held hash (s ∷ ss) [] t h found = absurd (ground (arith, found))
still_held hash (s ∷ ss) (r ∷ rows) t (_, user, _, before, rest) found =
    let same : had_token hash s ≡ had_token hash r = rw before refl in
    elim (Bool-cases (had_token hash r)) [
      | inl held ↦
          let here : r ≡ t = ground (arith, found, held) in
          (s, rw (same ∙ held) refl, user ∙ ap (λ (u : UserSession). u.user_id) here)
      | inr not_held ↦
          let (u, there, his) = still_held hash ss rows t rest (ground (arith, found, not_held)) in
          (u, rw (same ∙ not_held) there, his)
    ]

-- Whoever uses a refresh token that has been rotated away is found out, at any time, as long as the
-- sessions that the rotation left keep their tokens: the answer says so, and no session of the user is
-- left unrevoked. In between, new sessions with other tokens may follow, and all else may change, also
-- of those sessions. The refresh before has succeeded, the new token's hash is another one, and no other
-- session had or has the old token then.
pub reuse_is_detected :
    {Version : Type 0} (env : Env Version) (now later : ℕ)
    (new_refresh other_refresh ip other_ip : String) (request again : RefreshRequest)
    (site site' : Site) (s : UserSession)
    → first_where (has_token (env.hash_token request.refresh_token)) (sessions_of site) ≡ some s
    → any_where (shares_token (env.hash_token request.refresh_token) s.id) (sessions_of site)
      ≡ false
    → (env.hash_token new_refresh == env.hash_token request.refresh_token) ≡ false
    → again.refresh_token ≡ request.refresh_token
    → has_entered (refresh env now new_refresh ip request site).0 ≡ true
    → KeepsTokens
        (env.hash_token request.refresh_token)
        (sessions_of site')
        (sessions_of (refresh env now new_refresh ip request site).1)
    → (let (answer, end) = refresh env later other_refresh other_ip again site' in
        (answer ≡ reuse_detected (count_where (live_session_of s.user_id) (sessions_of site')))
        × (count_where (live_session_of s.user_id) (sessions_of end) ≡ 0))
reuse_is_detected env now later new_refresh other_refresh ip other_ip request again site site' s
      found alone fresh same h tokens =
    let hash = env.hash_token request.refresh_token in
    let after = (refresh env now new_refresh ip request site).1 in
    let first : refresh env now new_refresh ip request site
        ≡ refresh_session env now new_refresh ip request s site =
      unfold refresh in rw (found, refresh) refl in
    let (user, written) =
      session_rotate env now new_refresh ip request s site
        (ap (λ r. has_entered r.0) (sym first) ∙ h) in
    let s' = rotated env now new_refresh request user s in
    let table : sessions_of after ≡ replace_session s' (sessions_of site) =
      ap (λ r. sessions_of r.1) first ∙ written in
    let named : (s.id == s.id) ≡ true = (string_eq_iff s.id s.id).1 refl in
    let held : (s.refresh_token_hash == hash) ≡ true =
      first_where_sound (has_token hash) (sessions_of site) s found in
    let there =
      any_where-first_where_found (λ (r : UserSession). r.id == s.id) (has_token hash)
        (sessions_of site) s found named in
    let free : first_where (has_token hash) (sessions_of after) ≡ none =
      rw table (no_holder hash s.id s' named fresh (sessions_of site) alone) in
    let former : first_where (had_token hash) (sessions_of after) ≡ some s' =
      rw table (old_holder hash s.id s' named fresh (sessions_of site) alone held there) in
    let (holder, there', his) =
      still_held hash (sessions_of site') (sessions_of after) s' tokens former in
    let free' = still_free hash (sessions_of site') (sessions_of after) tokens free in
    let out =
      reuse_step env later other_refresh other_ip again site' holder (rw same free')
        (rw same there') in
    rw (← his) out
