-- ===== src/AuthContext/Admission.antt =====
-- What a request needs to be admitted, and what becomes of a session that is turned away.
use game_gardens_of_karaxas.Base.{
  [], ◌∷◌, List, first_where, update_where, nat_eq_iff, false, ℕ, String, ◌≡◌, refl, ◌∙◌, true,
  false, Option, none, some, arith, ◌==◌, nat_equality, string_equality, pair_equality,
  option_equality, List, string_eq_iff, nat_eq_iff, update_where, ◌∷◌,
}
use game_gardens_of_karaxas.Base.Text.{is_empty}
use game_gardens_of_karaxas.Models.{User, UserSession, user_by_id, is_draining}
use game_gardens_of_karaxas.SessionDrain.Rows.{Database}
use game_gardens_of_karaxas.SessionDrain.Enforce.{enforce_session_drain}
use game_gardens_of_karaxas.ReleasePolicy.Versions.{
  VersionLibrary, next_logical_build_version, ReleasePolicy, ReleaseTables, ensure_release_policy,
}
use game_gardens_of_karaxas.ReleasePolicy.Evaluate.{evaluate_version}
use game_gardens_of_karaxas.ReleasePolicy.Activate.{content_released}
use game_gardens_of_karaxas.AuthContext.{
  TokenPayload, decode_access_token, token_ids, decode_access_token, token_ids, Server, Request,
  upgrade_required, build_version, requires_latest_build, session_by_id, live, check_session,
  header_or, revoke_session, admit, check_versions, check_drain, get_auth_context, unauthorized,
  first_where,
}

not_draining :
    (now : ℕ) (s : UserSession) (u : User) (db : Database)
    → is_draining s.drain_state ≡ false
    → enforce_session_drain now s u db ≡ (none, s, db)
unfolding enforce_session_drain
not_draining now s u db h = ground (arith, h)

module _ {Version : Type 0} (lib : VersionLibrary Version) (contract : String) (now : ℕ)
    (request : Request) where
  pub reaches_versions :
      (lower : String → String) (decode : String → Option TokenPayload) (server : Server)
      (session_id : String) (user_id : ℕ) (s : UserSession) (u : User)
      → (lower request.scheme == "bearer") ≡ true
      → decode_access_token decode request.credentials ≡ token_ids session_id user_id
      → check_session now user_id
          (session_by_id session_id server.accounts)
          (user_by_id user_id server.accounts.users)
        ≡ live s u
      → is_draining s.drain_state ≡ false
      → get_auth_context lib lower decode contract now (some request) server
        ≡ check_versions lib contract now request u s server
  unfolding get_auth_context check_drain
  reaches_versions lower decode server session_id user_id s u scheme token ok calm =
      rw
        (
          scheme,
          token,
          ok,
          get_auth_context,
          not_draining now s u server.accounts calm,
          check_drain,
        )
        refl

-- A client that runs the latest build before a content-only release, and sends that version, is turned
-- away with 426 at its next request, and its session is revoked. The session is live and is not being
-- drained, the policy is the one that the content release wrote, and the order of versions puts the
-- next logical build behind the old one.
pub content_release_locks_out :
    {Version : Type 0} (lib : VersionLibrary Version) (contract : String) (now : ℕ)
    (request : Request) (lower : String → String) (decode : String → Option TokenPayload)
    (server : Server) (session_id : String) (user_id : ℕ) (s : UserSession) (u : User)
    (grace released_at : ℕ) (key who : String) (minutes : Option ℕ) (policy : ReleasePolicy)
    (releases : ReleaseTables)
    → (lower request.scheme == "bearer") ≡ true
    → decode_access_token decode request.credentials ≡ token_ids session_id user_id
    → check_session now user_id
        (session_by_id session_id server.accounts)
        (user_by_id user_id server.accounts.users)
      ≡ live s u
    → is_draining s.drain_state ≡ false
    → ensure_release_policy server.releases
      ≡ some (content_released lib grace released_at key who minutes policy, releases)
    → request.client_version ≡ some policy.latest_version
    → is_empty policy.latest_version ≡ false
    → lib.before
        (build_version lib policy.latest_version)
        (build_version lib (next_logical_build_version lib policy.latest_version))
      ≡ true
    → get_auth_context lib lower decode contract now (some request) server ≡ (
      upgrade_required "latest_build_required",
      revoke_session now s (record server { releases = releases }),
    )
content_release_locks_out lib contract now request lower decode server session_id user_id s u grace
      released_at key who minutes policy releases scheme token ok calm current sent nonempty newer =
    let evaluated =
      evaluate_version lib now (content_released lib grace released_at key who minutes policy)
        (some (header_or request.client_version s.client_version))
        (some (header_or request.client_content_version s.client_content_version_key)) in
    let reads : evaluated.client_version ≡ policy.latest_version =
      unfold evaluate_version in rw sent (rw nonempty (rw nonempty refl)) in
    let offers : evaluated.latest_version ≡ next_logical_build_version lib policy.latest_version =
      unfold evaluate_version content_released in refl in
    let old : requires_latest_build lib evaluated ≡ true =
      unfold requires_latest_build in rw (reads, offers) newer in
    reaches_versions lib contract now request lower decode server session_id user_id s u scheme
      token ok calm
    ∙ unfold check_versions admit in rw (current, check_versions) (rw (old, admit) refl)

pub replaced_row :
    (i : String) (b : UserSession) (rows : List UserSession) (a : UserSession)
    → first_where (λ (r : UserSession). r.id == i) rows ≡ some a
    → (b.id == i) ≡ true
    → first_where
        (λ (r : UserSession). r.id == i)
        (update_where (λ (r : UserSession). r.id == i) (λ _. b) rows)
      ≡ some b
replaced_row i b [] a h e = ground arith
replaced_row i b (r ∷ rows) a h e = ground (arith, replaced_row i b rows a)

-- Behind the revocation of a session, every request with a token of that session is refused with 401
-- `Session revoked`, at any time, with any client version, and changes nothing.
pub revoked_stays_out :
    {Version : Type 0} (lib : VersionLibrary Version) (contract : String) (now later : ℕ)
    (request : Request) (lower : String → String) (decode : String → Option TokenPayload)
    (server : Server) (s : UserSession)
    → (lower request.scheme == "bearer") ≡ true
    → session_by_id s.id server.accounts ≡ some s
    → decode_access_token decode request.credentials ≡ token_ids s.id s.user_id
    → (let after = revoke_session now s server in
        get_auth_context lib lower decode contract later (some request) after
        ≡ (unauthorized "Session revoked", after))
unfolding get_auth_context check_session check_drain
revoked_stays_out lib contract now later request lower decode server s scheme found token =
    let named : (s.id == s.id) ≡ true = (string_eq_iff s.id s.id).1 refl in
    let mine : (s.user_id == s.user_id) ≡ true = (nat_eq_iff s.user_id s.user_id).1 refl in
    let gone : session_by_id s.id (revoke_session now s server).accounts
        ≡ some (record s { revoked_at = some now }) =
      replaced_row s.id (record s { revoked_at = some now }) server.accounts.sessions s found
        named in
    rw (scheme, token, get_auth_context) (rw gone (rw (mine, check_session) refl))
